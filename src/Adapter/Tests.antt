-- ===== src/Adapter/Tests.antt =====
-- Runs of the adapters' tables and lease identifiers.
use dagworker.Base.{◌≡◌, refl, some, arith, codes}
use dagworker.Errors.{unwrap, ok, plain, err_lease_mismatch}
use dagworker.Adapter.LeaseId.{
  Base64, IsBase64, encode_lease_id, decode_lease_id, decode_lease_id-encode_lease_id,
}
use dagworker.Adapter.Problem.{Failure, Agrees, http_error, grpc_error, http_error-grpc_error}

-- An encoding of bytes that leaves them as they are.
abbrev plainly : Base64
plainly = record { encode = λ bytes. bytes; decode = λ token. some token }

plainly-IsBase64 : IsBase64 plainly
plainly-IsBase64 = record { decodes = λ bytes h. refl }

decode_lease_id-encode_lease_id_example :
    decode_lease_id plainly (encode_lease_id plainly (codes "a") 7) ≡ ok (codes "a", 7)
decode_lease_id-encode_lease_id_example =
    decode_lease_id-encode_lease_id plainly plainly-IsBase64 (codes "a") 7 (omega arith, tt)
      (omega arith)

http_error-grpc_error_example :
    Agrees
      (http_error (Failure.failed (plain err_lease_mismatch)))
      (grpc_error (Failure.failed (plain err_lease_mismatch)))
unfolding unwrap
http_error-grpc_error_example =
    http_error-grpc_error (Failure.failed (plain err_lease_mismatch))
      (λ e same. ground (arith, same))
