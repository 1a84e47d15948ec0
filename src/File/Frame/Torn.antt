-- ===== src/File/Frame/Torn.antt =====
-- log.go: what a reader finds of a log that was written frame by frame, and cut short in its last one.
use mathlib.Core.List.{append_assoc}
use dagworker.Base.{
  ℕ, zero, suc, ◌-◌, ◌/◌, ◌%◌, ◌^◌, ◌≤◌, ◌<◌, ◌≡◌, refl, ap, ◌∙◌, true, false, none, some, List, [],
  ◌∷◌, ◌++◌, ◌==◌, ==_iff, ltb, arith, length, take, drop, length-append, All,
}
use dagworker.File.Frame.{Codec, Contents, put_uint32, uint32, frame, read_one, read_loop, read_all}

-- What the log relies on: a record is read back as it was written, and a checksum is a uint32.
pub record IsCodec {R : Type 0} (codec : Codec R) : Type 0 where
  pub decodes : (r : R) → codec.decode (codec.encode r) ≡ some r
  pub sums : (bytes : List ℕ) → codec.checksum bytes < 2 ^ 32

-- A record of less than 4 GiB.
abbrev pub Fits : {R : Type 0} → Codec R → R → Type 0
Fits codec r = length (codec.encode r) < 2 ^ 32

-- The records' frames, one after another.
unfoldable pub frames : {R : Type 0} → Codec R → List R → List ℕ
frames codec [] = []
frames codec (r ∷ rs) = frame codec r ++ frames codec rs

module _ {ℓ} {A : Type ℓ} where
  pub take-append : (xs ys : List A) → take (length xs) (xs ++ ys) ≡ xs
  take-append [] ys = refl
  take-append (x ∷ xs) ys = ap (λ zs. x ∷ zs) (take-append xs ys)

  pub drop-append : (xs ys : List A) → drop (length xs) (xs ++ ys) ≡ ys
  drop-append [] ys = refl
  drop-append (x ∷ xs) ys = drop-append xs ys

  length-take : (n : ℕ) (xs : List A) → n ≤ length xs → length (take n xs) ≡ n
  length-take zero xs h = refl
  length-take (suc n) [] h = absurd (omega arith)
  length-take (suc n) (x ∷ xs) h = ap suc (length-take n xs (omega arith))

uint32-put_uint32 :
    (n : ℕ)
    → n < 2 ^ 32
    → uint32 (n % 256) (n / 256 % 256) (n / 65536 % 256) (n / 16777216 % 256) ≡ n
unfolding uint32
uint32-put_uint32 n h = omega arith

pub frame-pos : {R : Type 0} (codec : Codec R) (r : R) → 0 < length (frame codec r)
unfolding frame put_uint32
frame-pos codec r = omega arith

module _ {R : Type 0} (codec : Codec R) (laws : IsCodec codec) where
  read_one-frame :
      (r : R) (more : List ℕ)
      → Fits codec r
      → read_one codec (frame codec r ++ more) ≡ some (r, more)
  unfolding frame read_one put_uint32
  read_one-frame r more small =
      let p = codec.encode r in
      let n : uint32 (length p % 2 ^ 32 % 256) (length p % 2 ^ 32 / 256 % 256)
            (length p % 2 ^ 32 / 65536 % 256) (length p % 2 ^ 32 / 16777216 % 256)
          ≡ length p =
        uint32-put_uint32 (length p % 2 ^ 32) (omega arith) ∙ omega (arith, small) in
      let s = uint32-put_uint32 (codec.checksum p) (laws.sums p) in
      let fits : ltb (length (p ++ more)) (length p) ≡ false =
        ground (arith, length-append p more) in
      let sum : (codec.checksum p == codec.checksum p) ≡ true = (==_iff _ _).1 refl in
      rw (n, s, take-append p more, fits, sum, laws.decodes r)
        (ap (λ (q : List ℕ). some (r, q)) (ap (λ m. drop m (p ++ more)) n ∙ drop-append p more))

  read_one-torn :
      (r : R) (k : ℕ)
      → k < length (frame codec r)
      → Fits codec r
      → read_one codec (take k (frame codec r)) ≡ none
  unfolding frame read_one put_uint32
  read_one-torn r zero h small = refl
  read_one-torn r (suc zero) h small = refl
  read_one-torn r (suc (suc zero)) h small = refl
  read_one-torn r (suc (suc (suc zero))) h small = refl
  read_one-torn r (suc (suc (suc (suc zero)))) h small = refl
  read_one-torn r (suc (suc (suc (suc (suc zero))))) h small = refl
  read_one-torn r (suc (suc (suc (suc (suc (suc zero)))))) h small = refl
  read_one-torn r (suc (suc (suc (suc (suc (suc (suc zero))))))) h small = refl
  read_one-torn r (suc (suc (suc (suc (suc (suc (suc (suc k)))))))) h small =
      let p = codec.encode r in
      let n : uint32 (length p % 2 ^ 32 % 256) (length p % 2 ^ 32 / 256 % 256)
            (length p % 2 ^ 32 / 65536 % 256) (length p % 2 ^ 32 / 16777216 % 256)
          ≡ length p =
        uint32-put_uint32 (length p % 2 ^ 32) (omega arith) ∙ omega (arith, small) in
      let short : ltb (length (take k p)) (length p) ≡ true =
        ground (arith, length-take k p (omega arith)) in
      rw (n, short) refl

  frame-length : (r : R) → 8 ≤ length (frame codec r)
  unfolding frame put_uint32
  frame-length r = omega arith

  read_loop-frames :
      (fuel : ℕ) (rs : List R) (torn : List ℕ)
      → length (frames codec rs) ≤ fuel
      → All (Fits codec) rs
      → read_one codec torn ≡ none
      → read_loop fuel codec (frames codec rs ++ torn) ≡ (rs, torn)
  unfolding frames read_loop
  read_loop-frames zero [] torn h fit e = refl
  read_loop-frames (suc fuel) [] torn h fit e = rw (e, read_loop) refl
  read_loop-frames zero (r ∷ rs) torn h fit e =
      absurd (omega (arith, length-append (frame codec r) (frames codec rs), frame-length r))
  read_loop-frames (suc fuel) (r ∷ rs) torn h fit e =
      let rest = frames codec rs ++ torn in
      let here : read_one codec ((frame codec r ++ frames codec rs) ++ torn) ≡ some (r, rest) =
        ap (read_one codec) (append_assoc (frame codec r) (frames codec rs) torn)
        ∙ read_one-frame r rest fit.0 in
      let ih =
        read_loop-frames fuel rs torn
          (omega (arith, length-append (frame codec r) (frames codec rs), frame-length r)) fit.1
          e in
      rw (here, read_loop) (ap (λ (q : List R × List ℕ). (r ∷ q.0, q.1)) ih)

  -- A log of whole frames with a part of one more behind them is read back as the records of the
  -- whole frames; the part is counted as discarded, and the file is cut back to the whole frames.
  pub read_all-frames :
      (rs : List R) (r : R) (k : ℕ)
      → All (Fits codec) rs
      → Fits codec r
      → k < length (frame codec r)
      → read_all codec (frames codec rs ++ take k (frame codec r))
        ≡ record { records = rs; discarded = k; file = frames codec rs }
  unfolding read_all
  read_all-frames rs r k fit small h =
      let torn = take k (frame codec r) in
      let bytes = frames codec rs ++ torn in
      let size = length-append (frames codec rs) torn in
      let cut : length torn ≡ k = length-take k (frame codec r) (omega arith) in
      let read =
        read_loop-frames (length bytes) rs torn (omega (arith, size)) fit
          (read_one-torn r k h small) in
      let left : length bytes - length torn ≡ length (frames codec rs) = omega (arith, size) in
      let whole : Contents R = record {
        records = rs;
        discarded = length torn;
        file = take (length bytes - length torn) bytes;
      } in
      let found : read_all codec bytes ≡ whole =
        ap
          (λ (q : List R × List ℕ). record {
            records = q.0;
            discarded = length q.1;
            file = take (length bytes - length q.1) bytes;
          })
          read in
      let kept : take (length bytes - length torn) bytes ≡ frames codec rs =
        ap (λ m. take m bytes) left ∙ take-append (frames codec rs) torn in
      found ∙ λ i. record { records = rs; discarded = cut i; file = kept i }
