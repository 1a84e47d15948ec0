-- ===== src/Base/Word.antt =====
-- Unsigned machine words: the steps by one that the source makes on uint32 and uint64 values.
use Prim.Native.Nat.{ℕ, suc, ◌+◌, ◌-◌, ◌%◌, ◌^◌}
use mathlib.Core.Path.{◌≡◌}
use native.Mathlib.Omega.{arith}

-- x++ on a uint32.
abbrev pub inc32 : ℕ → ℕ
inc32 n = (n + 1) % 2 ^ 32

-- x++ and x-- on a uint64.
abbrev pub inc64 : ℕ → ℕ
inc64 n = (n + 1) % 2 ^ 64

abbrev pub dec64 : ℕ → ℕ
dec64 n = (n + 2 ^ 64 - 1) % 2 ^ 64

pub inc64-mod : (n : ℕ) → inc64 (n % 2 ^ 64) ≡ suc n % 2 ^ 64
inc64-mod n = omega arith

pub dec64-mod : (n : ℕ) → dec64 (suc n % 2 ^ 64) ≡ n % 2 ^ 64
dec64-mod n = omega arith
