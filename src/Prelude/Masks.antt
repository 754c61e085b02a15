-- ===== src/Prelude/Masks.antt =====
-- `&` with a mask of ones, from the recursion on binary digits that the native operation is.
use Prim.Native.Nat.{ℕ, zero, suc, ◌+◌, ◌*◌, ◌/◌, ◌≤◌, ◌<◌, min, bit_and, digits, bit_and-bitwise}
use mathlib.Core.Path.{◌≡◌, refl, ◌∙◌}
use native.Mathlib.Omega.{arith}

-- k ones in binary, and the first number that needs more digits.
ones : ℕ → ℕ
ones zero = 0
ones (suc k) = ones k * 2 + 1

range_of : ℕ → ℕ
range_of zero = 1
range_of (suc k) = range_of k * 2

ones-half : (k : ℕ) → ones (suc k) / 2 ≡ ones k
unfolding ones
ones-half k = omega arith

digits-ones : (n k a : ℕ) → a ≤ n → a < range_of k → digits (λ b. zero) min n a (ones k) ≡ a
unfolding ones range_of
digits-ones zero k zero h lt = refl
digits-ones zero k (suc a) h lt = absurd (omega arith)
digits-ones (suc n) k zero h lt = refl
digits-ones (suc n) zero (suc a) h lt = absurd (omega arith)
digits-ones (suc n) (suc k) (suc a) h lt =
    rw (ones-half k) (omega (arith, digits-ones n k (suc a / 2) (omega arith) (omega arith)))

-- A word is not changed by the mask of 32 ones.
pub bit_and-ones32 : (a : ℕ) → a < 4_294_967_296 → bit_and a 4_294_967_295 ≡ a
unfolding ones range_of
bit_and-ones32 a h = bit_and-bitwise a 4_294_967_295 ∙ digits-ones a 32 a (omega arith) h
