-- ===== src/Prelude/Words.antt =====
-- Unsigned machine words, as the naturals below a power of two with the wrap-around written out.
use Prim.Native.Nat.{ℕ, ◌+◌, ◌%◌}
use mathlib.Core.Bool.{Bool}
use mobile_cloud_caching.Prelude.Tests.{leb}

-- `x++` on an 8-bit and on a 32-bit unsigned, and `+` on a 64-bit unsigned.
abbrev pub inc8 : ℕ → ℕ
inc8 x = (x + 1) % 256

abbrev pub inc32 : ℕ → ℕ
inc32 x = (x + 1) % 4_294_967_296

abbrev pub add64 : ℕ → ℕ → ℕ
add64 x y = (x + y) % 18_446_744_073_709_551_616

-- `x--` and `a >= b` on a 32-bit `int`, as its bit pattern.
abbrev pub dec32 : ℕ → ℕ
dec32 x = (x + 4_294_967_295) % 4_294_967_296

abbrev pub ge_int : ℕ → ℕ → Bool
ge_int a b = leb ((b + 2_147_483_648) % 4_294_967_296) ((a + 2_147_483_648) % 4_294_967_296)
