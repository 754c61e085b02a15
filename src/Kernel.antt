-- ===== src/Kernel.antt =====
-- What the module takes from the Linux kernel's headers and cannot be read here: the comparisons of
-- times in linux/jiffies.h and the byte-order functions, with what their documentation says.
use mobile_cloud_caching.Prelude.{ℕ, ◌+◌, ◌<◌, ◌≡◌, Bool, not, ltb}

pub record Kernel : Type 0 where
  -- `time_after (a, b)`: a is after b. The test is on a signed difference, so it is the plain order
  -- for times less than half the range of a 32-bit `long` apart.
  pub time_after : ℕ → ℕ → Bool
  pub time_after_window :
      (a b : ℕ) → a < b + 2_147_483_648 → b < a + 2_147_483_648 → time_after a b ≡ ltb b a
  -- `time_after_eq (a, b)` is the negation of `time_after (b, a)`.
  pub time_after_eq : ℕ → ℕ → Bool
  pub time_after_eq_not : (a b : ℕ) → time_after_eq a b ≡ not (time_after b a)
  pub htonl : ℕ → ℕ
  pub ntohl : ℕ → ℕ
  pub ntohl-htonl : (x : ℕ) → x < 4_294_967_296 → ntohl (htonl x) ≡ x
  pub htonl-ntohl : (x : ℕ) → x < 4_294_967_296 → htonl (ntohl x) ≡ x

module _ ⦃k : Kernel⦄ where
  -- The two macros that swap the arguments.
  abbrev pub time_after : ℕ → ℕ → Bool
  time_after a b = k.time_after a b

  abbrev pub time_before : ℕ → ℕ → Bool
  time_before a b = k.time_after b a

  abbrev pub time_before_eq : ℕ → ℕ → Bool
  time_before_eq a b = k.time_after_eq b a

  abbrev pub htonl : ℕ → ℕ
  htonl x = k.htonl x

  abbrev pub ntohl : ℕ → ℕ
  ntohl x = k.ntohl x
