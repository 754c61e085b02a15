-- ===== src/Utils/Netmask.antt =====
-- Netmasks and prefix lengths, from kaodv/src/utils.c.
use mobile_cloud_caching.Prelude.{
  ℕ, Bool-cases, inl, inr, zero, suc, ◌-◌, ◌^◌, ◌≤◌, ◌≡◌, refl, ◌==◌, Bool, true, false, Option,
  none, some, ◌&&◌, ◌||◌, arith,
}
use mobile_cloud_caching.Utils.{calculate_netmask, calculate_prefix}

-- A test passes for every length up to the one given.
passes_to : (ℕ → Bool) → ℕ → Bool
passes_to test zero = test zero
passes_to test (suc last) = passes_to test last && test (suc last)

passes_to_sound :
    (test : ℕ → Bool) (t last : ℕ) → passes_to test last ≡ true → t ≤ last → test t ≡ true
unfolding passes_to
passes_to_sound test zero zero ok low = ok
passes_to_sound test (suc t) zero ok low = absurd (omega (arith, low))
passes_to_sound test t (suc last) ok low = elim (Bool-cases (t == suc last)) [
  | inl e ↦ let at_end : t ≡ suc last = ground (arith, e) in rw at_end (ground (arith, ok))
  | inr e ↦ passes_to_sound test t last (ground (arith, ok)) (ground (arith, e, low))
]

is : ℕ → Option ℕ → Bool
is n none = false
is n (some m) = m == n

is_sound : (n : ℕ) (o : Option ℕ) → is n o ≡ true → o ≡ some n
unfolding is
is_sound n none h = ground arith
is_sound n (some m) h = ground arith

prefix_table : passes_to (λ t. (t == 0) || is t (calculate_prefix (calculate_netmask t))) 32 ≡ true
unfolding passes_to is calculate_prefix calculate_netmask
prefix_table = refl

-- For each length from 1 to 32, `calculate_prefix` ends on the mask that `calculate_netmask` makes
-- of it and gives the length back.
calculate_prefix-calculate_netmask :
    (t : ℕ) → 1 ≤ t → t ≤ 32 → calculate_prefix (calculate_netmask t) ≡ some t
calculate_prefix-calculate_netmask t low high =
    is_sound t _ (ground (arith, passes_to_sound _ t 32 prefix_table high))

mask_table : passes_to (λ t. calculate_netmask t == 4_294_967_296 - 2 ^ (33 - t)) 32 ≡ true
unfolding passes_to calculate_netmask
mask_table = refl

-- For each length up to 32, `calculate_netmask` leaves the last 33 - t bits clear, one more than a
-- mask of that length has.
pub calculate_netmask_lem : (t : ℕ) → t ≤ 32 → calculate_netmask t ≡ 4_294_967_296 - 2 ^ (33 - t)
calculate_netmask_lem t high = ground (arith, passes_to_sound _ t 32 mask_table high)
