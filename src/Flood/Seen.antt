-- ===== src/Flood/Seen.antt =====
-- Which floods a node recognises, and which it forgets: `find_flood_id` and `flush_flood_id_queue`
-- of kaodv/src/flood_id.c.
use mobile_cloud_caching.Prelude.{
  ℕ, ◌+◌, ◌≤◌, ◌<◌, ◌≡◌, refl, sym, ap, ◌∙◌, ltb, leb, ◌==◌, if◌then◌else◌, Bool, false, ◌&&◌,
  Bool-cases, inl, inr, Option, none, some, List, [], ◌∷◌, All, keep, keep-pass, keep-skip, length,
  arith,
}
use mobile_cloud_caching.Types.{FloodId}
use mobile_cloud_caching.Kernel.{Kernel, time_before}
use mobile_cloud_caching.Flood.{find_flood_walk, flush_flood_walk}

-- Lifetimes do not rise along the queue.
abbrev pub IsSorted : List FloodId → Type 0
IsSorted [] = Unit
IsSorted (f ∷ fs) = All (λ (g : FloodId). g.lifetime ≤ f.lifetime) fs × IsSorted fs

abbrev pub InWindow : ℕ → FloodId → Type 0
InWindow base f = (base ≤ f.lifetime) × (f.lifetime < base + 2_147_483_648)

-- The first entry of a flood, whatever its lifetime.
unfoldable pub first_entry : ℕ → ℕ → List FloodId → Option FloodId
first_entry src_ip id [] = none
first_entry src_ip id (f ∷ fs) =
    if (src_ip == f.src_ip) && (id == f.id) then some f else first_entry src_ip id fs

abbrev pub is_alive : ℕ → FloodId → Bool
is_alive now f = leb now f.lifetime

All-dead :
    (now : ℕ) (f : FloodId) (fs : List FloodId)
    → f.lifetime < now
    → All (λ (g : FloodId). g.lifetime ≤ f.lifetime) fs
    → keep (is_alive now) fs ≡ []
All-dead now f [] h a = refl
All-dead now f (g ∷ fs) h a = keep-skip (is_alive now) g fs (ground arith) ∙ All-dead now f fs h a.1

module _ ⦃k : Kernel⦄ where
  expired-ltb :
      (base now : ℕ) (f : FloodId)
      → base ≤ now
      → now < base + 2_147_483_648
      → InWindow base f
      → time_before f.lifetime now ≡ ltb f.lifetime now
  expired-ltb base now f lo hi w = k.time_after_window now f.lifetime (omega arith) (omega arith)

  module _ (src_ip id base now : ℕ) (lo : base ≤ now) (hi : now < base + 2_147_483_648) where
    -- If the lifetimes do not rise along the queue and they and the clock lie in one window of half
    -- the range, then `find_flood_id`, which ends its search at the first entry that has expired,
    -- finds the first entry of the flood among all that have not expired.
    pub find_flood_walk-first_entry :
        (fs : List FloodId)
        → All (InWindow base) fs
        → IsSorted fs
        → find_flood_walk src_ip id now fs ≡ first_entry src_ip id (keep (is_alive now) fs)
    unfolding find_flood_walk first_entry
    find_flood_walk-first_entry [] a s = refl
    find_flood_walk-first_entry (f ∷ fs) a s =
        let test = expired-ltb base now f lo hi a.0 in
        elim (Bool-cases (ltb f.lifetime now)) [
          | inl e ↦
              rw (test, e)
                (ap (first_entry src_ip id) (
                  sym (
                    keep-skip (is_alive now) f fs (ground arith)
                    ∙ All-dead now f fs (ground arith) s.0)))
          | inr e ↦
              rw (test, e)
                (ap (λ rest. if (src_ip == f.src_ip) && (id == f.id) then some f else rest)
                    (find_flood_walk-first_entry fs a.1 s.1)
                  ∙ ap (first_entry src_ip id) (sym (keep-pass (is_alive now) f fs (ground arith))))
        ]

    -- If the lifetimes and the clock lie in one window of half the range, `flush_flood_id_queue`
    -- keeps exactly the entries that have not expired, in order, and the count that it returns is
    -- that of the others.
    flush_flood_walk-keep :
        (fs : List FloodId)
        → All (InWindow base) fs
        → ((flush_flood_walk now fs).0 ≡ keep (is_alive now) fs)
          × ((flush_flood_walk now fs).1 + length (keep (is_alive now) fs) ≡ length fs)
    unfolding flush_flood_walk
    flush_flood_walk-keep [] a = (refl, omega arith)
    flush_flood_walk-keep (f ∷ fs) a =
        let test = expired-ltb base now f lo hi a.0 in
        let ih = flush_flood_walk-keep fs a.1 in
        elim (Bool-cases (ltb f.lifetime now)) [
          | inl e ↦
              let skip = keep-skip (is_alive now) f fs (ground arith) in
              rw (test, e) (ih.0 ∙ sym skip, omega (arith, ap length skip, ih.1))
          | inr e ↦
              let pass = keep-pass (is_alive now) f fs (ground arith) in
              rw (test, e) (ap (◌∷◌ f) ih.0 ∙ sym pass, omega (arith, ap length pass, ih.1))
        ]

  -- An entry that has not expired, at the front, is found by its flood.
  pub find_flood_walk-front :
      (now : ℕ) (f : FloodId) (fs : List FloodId)
      → time_before f.lifetime now ≡ false
      → find_flood_walk f.src_ip f.id now (f ∷ fs) ≡ some f
  unfolding find_flood_walk
  find_flood_walk-front now f fs e = ground arith
