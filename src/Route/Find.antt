-- ===== src/Route/Find.antt =====
-- `find_aodv_route` of kaodv/src/aodv_route.c against the table as a whole: which route it picks,
-- and what the walk does to the routes that it passes.
use mobile_cloud_caching.Prelude.{
  ℕ, ◌+◌, ◌≤◌, ◌<◌, ◌≡◌, refl, sym, leb, if◌then◌else◌, true, false, Bool-cases, inl, inr, ◌⊎◌,
  ◌&&◌, List, [], ◌∷◌, All, arith,
}
use mobile_cloud_caching.Types.{Ptr, null, AodvRoute}
use mobile_cloud_caching.Kernel.{Kernel}
use mobile_cloud_caching.World.{World, Timeval, to_millis}
use mobile_cloud_caching.World.Gives.{Gives, gives}
use mobile_cloud_caching.Route.{
  compare_aodv_route, expire, due, put_first, find_loop, find_aodv_route,
}
use mobile_cloud_caching.Route.Order.{IsSorted}

-- The last route of the whole table that lies at or before the address and fits it under its mask.
unfoldable pub last_match : ℕ → List AodvRoute → Ptr → Ptr
last_match t [] p = p
last_match t (r ∷ rs) p =
    last_match t rs (if leb r.ip t && compare_aodv_route r t then r.addr else p)

-- What the walk may do to a route: nothing, or, to a valid one that is past its lifetime and is no
-- route of the node's own, the assignments of `expire_aodv_route` at some time.
abbrev pub Aged : ⦃k : Kernel⦄ → ℕ → AodvRoute → AodvRoute → Type 0
Aged now r s =
    (s ≡ r) ⊎ ((due now r ≡ true) × (r.route_valid ≡ true) × ((at : ℕ) × (s ≡ expire at r)))

abbrev pub AllAged : ⦃k : Kernel⦄ → ℕ → List AodvRoute → List AodvRoute → Type 0
AllAged now [] [] = Unit
AllAged now (r ∷ rs) (s ∷ ss) = Aged now r s × AllAged now rs ss
AllAged now _ _ = ⊥

beyond :
    (t b : ℕ) (rs : List AodvRoute) (p : Ptr)
    → t < b
    → All (λ (s : AodvRoute). b ≤ s.ip) rs
    → last_match t rs p ≡ p
unfolding last_match
beyond t b [] p lt h = refl
beyond t b (r ∷ rs) p lt h =
    let over : leb r.ip t ≡ false = ground arith in rw over (beyond t b rs p lt h.1)

compare-expire :
    (now : ℕ) (r : AodvRoute) (t : ℕ) → compare_aodv_route (expire now r) t ≡ compare_aodv_route r t
unfolding compare_aodv_route expire
compare-expire now r t = refl

module _ ⦃k : Kernel⦄ where
  AllAged-refl : (now : ℕ) (rs : List AodvRoute) → AllAged now rs rs
  AllAged-refl now [] = tt
  AllAged-refl now (r ∷ rs) = (inl refl, AllAged-refl now rs)

  walked :
      (now : ℕ) (r : AodvRoute) (at : ℕ)
      → Aged now r (if due now r && r.route_valid then expire at r else r)
  walked now r at = elim (Bool-cases (due now r && r.route_valid)) [
    | inl x ↦ rw x (inr (ground arith, ground arith, (at, refl)))
    | inr x ↦ rw x (inl refl)
  ]

  module _ (clock : ℕ → Timeval) (t now : ℕ) where
    pub find_loop-nil : (p : Ptr) (n : ℕ) → (find_loop clock t now p n []).possible_route ≡ p
    unfolding find_loop
    find_loop-nil p n = refl

    module _ (r : AodvRoute) (rs : List AodvRoute) (p : Ptr) (n : ℕ) where
      abbrev pub passed : AodvRoute
      passed = if due now r && r.route_valid then expire (to_millis (clock n)) r else r

      -- The walk goes on over a route that does not lie beyond the address.
      pub find_loop-pass :
          leb r.ip t ≡ true
          → find_loop clock t now p n (r ∷ rs)
            ≡ put_first passed (
                find_loop clock t now
                  (if compare_aodv_route passed t then r.addr else p)
                  (if due now r && r.route_valid then n + 1 else n)
                  rs)
      unfolding find_loop
      find_loop-pass e = rw e

      pub find_loop-stop :
          leb r.ip t ≡ false
          → find_loop clock t now p n (r ∷ rs)
            ≡ record { possible_route = p; table = r ∷ rs; readings = n }
      unfolding find_loop
      find_loop-stop e = rw e

    find_loop-last_match :
        (rs : List AodvRoute) (p : Ptr) (n : ℕ)
        → IsSorted rs
        → (find_loop clock t now p n rs).possible_route ≡ last_match t rs p
    unfolding find_loop last_match
    find_loop-last_match [] p n s = refl
    find_loop-last_match (r ∷ rs) p n s = elim (Bool-cases (leb r.ip t)) [
      | inl e ↦ rw e (elim (Bool-cases (due now r && r.route_valid)) [
        | inl x ↦ rw x (find_loop-last_match rs _ _ s.1)
        | inr x ↦ rw x (find_loop-last_match rs _ _ s.1)
      ])
      | inr e ↦ rw e (sym (beyond t r.ip rs p (ground arith) s.0))
    ]

    pub find_loop-AllAged :
        (rs : List AodvRoute) (p : Ptr) (n : ℕ)
        → AllAged now rs (find_loop clock t now p n rs).table
    unfolding find_loop
    find_loop-AllAged [] p n = tt
    find_loop-AllAged (r ∷ rs) p n = elim (Bool-cases (leb r.ip t)) [
      | inl e ↦ rw e (walked now r (to_millis (clock n)), find_loop-AllAged rs _ _)
      | inr e ↦ rw e (AllAged-refl now (r ∷ rs))
    ]

  -- What a search leaves behind: the pointer to the last route that fits, and the same table with
  -- some of its expired routes marked as such; the other state is as it was but for the readings.
  pub record Found (t : ℕ) (w : World) (p : Ptr) (w' : World) : Type 0 where
    pub which : p ≡ last_match t w.aodv_route_table null
    pub aged : AllAged (to_millis (w.clock w.readings)) w.aodv_route_table w'.aodv_route_table
    pub rest : w' ≡ record w { aodv_route_table = w'.aodv_route_table; readings = w'.readings }

  -- On a sorted table `find_aodv_route` meets no oops and returns the last route, up to the target
  -- in the order, whose subnet holds the target, or null; it does nothing to a route except expire
  -- a valid one that is past its lifetime and not the node's own; and only the table and the
  -- readings differ.
  pub find_aodv_route-Found :
      (t : ℕ) (w : World) → IsSorted w.aodv_route_table → Gives (Found t w) (find_aodv_route t w)
  unfolding find_aodv_route
  find_aodv_route-Found t w s = gives (record {
    which = find_loop-last_match w.clock t _ w.aodv_route_table null _ s;
    aged = find_loop-AllAged w.clock t _ w.aodv_route_table null _;
    rest = refl;
  })
