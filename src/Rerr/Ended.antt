-- ===== src/Rerr/Ended.antt =====
-- Routing tables of kaodv/src/aodv_route.c before and after routes are ended in them.
use mathlib.Core.Path.{subst}
use mobile_cloud_caching.Prelude.{
  ℕ, ◌≡◌, ◌≢◌, refl, ap, sym, ◌∙◌, ◌==◌, true, false, Bool-cases, inl, inr, ◌⊎◌, none, some, List,
  [], ◌∷◌, All, arith,
}
use mobile_cloud_caching.Types.{Ptr, AodvRoute}
use mobile_cloud_caching.Kernel.{Kernel}
use mobile_cloud_caching.World.Memory.{route_at, write_route}
use mobile_cloud_caching.World.Points.{some-head, some-tail}
use mobile_cloud_caching.Route.{expire}
use mobile_cloud_caching.Route.Find.{AllAged}

abbrev pub SameWay : AodvRoute → AodvRoute → Type 0
SameWay r s =
    (s.addr ≡ r.addr) × (s.ip ≡ r.ip) × (s.next_hop ≡ r.next_hop) × (s.self_route ≡ r.self_route)

-- The route is as it was, or it is not the node's own, goes the same way, and is invalid now.
abbrev pub Ended : AodvRoute → AodvRoute → Type 0
Ended r s = (s ≡ r) ⊎ ((r.self_route ≡ false) × SameWay r s × (s.route_valid ≡ false))

abbrev pub AllEnded : List AodvRoute → List AodvRoute → Type 0
AllEnded [] [] = Unit
AllEnded (r ∷ rs) (s ∷ ss) = Ended r s × AllEnded rs ss
AllEnded _ _ = ⊥

-- No two routes lie at one address.
abbrev pub Distinct : List AodvRoute → Type 0
Distinct [] = Unit
Distinct (r ∷ rs) = All (λ (s : AodvRoute). r.addr ≢ s.addr) rs × Distinct rs

pub AllEnded-refl : (rs : List AodvRoute) → AllEnded rs rs
AllEnded-refl [] = tt
AllEnded-refl (r ∷ rs) = (inl refl, AllEnded-refl rs)

Ended-trans : (r s t : AodvRoute) → Ended r s → Ended s t → Ended r t
Ended-trans r s t (inl e) h = subst (λ x. Ended x t) e h
Ended-trans r s t (inr g) (inl e) = subst (Ended r) (sym e) (inr g)
Ended-trans r s t (inr g) (inr h) =
    inr (g.0, (h.1.0 ∙ g.1.0, h.1.1 ∙ g.1.1, h.1.2 ∙ g.1.2, h.1.3 ∙ g.1.3), h.2)

pub AllEnded-trans : (rs ss ts : List AodvRoute) → AllEnded rs ss → AllEnded ss ts → AllEnded rs ts
AllEnded-trans [] [] [] g h = tt
AllEnded-trans [] [] (t ∷ ts) g h = absurd h
AllEnded-trans [] (s ∷ ss) ts g h = absurd g
AllEnded-trans (r ∷ rs) [] ts g h = absurd g
AllEnded-trans (r ∷ rs) (s ∷ ss) [] g h = absurd h
AllEnded-trans (r ∷ rs) (s ∷ ss) (t ∷ ts) g h =
    (Ended-trans r s t g.0 h.0, AllEnded-trans rs ss ts g.1 h.1)

Ended-addr : (r s : AodvRoute) → Ended r s → s.addr ≡ r.addr
Ended-addr r s (inl e) = ap (λ (x : AodvRoute). x.addr) e
Ended-addr r s (inr g) = g.1.0

away :
    (p q : Ptr) (rs ss : List AodvRoute)
    → q ≡ p
    → AllEnded rs ss
    → All (λ (s : AodvRoute). p ≢ s.addr) rs
    → All (λ (s : AodvRoute). q ≢ s.addr) ss
away p q [] [] e g a = tt
away p q [] (s ∷ ss) e g a = absurd g
away p q (r ∷ rs) [] e g a = absurd g
away p q (r ∷ rs) (s ∷ ss) e g a =
    (λ f. a.0 (sym e ∙ f ∙ Ended-addr r s g.0), away p q rs ss e g.1 a.1)

pub Distinct-AllEnded : (rs ss : List AodvRoute) → AllEnded rs ss → Distinct rs → Distinct ss
Distinct-AllEnded [] [] g d = tt
Distinct-AllEnded [] (s ∷ ss) g d = absurd g
Distinct-AllEnded (r ∷ rs) [] g d = absurd g
Distinct-AllEnded (r ∷ rs) (s ∷ ss) g d =
    (away r.addr s.addr rs ss (Ended-addr r s g.0) g.1 d.0, Distinct-AllEnded rs ss g.1 d.1)

module _ (p : Ptr) (f : AodvRoute → AodvRoute) where
  write-away :
      (rs : List AodvRoute)
      → All (λ (s : AodvRoute). p ≢ s.addr) rs
      → AllEnded rs (write_route p f rs)
  write-away [] a = tt
  write-away (s ∷ rs) a =
      let other : (s.addr == p) ≡ false = ground (arith, a.0) in
      rw (other, write_route) (inl refl, write-away rs a.1)

  -- A write that ends the route that it reaches.
  pub write_route-Ended :
      (rs : List AodvRoute) (r : AodvRoute)
      → route_at p rs ≡ some r
      → Ended r (f r)
      → Distinct rs
      → AllEnded rs (write_route p f rs)
  write_route-Ended [] r at h d = tt
  write_route-Ended (s ∷ rs) r at h d = elim (Bool-cases (s.addr == p)) [
    | inl e ↦
        let its_addr : s.addr ≡ p = ground (arith, e) in
        let it : s ≡ r = ground (arith, some-head p s rs (some r) e at) in
        rw (e, write_route)
          (
            subst (λ x. Ended x (f x)) (sym it) h,
            write-away rs (subst (λ x. All (λ (t : AodvRoute). x ≢ t.addr) rs) its_addr d.0),
          )
    | inr e ↦
        rw (e, write_route)
          (inl refl, write_route-Ended rs r (some-tail p s rs (some r) e at) h d.1)
  ]

  pub write_route-missing :
      (rs : List AodvRoute) → route_at p rs ≡ none → AllEnded rs (write_route p f rs)
  write_route-missing [] at = tt
  write_route-missing (s ∷ rs) at = elim (Bool-cases (s.addr == p)) [
    | inl e ↦ absurd (ground (arith, some-head p s rs none e at))
    | inr e ↦ rw (e, write_route) (inl refl, write_route-missing rs (some-tail p s rs none e at))
  ]

pub write_route-write_route :
    (p : Ptr) (f g : AodvRoute → AodvRoute) (rs : List AodvRoute)
    → ((r : AodvRoute) → (f r).addr ≡ r.addr)
    → write_route p g (write_route p f rs) ≡ write_route p (λ r. g (f r)) rs
write_route-write_route p f g [] same = refl
write_route-write_route p f g (s ∷ rs) same = elim (Bool-cases (s.addr == p)) [
  | inl e ↦
      let e' : ((f s).addr == p) ≡ true = rw (same s) e in
      let ih = write_route-write_route p f g rs same in
      rw (e, write_route) (rw (e', write_route) (ap (◌∷◌ (g (f s))) ih))
  | inr e ↦
      let ih = write_route-write_route p f g rs same in
      rw (e, write_route) (rw (e, write_route) (ap (◌∷◌ s) ih))
]

pub AllAged-AllEnded :
    ⦃k : Kernel⦄ (now : ℕ) (rs ss : List AodvRoute) → AllAged now rs ss → AllEnded rs ss
unfolding expire
AllAged-AllEnded now [] [] a = tt
AllAged-AllEnded now [] (s ∷ ss) a = absurd a
AllAged-AllEnded now (r ∷ rs) [] a = absurd a
AllAged-AllEnded now (r ∷ rs) (s ∷ ss) a = elim a.0 [
  | inl e ↦ (inl e, AllAged-AllEnded now rs ss a.1)
  | inr d ↦ (
    subst (Ended r) (sym d.2.1) (inr (ground (arith, d.0), (refl, refl, refl, refl), refl)),
    AllAged-AllEnded now rs ss a.1,
  )
]
