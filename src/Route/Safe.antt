-- ===== src/Route/Safe.antt =====
-- The runs of the commands on routes of kaodv/src/aodv_route.c and kaodv/src/kernel_route.c, and
-- the pointers that they return.
use mathlib.Core.Path.{subst}
use mobile_cloud_caching.Prelude.{
  ℕ, ◌+◌, ◌≡◌, ◌≢◌, refl, ap, sym, ◌∙◌, ◌==◌, leb, ltb, if◌then◌else◌, Bool, true, false,
  Bool-cases, inl, inr, ◌⊎◌, none, Option-cases, List, [], ◌∷◌, arith,
}
use mobile_cloud_caching.Types.{Ptr, null, AodvRoute}
use mobile_cloud_caching.Kernel.{Kernel}
use mobile_cloud_caching.World.{World, Timeval, to_millis, getcurrtime}
use mobile_cloud_caching.World.Memory.{kmalloc}
use mobile_cloud_caching.World.Gives
use mobile_cloud_caching.World.Gives.{Gives, gives}
use mobile_cloud_caching.World.Frame.{SameTables}
use mobile_cloud_caching.World.Kept.{HasAddr, IsRoute, Kept, Kept-trans, Kept-log, set_route-Kept}
use mobile_cloud_caching.KernelRoute.{insert_kernel_route_entry, create_kernel_route_entry}
use mobile_cloud_caching.Route.{
  expire, expire_aodv_route, link, blank_route, create_aodv_route, find_loop, Search,
  find_aodv_route,
}
use mobile_cloud_caching.Route.Find.{
  AllAged, find_loop-AllAged, find_loop-nil, find_loop-pass, find_loop-stop,
}

-- A pointer that is null or leads to a route.
abbrev pub IsRouteOrNull : Ptr → World → Type 0
IsRouteOrNull p w = (p ≡ null) ⊎ IsRoute p w

pub SameTables-Kept : {w w' : World} → SameTables w w' → Kept w w'
SameTables-Kept {w} {w'} s =
    Kept-log
      (s ∙ λ i. record w {
        aodv_route_table = sym (ap (λ (x : World). x.aodv_route_table) s) i;
        loose_routes = sym (ap (λ (x : World). x.loose_routes) s) i;
        readings = w'.readings;
        allocations = w'.allocations;
        requests = w'.requests;
        log = w'.log;
      })
      (ap (λ (x : World). x.aodv_route_table) s) (ap (λ (x : World). x.loose_routes) s)

pub insert_kernel_route_entry-SameTables :
    (a b c d : ℕ) (w : World)
    → Gives (λ _ w'. SameTables w w') (insert_kernel_route_entry a b c d w)
unfolding insert_kernel_route_entry
insert_kernel_route_entry-SameTables a b c d w = elim (Option-cases (w.memory w.allocations)) [
  | inl e ↦ rw (e, insert_kernel_route_entry, create_kernel_route_entry, kmalloc) (gives refl)
  | inr (j, e) ↦ rw (e, insert_kernel_route_entry, create_kernel_route_entry, kmalloc) (gives refl)
]

pub expire_aodv_route-Kept :
    (p : Ptr) (w : World) → IsRoute p w → Gives (λ _ w'. Kept w w') (expire_aodv_route p w)
unfolding expire_aodv_route getcurrtime expire
expire_aodv_route-Kept p w h =
    Gives.weaken (set_route-Kept p _ _ (λ r. refl) h)
      λ _ w' kept. Kept-trans (record { same = refl; alive = λ q h. h }) kept

HasAddr-link :
    (p : Ptr) (n : AodvRoute) (rs : List AodvRoute)
    → (n.addr ≡ p) ⊎ HasAddr p rs
    → HasAddr p (link n rs)
unfolding link
HasAddr-link p n [] h = h
HasAddr-link p n (r ∷ rs) h = elim (Bool-cases (ltb r.ip n.ip)) [
  | inr e ↦ rw e h
  | inl e ↦ rw e (elim h [
    | inl new ↦ inr (HasAddr-link p n rs (inl new))
    | inr old ↦ elim old [ inl here ↦ inl here | inr there ↦ inr (HasAddr-link p n rs (inr there)) ]
  ])
]

-- With memory a new route is made, and its address returned.
pub create_aodv_route-Kept :
    (ip : ℕ) (w : World)
    → w.memory w.allocations ≢ none
    → Gives (λ p w'. Kept w w' × IsRoute p w' × (p ≢ null)) (create_aodv_route ip w)
unfolding create_aodv_route blank_route
create_aodv_route-Kept ip w m = elim (Option-cases (w.memory w.allocations)) [
  | inl e ↦ absurd (m e)
  | inr (j, e) ↦ elim (Bool-cases (ip == 0)) [
    | inl z ↦
        rw (e, create_aodv_route, kmalloc)
          (rw z (
            gives (
              record { same = refl; alive = λ q. elim [ inl h ↦ inl h | inr h ↦ inr (inr h) ] },
              inr (inl refl),
              λ h. absurd (omega arith),
            )))
    | inr z ↦
        rw (e, create_aodv_route, kmalloc)
          (rw z (
            gives (
              record {
                same = refl;
                alive = λ q. elim [
                  | inl h ↦ inl (HasAddr-link q _ w.aodv_route_table (inr h))
                  | inr h ↦ inr h
                ];
              },
              inl (HasAddr-link _ _ w.aodv_route_table (inl refl)),
              λ h. absurd (omega arith),
            )))
  ]
]

module _ ⦃k : Kernel⦄ where
  HasAddr-AllAged :
      (p : Ptr) (now : ℕ) (rs ss : List AodvRoute) → AllAged now rs ss → HasAddr p rs → HasAddr p ss
  unfolding expire
  HasAddr-AllAged p now [] [] a h = h
  HasAddr-AllAged p now [] (s ∷ ss) a h = absurd a
  HasAddr-AllAged p now (r ∷ rs) [] a h = absurd a
  HasAddr-AllAged p now (r ∷ rs) (s ∷ ss) a h = elim a.0 [
    | inl e ↦ elim h [
      | inl here ↦ inl (ap (λ (x : AodvRoute). x.addr) e ∙ here)
      | inr there ↦ inr (HasAddr-AllAged p now rs ss a.1 there)
    ]
    | inr d ↦ elim h [
      | inl here ↦ inl (ap (λ (x : AodvRoute). x.addr) d.2.1 ∙ here)
      | inr there ↦ inr (HasAddr-AllAged p now rs ss a.1 there)
    ]
  ]

  -- A pointer that is one of two, or leads into the rest of the list.
  step :
      (q p : Ptr) (b : Bool) (r : AodvRoute) (rs : List AodvRoute)
      → (q ≡ (if b then r.addr else p)) ⊎ HasAddr q rs
      → (q ≡ p) ⊎ HasAddr q (r ∷ rs)
  step q p b r rs (inr h) = inr (inr h)
  step q p true r rs (inl e) = inr (inl (sym e))
  step q p false r rs (inl e) = inl e

  abbrev FromList : Ptr → List AodvRoute → Search → Type 0
  FromList p rs s = (s.possible_route ≡ p) ⊎ HasAddr s.possible_route rs

  find_loop-FromList :
      (clock : ℕ → Timeval) (t now : ℕ) (rs : List AodvRoute) (p : Ptr) (n : ℕ)
      → FromList p rs (find_loop clock t now p n rs)
  find_loop-FromList clock t now [] p n = inl (find_loop-nil clock t now p n)
  find_loop-FromList clock t now (r ∷ rs) p n = elim (Bool-cases (leb r.ip t)) [
    | inl e ↦
        subst (FromList p (r ∷ rs)) (sym (find_loop-pass clock t now r rs p n e))
          (step _ p _ r rs (find_loop-FromList clock t now rs _ _))
    | inr e ↦ subst (FromList p (r ∷ rs)) (sym (find_loop-stop clock t now r rs p n e)) (inl refl)
  ]

  pub find_aodv_route-Kept :
      (t : ℕ) (w : World) → Gives (λ p w'. Kept w w' × IsRouteOrNull p w') (find_aodv_route t w)
  unfolding find_aodv_route getcurrtime
  find_aodv_route-Kept t w =
      let now = to_millis (w.clock w.readings) in
      let n = w.readings + 1 in
      let aged = find_loop-AllAged w.clock t now w.aodv_route_table null n in
      gives (
        record {
          same = refl;
          alive = λ q. elim [
            | inl h ↦ inl (HasAddr-AllAged q now w.aodv_route_table _ aged h)
            | inr h ↦ inr h
          ];
        },
        elim (find_loop-FromList w.clock t now w.aodv_route_table null n) [
          | inl e ↦ inl e
          | inr h ↦ inr (inl (HasAddr-AllAged _ now w.aodv_route_table _ aged h))
        ],
      )
