-- ===== src/World/Kept.antt =====
-- Routes that pointers lead to, and worlds that differ in the routes and the log.
use mobile_cloud_caching.Prelude.{
  ◌≡◌, refl, ap, ◌∙◌, ◌==◌, Bool-cases, inl, inr, ◌⊎◌, some, Option-cases, List, [], ◌∷◌, arith,
}
use mobile_cloud_caching.Types.{Ptr, AodvRoute}
use mobile_cloud_caching.World.{World}
use mobile_cloud_caching.World.Memory.{route_at, write_route, load_route, set_route}
use mobile_cloud_caching.World.Gives.{Gives, gives}

-- A route of the list lies at the address.
abbrev pub HasAddr : Ptr → List AodvRoute → Type 0
HasAddr p [] = ⊥
HasAddr p (r ∷ rs) = (r.addr ≡ p) ⊎ HasAddr p rs

-- The address leads to a route, linked or not.
abbrev pub IsRoute : Ptr → World → Type 0
IsRoute p w = HasAddr p w.aodv_route_table ⊎ HasAddr p w.loose_routes

abbrev pub SameQueues : World → World → Type 0
SameQueues w w' = w' ≡ record w {
  aodv_route_table = w'.aodv_route_table;
  loose_routes = w'.loose_routes;
  readings = w'.readings;
  allocations = w'.allocations;
  requests = w'.requests;
  log = w'.log;
}

pub record Kept (w w' : World) : Type 0 where
  pub same : SameQueues w w'
  pub alive : (p : Ptr) → IsRoute p w → IsRoute p w'

pub Kept-refl : (w : World) → Kept w w
Kept-refl w = record { same = refl; alive = λ p h. h }

pub Kept-trans : {u v w : World} → Kept u v → Kept v w → Kept u w
Kept-trans {u} {v} {w} p q = record {
  same =
      q.same
      ∙ ap {A = World} {B = World}
          (λ x. record x {
            aodv_route_table = w.aodv_route_table;
            loose_routes = w.loose_routes;
            readings = w.readings;
            allocations = w.allocations;
            requests = w.requests;
            log = w.log;
          })
          p.same;
  alive = λ a h. q.alive a (p.alive a h);
}

route_at-HasAddr :
    (p : Ptr) (rs : List AodvRoute) → HasAddr p rs → (r : AodvRoute) × (route_at p rs ≡ some r)
route_at-HasAddr p [] h = absurd h
route_at-HasAddr p (r ∷ rs) h = elim (Bool-cases (r.addr == p)) [
  | inl e ↦ (r, rw (e, route_at))
  | inr e ↦ elim h [
    | inl here ↦ absurd (ground arith)
    | inr there ↦ let (s, found) = route_at-HasAddr p rs there in (s, rw (e, route_at) found)
  ]
]

-- A read through a pointer to a route succeeds and changes nothing.
pub load_route-IsRoute :
    (p : Ptr) (w : World) → IsRoute p w → (r : AodvRoute) × (load_route p w ≡ some (r, w))
unfolding load_route
load_route-IsRoute p w h = elim (Option-cases (route_at p w.aodv_route_table)) [
  | inr (s, found) ↦ (s, rw (found, load_route))
  | inl missing ↦ elim h [
    | inl t ↦ let (s, e) = route_at-HasAddr p w.aodv_route_table t in absurd (ground arith)
    | inr l ↦
        let (s, found) = route_at-HasAddr p w.loose_routes l in (s, rw (missing, found, load_route))
  ]
]

pub HasAddr-write_route :
    (p q : Ptr) (f : AodvRoute → AodvRoute) (rs : List AodvRoute)
    → ((r : AodvRoute) → (f r).addr ≡ r.addr)
    → HasAddr p rs
    → HasAddr p (write_route q f rs)
HasAddr-write_route p q f [] same h = h
HasAddr-write_route p q f (r ∷ rs) same h = elim h [
  | inl here ↦ elim (Bool-cases (r.addr == q)) [
    | inl e ↦ rw (e, write_route) (inl (same r ∙ here))
    | inr e ↦ rw (e, write_route) (inl here)
  ]
  | inr there ↦ inr (HasAddr-write_route p q f rs same there)
]

-- A write to fields of a route that leaves its address alone.
pub set_route-Kept :
    (p : Ptr) (f : AodvRoute → AodvRoute) (w : World)
    → ((r : AodvRoute) → (f r).addr ≡ r.addr)
    → IsRoute p w
    → Gives (λ _ w'. Kept w w') (set_route p f w)
unfolding set_route
set_route-Kept p f w same h =
    let (r, found) = load_route-IsRoute p w h in
    rw (found, set_route)
      (gives (record {
        same = refl;
        alive = λ q. elim [
          | inl t ↦ inl (HasAddr-write_route q p f w.aodv_route_table same t)
          | inr l ↦ inr (HasAddr-write_route q p f w.loose_routes same l)
        ];
      }))

-- The state of the routes is untouched.
pub Kept-log :
    {w w' : World}
    → SameQueues w w'
    → w'.aodv_route_table ≡ w.aodv_route_table
    → w'.loose_routes ≡ w.loose_routes
    → Kept w w'
Kept-log {w} {w'} s t l = record {
  same = s;
  alive = λ q. elim [ inl h ↦ inl (rw t h) | inr h ↦ inr (rw l h) ];
}
