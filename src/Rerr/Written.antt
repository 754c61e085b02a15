-- ===== src/Rerr/Written.antt =====
-- Assignments through a pointer to a route of kaodv/src/aodv_route.c, and the table after them.
use mathlib.Core.Path.{subst}
use mobile_cloud_caching.Prelude.{◌≡◌, ap, sym, ◌∙◌, inl, inr, Option, none, some, Option-cases}
use mobile_cloud_caching.Types.{Ptr, AodvRoute}
use mobile_cloud_caching.World.{World}
use mobile_cloud_caching.World.Memory.{route_at, write_route, load_route, set_route}
use mobile_cloud_caching.World.Gives.{Gives, gives}
use mobile_cloud_caching.World.Kept.{IsRoute, Kept, load_route-IsRoute, set_route-Kept}
use mobile_cloud_caching.Rerr.Ended.{
  AllEnded, Distinct, write_route-Ended, write_route-missing, Ended,
}

abbrev pub written : Ptr → (AodvRoute → AodvRoute) → World → World
written p f w = record w {
  aodv_route_table = write_route p f w.aodv_route_table;
  loose_routes = write_route p f w.loose_routes;
}

pub set_route-written :
    (p : Ptr) (f : AodvRoute → AodvRoute) (w : World)
    → IsRoute p w
    → set_route p f w ≡ some (tt, written p f w)
unfolding set_route
set_route-written p f w is = let (r, found) = load_route-IsRoute p w is in rw (found, set_route)

Kept-of : {w w' : World} → Gives {A = Unit {0}} (λ _ x. Kept w x) (some (tt, w')) → Kept w w'
Kept-of (gives k) = k

pub written-Kept :
    (p : Ptr) (f : AodvRoute → AodvRoute) (w : World)
    → ((r : AodvRoute) → (f r).addr ≡ r.addr)
    → IsRoute p w
    → Kept w (written p f w)
written-Kept p f w same is =
    Kept-of
      (subst (Gives (λ _ x. Kept w x)) (set_route-written p f w is) (set_route-Kept p f w same is))

route_of : AodvRoute → Option (AodvRoute × World) → AodvRoute
route_of d none = d
route_of d (some (r, w)) = r

-- The table after a write that ends the route at p.
pub written-AllEnded :
    (p : Ptr) (g : AodvRoute → AodvRoute) (r : AodvRoute) (w : World)
    → load_route p w ≡ some (r, w)
    → Ended r (g r)
    → Distinct w.aodv_route_table
    → AllEnded w.aodv_route_table (write_route p g w.aodv_route_table)
unfolding load_route route_of
written-AllEnded p g r w at h d = elim (Option-cases (route_at p w.aodv_route_table)) [
  | inl e ↦ write_route-missing p g w.aodv_route_table e
  | inr (s, e) ↦
      let it : s ≡ r = loaded s e in
      write_route-Ended p g w.aodv_route_table r (e ∙ ap (λ x. some x) it) h d
]
  where
    loaded : (s : AodvRoute) → route_at p w.aodv_route_table ≡ some s → s ≡ r
    loaded s e =
        let load : load_route p w ≡ some (s, w) = rw (e, load_route) in
        ap (route_of s) (sym load ∙ at)
