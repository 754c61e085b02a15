-- ===== src/World/Points.antt =====
-- What a pointer to a route points at, through reads and writes.
use mathlib.Core.Path.{subst}
use mobile_cloud_caching.Prelude.{
  ◌≡◌, refl, ap, sym, ◌∙◌, ◌==◌, true, false, Bool-cases, inl, inr, ◌⊎◌, Option, none, some, List,
  [], ◌∷◌, arith,
}
use mobile_cloud_caching.Types.{Ptr, AodvRoute}
use mobile_cloud_caching.World.{World}
use mobile_cloud_caching.World.Memory.{route_at, write_route, load_route, set_route}
use mobile_cloud_caching.World.Gives.{Gives, gives}
use mobile_cloud_caching.World.Frame.{SameTables}

-- The route at p is r, in the table or unlinked.
abbrev pub PointsTo : Ptr → AodvRoute → World → Type 0
PointsTo p r w =
    (route_at p w.aodv_route_table ≡ some r)
    ⊎ ((route_at p w.aodv_route_table ≡ none) × (route_at p w.loose_routes ≡ some r))

pub PointsTo-SameTables :
    (p : Ptr) (r : AodvRoute) (w w' : World) → SameTables w w' → PointsTo p r w → PointsTo p r w'
PointsTo-SameTables p r w w' s h = subst (PointsTo p r) (sym s) h

pub load_route-PointsTo :
    (p : Ptr) (r : AodvRoute) (w : World) → PointsTo p r w → load_route p w ≡ some (r, w)
unfolding load_route
load_route-PointsTo p r w h = elim h [
  | inl e ↦ rw (e, load_route)
  | inr e ↦ rw (e.0, e.1, load_route)
]

map_some : (AodvRoute → AodvRoute) → Option AodvRoute → Option AodvRoute
map_some f none = none
map_some f (some r) = some (f r)

pub some-head :
    (p : Ptr) (s : AodvRoute) (rs : List AodvRoute) (o : Option AodvRoute)
    → (s.addr == p) ≡ true
    → route_at p (s ∷ rs) ≡ o
    → some s ≡ o
some-head p s rs o e h = sym (rw (e, route_at)) ∙ h

pub some-tail :
    (p : Ptr) (s : AodvRoute) (rs : List AodvRoute) (o : Option AodvRoute)
    → (s.addr == p) ≡ false
    → route_at p (s ∷ rs) ≡ o
    → route_at p rs ≡ o
some-tail p s rs o e h = sym (rw (e, route_at)) ∙ h

module _ (p : Ptr) (f : AodvRoute → AodvRoute) (same : (r : AodvRoute) → (f r).addr ≡ r.addr) where
  route_at-write_some :
      (rs : List AodvRoute) (r : AodvRoute)
      → route_at p rs ≡ some r
      → route_at p (write_route p f rs) ≡ some (f r)
  unfolding map_some
  route_at-write_some [] r h = absurd (ground arith)
  route_at-write_some (s ∷ rs) r h = elim (Bool-cases (s.addr == p)) [
    | inl e ↦
        let kept : ((f s).addr == p) ≡ true = rw (same s) e in
        let found = some-head p s rs (some r) e h in
        rw (e, write_route) (rw (kept, route_at) (ap (map_some f) found))
    | inr e ↦
        let found = some-tail p s rs (some r) e h in
        rw (e, write_route) (rw (e, route_at) (route_at-write_some rs r found))
  ]

  route_at-write_none :
      (rs : List AodvRoute) → route_at p rs ≡ none → route_at p (write_route p f rs) ≡ none
  route_at-write_none [] h = refl
  route_at-write_none (s ∷ rs) h = elim (Bool-cases (s.addr == p)) [
    | inl e ↦ let found = some-head p s rs none e h in absurd (ground arith)
    | inr e ↦
        let missing = some-tail p s rs none e h in
        rw (e, write_route) (rw (e, route_at) (route_at-write_none rs missing))
  ]

  -- After assignments through a pointer it points at the new value.
  pub set_route-PointsTo :
      (r : AodvRoute) (w : World)
      → PointsTo p r w
      → Gives (λ _ w'. PointsTo p (f r) w') (set_route p f w)
  unfolding set_route
  set_route-PointsTo r w h =
      rw (load_route-PointsTo p r w h, set_route)
        (gives (elim h [
          | inl e ↦ inl (route_at-write_some w.aodv_route_table r e)
          | inr e ↦
              inr (
                route_at-write_none w.aodv_route_table e.0,
                route_at-write_some w.loose_routes r e.1,
              )
        ]))
