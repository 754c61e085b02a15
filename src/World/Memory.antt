-- ===== src/World/Memory.antt =====
-- `kmalloc`, and the routes and neighbours that pointers lead to.
use mobile_cloud_caching.Prelude.{
  ◌<◌, arith, ◌≡◌, ◌≢◌, Option-cases, inl, inr, ℕ, ◌+◌, ◌==◌, if◌then◌else◌, Option, none, some,
  List, [], ◌∷◌,
}
use mobile_cloud_caching.Types.{Ptr, AodvRoute, AodvNeigh}
use mobile_cloud_caching.World.{World, Cmd}

-- A block that `kmalloc` gave out: its address, never null, and what its words read as.
pub record Block : Type 0 where
  pub addr : Ptr
  pub junk : ℕ

abbrev pub spend : World → World
spend w = record w { allocations = w.allocations + 1 }

unfoldable pub kmalloc : Cmd (Option Block)
kmalloc w = elim (w.memory w.allocations) [
  | none ↦ some (none, spend w)
  | some junk ↦ some (some (record { addr = w.allocations + 1; junk = junk }), spend w)
]

-- The route at an address.
abbrev pub route_at : Ptr → List AodvRoute → Option AodvRoute
route_at p [] = none
route_at p (r ∷ rs) = if r.addr == p then some r else route_at p rs

-- A write through a pointer to a route.
abbrev pub write_route : Ptr → (AodvRoute → AodvRoute) → List AodvRoute → List AodvRoute
write_route p f [] = []
write_route p f (r ∷ rs) = (if r.addr == p then f r else r) ∷ write_route p f rs

abbrev pub neigh_at : Ptr → List AodvNeigh → Option AodvNeigh
neigh_at p [] = none
neigh_at p (n ∷ ns) = if n.addr == p then some n else neigh_at p ns

abbrev pub write_neigh : Ptr → (AodvNeigh → AodvNeigh) → List AodvNeigh → List AodvNeigh
write_neigh p f [] = []
write_neigh p f (n ∷ ns) = (if n.addr == p then f n else n) ∷ write_neigh p f ns

-- `*p` for a route, linked or not.
unfoldable pub load_route : Ptr → Cmd AodvRoute
load_route p w = elim (route_at p w.aodv_route_table) [
  | some r ↦ some (r, w)
  | none ↦ elim (route_at p w.loose_routes) [ some r ↦ some (r, w) | none ↦ none ]
]

-- Assignments to fields of `*p`.
unfoldable pub set_route : Ptr → (AodvRoute → AodvRoute) → Cmd (Unit {0})
set_route p f w = elim (load_route p w) [
  | none ↦ none
  | some _ ↦ some (
    tt,
    record w {
      aodv_route_table = write_route p f w.aodv_route_table;
      loose_routes = write_route p f w.loose_routes;
    },
  )
]

unfoldable pub load_neigh : Ptr → Cmd AodvNeigh
load_neigh p w = elim (neigh_at p w.aodv_neigh_list) [ some n ↦ some (n, w) | none ↦ none ]

unfoldable pub set_neigh : Ptr → (AodvNeigh → AodvNeigh) → Cmd (Unit {0})
set_neigh p f w = elim (neigh_at p w.aodv_neigh_list) [
  | some _ ↦ some (tt, record w { aodv_neigh_list = write_neigh p f w.aodv_neigh_list })
  | none ↦ none
]

-- With memory `kmalloc` gives a block out.
pub kmalloc-memory :
    (w : World)
    → w.memory w.allocations ≢ none
    → (b : Block) × (kmalloc w ≡ some (some b, record w { allocations = w.allocations + 1 }))
unfolding kmalloc
kmalloc-memory w m = elim (Option-cases (w.memory w.allocations)) [
  | inl e ↦ absurd (m e)
  | inr (j, e) ↦ (record { addr = w.allocations + 1; junk = j }, rw (e, kmalloc))
]

pub kmalloc-pos : (w w' : World) (b : Block) → kmalloc w ≡ some (some b, w') → 0 < b.addr
unfolding kmalloc
kmalloc-pos w w' b e = elim (Option-cases (w.memory w.allocations)) [
  | inl m ↦ absurd (ground (arith, m, e))
  | inr (j, m) ↦ ground (arith, m, e)
]
