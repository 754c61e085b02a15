-- ===== src/Route/Flush.antt =====
-- `flush_aodv_route_table` of kaodv/src/aodv_route.c.
use mobile_cloud_caching.Prelude.{
  ℕ, ◌≤◌, ◌≡◌, refl, ap, true, false, inl, inr, Option-cases, Bool-cases, List, [], ◌∷◌, All,
}
use mobile_cloud_caching.Types.{AodvRoute}
use mobile_cloud_caching.Kernel.{Kernel}
use mobile_cloud_caching.World.{World, to_millis, getcurrtime}
use mobile_cloud_caching.World.Frame.{SameTables, SameTables-trans}
use mobile_cloud_caching.World.Memory.{kmalloc}
use mobile_cloud_caching.World.Gives
use mobile_cloud_caching.World.Gives.{Gives, gives}
use mobile_cloud_caching.KernelRoute.{delete_kernel_route_entry, create_kernel_route_entry}
use mobile_cloud_caching.Route.{expire, due, flush_loop, flush_aodv_route_table}
use mobile_cloud_caching.Route.Order.{IsSorted}

-- What a flush makes of a table: a route that is not due stays; a due and valid one is expired in
-- place; a due one that was expired before is dropped.
pub data Flushed ⦃k : Kernel⦄ (now : ℕ) : List AodvRoute → List AodvRoute → Type 0 where
  nil : Flushed now [] []
  keep :
      {r : AodvRoute} {rs ss : List AodvRoute}
      → due now r ≡ false
      → Flushed now rs ss
      → Flushed now (r ∷ rs) (r ∷ ss)
  expired :
      {r : AodvRoute} {rs ss : List AodvRoute} (at : ℕ)
      → due now r ≡ true
      → r.route_valid ≡ true
      → Flushed now rs ss
      → Flushed now (r ∷ rs) (expire at r ∷ ss)
  dropped :
      {r : AodvRoute} {rs ss : List AodvRoute}
      → due now r ≡ true
      → r.route_valid ≡ false
      → Flushed now rs ss
      → Flushed now (r ∷ rs) ss

pub delete_kernel_route_entry-SameTables :
    (a b c : ℕ) (w : World) → Gives (λ _ w'. SameTables w w') (delete_kernel_route_entry a b c w)
unfolding delete_kernel_route_entry
delete_kernel_route_entry-SameTables a b c w = elim (Option-cases (w.memory w.allocations)) [
  | inl e ↦ rw (e, delete_kernel_route_entry, create_kernel_route_entry, kmalloc) (gives refl)
  | inr (j, e) ↦ rw (e, delete_kernel_route_entry, create_kernel_route_entry, kmalloc) (gives refl)
]

module _ ⦃k : Kernel⦄ where
  flush_loop-Flushed :
      (now : ℕ) (rs : List AodvRoute) (w : World)
      → Gives (λ ss w'. Flushed now rs ss × SameTables w w') (flush_loop now rs w)
  unfolding flush_loop getcurrtime
  flush_loop-Flushed now [] w = gives (nil, refl)
  flush_loop-Flushed now (r ∷ rs) w = elim (Bool-cases (due now r)) [
    | inr e ↦ rw e (Gives.bind (flush_loop-Flushed now rs w) λ ss w' f. gives (keep e f.0, f.1))
    | inl e ↦ elim (Bool-cases r.route_valid) [
      | inl v ↦
          simp (e, v)
            (Gives.bind (flush_loop-Flushed now rs _) λ ss w' f. gives (expired _ e v f.0, f.1))
      | inr v ↦
          simp (e, v)
            (Gives.bind (delete_kernel_route_entry-SameTables r.ip r.next_hop r.netmask w)
              λ _ w₁ same.
                Gives.weaken (flush_loop-Flushed now rs w₁)
                  λ ss w' f. (dropped e v f.0, SameTables-trans w w₁ w' same f.1))
    ]
  ]

  -- `flush_aodv_route_table` meets no oops, expires each valid route that is past its lifetime and
  -- not the node's own, removes each invalid one, and leaves the others, all in order; and but for
  -- the table no table and no queue differs.
  pub flush_aodv_route_table-Flushed :
      (w : World)
      → Gives
          (λ _ w'.
            Flushed (to_millis (w.clock w.readings)) w.aodv_route_table w'.aodv_route_table
            × (SameTables (record w { aodv_route_table = w'.aodv_route_table }) w'))
          (flush_aodv_route_table w)
  unfolding flush_aodv_route_table
  flush_aodv_route_table-Flushed w =
      Gives.bind (flush_loop-Flushed _ w.aodv_route_table _) λ ss w' f.
        gives (f.0, ap {A = World} {B = World} (λ x. record x { aodv_route_table = ss }) f.1)

-- Every route that the flush leaves was in the table, with the same destination.
All-Flushed :
    ⦃k : Kernel⦄
    → {now : ℕ} {rs ss : List AodvRoute} (a : ℕ) → Flushed now rs ss
    → All (λ (r : AodvRoute). a ≤ r.ip) rs
    → All (λ (r : AodvRoute). a ≤ r.ip) ss
unfolding expire
All-Flushed a nil h = tt
All-Flushed a (keep e f) h = (h.0, All-Flushed a f h.1)
All-Flushed a (expired at e v f) h = (h.0, All-Flushed a f h.1)
All-Flushed a (dropped e v f) h = All-Flushed a f h.1

-- A flush keeps the table sorted.
pub Flushed-IsSorted :
    ⦃k : Kernel⦄
    → {now : ℕ} {rs ss : List AodvRoute} → Flushed now rs ss
    → IsSorted rs
    → IsSorted ss
unfolding expire
Flushed-IsSorted nil s = tt
Flushed-IsSorted (keep {r} e f) s = (All-Flushed r.ip f s.0, Flushed-IsSorted f s.1)
Flushed-IsSorted (expired {r} at e v f) s = (All-Flushed r.ip f s.0, Flushed-IsSorted f s.1)
Flushed-IsSorted (dropped e v f) s = Flushed-IsSorted f s.1
