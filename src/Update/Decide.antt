-- ===== src/Update/Decide.antt =====
-- What `update_aodv_route` of kaodv/src/aodv_route.c does with an entry that is there.
use mobile_cloud_caching.Prelude.{ℕ, ◌<◌, ◌≡◌, ◌≢◌, refl, ◌==◌, true, false, some, arith}
use mobile_cloud_caching.Types.{Ptr, null, AodvRoute}
use mobile_cloud_caching.Kernel.{Kernel}
use mobile_cloud_caching.World.{World, getcurrtime, ret}
use mobile_cloud_caching.World.Gives
use mobile_cloud_caching.World.Gives.{Gives, gives}
use mobile_cloud_caching.World.Frame.{SameTables-trans}
use mobile_cloud_caching.World.Points.{
  PointsTo, PointsTo-SameTables, load_route-PointsTo, set_route-PointsTo,
}
use mobile_cloud_caching.Route.{find_aodv_route}
use mobile_cloud_caching.Route.Flush.{delete_kernel_route_entry-SameTables}
use mobile_cloud_caching.Route.Safe.{insert_kernel_route_entry-SameTables}
use mobile_cloud_caching.Neigh.{valid_aodv_neigh}
use mobile_cloud_caching.Utils.{seq_greater}
use mobile_cloud_caching.Utils.Seq.{ahead}
use mobile_cloud_caching.Update.{keeps_entry, install, update_aodv_route}

-- The entry that a message makes of an old one.
abbrev pub renewed : AodvRoute → ℕ → ℕ → ℕ → Ptr → ℕ → AodvRoute
renewed r nh metric seq dev lifetime = record r {
  seq = seq;
  next_hop = nh;
  metric = metric;
  dev = dev;
  route_valid = true;
  route_seq_valid = true;
  lifetime = lifetime;
}

module _ ⦃k : Kernel⦄ where
  pub install-PointsTo :
      (p : Ptr) (r : AodvRoute) (ip nh metric seq dev : ℕ) (w : World)
      → PointsTo p r w
      → Gives
          (λ a w'.
            (a ≡ ret 0) × ((lifetime : ℕ) × PointsTo p (renewed r nh metric seq dev lifetime) w'))
          (install p ip nh metric seq dev w)
  unfolding install getcurrtime
  install-PointsTo p r ip nh metric seq dev w at =
      Gives.bind (set_route-PointsTo p _ (λ r. refl) r w at) λ _ w₁ a₁.
        let found = load_route-PointsTo p _ w₁ a₁ in
        simp found (
          Gives.bind (delete_kernel_route_entry-SameTables r.ip nh r.netmask w₁) λ _ w₂ s₂.
            Gives.bind (insert_kernel_route_entry-SameTables r.ip nh r.netmask dev w₂) λ _ w₃ s₃.
              let a₃ = PointsTo-SameTables p _ w₁ w₃ (SameTables-trans w₁ w₂ w₃ s₂ s₃) a₁ in
              Gives.bind (set_route-PointsTo p _ (λ r. refl) _ _ a₃)
                λ _ w₅ a₅. gives (refl, (_, a₅)))

  keeps_entry-stale :
      (r : AodvRoute) (metric seq d : ℕ)
      → seq < 4_294_967_296
      → d < 2_147_483_648
      → r.seq ≡ ahead seq d
      → keeps_entry r metric seq ≡ true
  unfolding keeps_entry seq_greater
  keeps_entry-stale r metric seq d lt half e = ground arith

  keeps_entry-newer :
      (r : AodvRoute) (metric seq d : ℕ)
      → r.seq < 4_294_967_296
      → 0 < d
      → d < 2_147_483_648
      → seq ≡ ahead r.seq d
      → keeps_entry r metric seq ≡ false
  unfolding keeps_entry seq_greater
  keeps_entry-newer r metric seq d lt pos half e = ground arith

  module _ (ip nh metric seq dev d : ℕ) (p : Ptr) (r : AodvRoute) (w w₁ w₂ : World)
      (found : find_aodv_route ip w ≡ some (p, w₁)) (there : p ≢ null)
      (good : valid_aodv_neigh nh w₁ ≡ some (true, w₂)) (at : PointsTo p r w₂)
      (half : d < 2_147_483_648) where
    -- If the search finds an entry and the next hop is a valid neighbour, then a message whose
    -- sequence number is the entry's, or behind it by less than half the range, changes nothing
    -- beyond the search and the test, whatever its metric: `update_aodv_route` returns 0.
    pub update_aodv_route-stale :
        seq < 4_294_967_296
        → r.seq ≡ ahead seq d
        → update_aodv_route ip nh metric seq dev w ≡ some (ret 0, w₂)
    unfolding update_aodv_route
    update_aodv_route-stale lt e =
        let z : (p == null) ≡ false = ground (arith, there) in
        simp (
          found,
          good,
          z,
          load_route-PointsTo p r w₂ at,
          keeps_entry-stale r metric seq d lt half e,
        )

    -- If the search finds an entry and the next hop is a valid neighbour, then a message whose
    -- sequence number is ahead of the entry's by less than half the range, over the rollover too,
    -- replaces the entry: `update_aodv_route` meets no oops and returns 0, and the entry has the
    -- message's number, next hop, metric and device and is valid, with some new lifetime.
    pub update_aodv_route-newer :
        r.seq < 4_294_967_296
        → 0 < d
        → seq ≡ ahead r.seq d
        → Gives
            (λ a w'.
              (a ≡ ret 0) × ((lifetime : ℕ) × PointsTo p (renewed r nh metric seq dev lifetime) w'))
            (update_aodv_route ip nh metric seq dev w)
    unfolding update_aodv_route
    update_aodv_route-newer lt pos e =
        let z : (p == null) ≡ false = ground (arith, there) in
        let r_at = load_route-PointsTo p r w₂ at in
        let keeps = keeps_entry-newer r metric seq d lt pos half e in
        simp (found, good, z, r_at, keeps) (install-PointsTo p r ip nh metric seq dev w₂ at)
