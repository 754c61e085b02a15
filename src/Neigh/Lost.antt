-- ===== src/Neigh/Lost.antt =====
-- What `delete_aodv_neigh` of kaodv/src/aodv_neigh.c does to the route of a neighbour that is lost.
use mathlib.Core.Path.{subst}
use mobile_cloud_caching.Prelude.{
  ℕ, ◌≡◌, ◌≢◌, refl, ap, ◌∙◌, ◌==◌, true, false, Bool-cases, inl, inr, some, List, [], ◌∷◌, arith,
}
use mobile_cloud_caching.Types.{Ptr, null, AodvRoute}
use mobile_cloud_caching.Kernel.{Kernel}
use mobile_cloud_caching.World.{World}
use mobile_cloud_caching.World.Memory.{route_at}
use mobile_cloud_caching.World.Gives
use mobile_cloud_caching.World.Gives.{Gives, gives}
use mobile_cloud_caching.World.Points.{load_route-PointsTo, some-head, some-tail}
use mobile_cloud_caching.World.Healthy.{Healthy, Kept-Healthy}
use mobile_cloud_caching.Route.{find_aodv_route, unlink, remove_aodv_route, expire}
use mobile_cloud_caching.Route.Flush.{delete_kernel_route_entry-SameTables}
use mobile_cloud_caching.Route.Safe.{SameTables-Kept}
use mobile_cloud_caching.Rerr.Report.{Cut, AllCut, gen_rerr-Reported}
use mobile_cloud_caching.Neigh.{drop_neigh_route}

module _ ⦃k : Kernel⦄ where
  Cut-addr : (brk : ℕ) (r s : AodvRoute) → Cut brk r s → s.addr ≡ r.addr
  unfolding expire
  Cut-addr brk r s (inl c) = ap (λ (x : AodvRoute). x.addr) c.1.1
  Cut-addr brk r s (inr c) = ap (λ (x : AodvRoute). x.addr) c.1

  route_at-AllCut :
      (p : Ptr) (brk : ℕ) (rs ss : List AodvRoute) (r : AodvRoute)
      → AllCut brk rs ss
      → route_at p rs ≡ some r
      → (s : AodvRoute) × (route_at p ss ≡ some s) × Cut brk r s
  route_at-AllCut p brk [] [] r c e = absurd (ground arith)
  route_at-AllCut p brk [] (s ∷ ss) r c e = absurd c
  route_at-AllCut p brk (q ∷ rs) [] r c e = absurd c
  route_at-AllCut p brk (q ∷ rs) (s ∷ ss) r c e = elim (Bool-cases (q.addr == p)) [
    | inl here ↦
        let its_addr : (s.addr == p) ≡ true = rw (Cut-addr brk q s c.0) here in
        let q_is : q ≡ r = ground (arith, some-head p q rs (some r) here e) in
        (s, rw (its_addr, route_at), subst (λ x. Cut brk x s) q_is c.0)
    | inr there ↦
        let its_addr : (s.addr == p) ≡ false = rw (Cut-addr brk q s c.0) there in
        let (t, found, cut) =
          route_at-AllCut p brk rs ss r c.1 (some-tail p q rs (some r) there e) in
        (t, rw (its_addr, route_at) found, cut)
  ]

  Cut-invalid :
      (r s : AodvRoute)
      → r.next_hop ≡ r.ip
      → r.self_route ≡ false
      → Cut r.ip r s
      → s.route_valid ≡ false
  unfolding expire
  Cut-invalid r s direct other (inl c) = ap (λ (x : AodvRoute). x.route_valid) c.1.1
  Cut-invalid r s direct other (inr c) =
      ap (λ (x : AodvRoute). x.route_valid) c.1 ∙ ground (arith, c.0)

  -- The route is gone; the others went through the loss of the neighbour.
  pub record Dropped (p : Ptr) (brk : ℕ) (w w' : World) : Type 0 where
    pub table : List AodvRoute
    pub cut : AllCut brk w.aodv_route_table table
    pub unlinked : w'.aodv_route_table ≡ unlink p table

  -- In a healthy world, if the search for a lost neighbour finds an entry of the table that is a
  -- direct route and not the node's own, then the end of `delete_aodv_neigh` meets no oops and
  -- removes that entry, never only expires it: the table that is left is the one after the
  -- neighbour's loss, in which the valid routes through the neighbour have expired, without the
  -- entry.
  pub drop_neigh_route-Dropped :
      (ip : ℕ) (p : Ptr) (r : AodvRoute) (w w₁ : World)
      → Healthy w₁
      → find_aodv_route ip w ≡ some (p, w₁)
      → p ≢ null
      → route_at p w₁.aodv_route_table ≡ some r
      → r.next_hop ≡ r.ip
      → r.self_route ≡ false
      → Gives (λ _ w'. Dropped p r.ip w₁ w') (drop_neigh_route ip w)
  unfolding drop_neigh_route remove_aodv_route
  drop_neigh_route-Dropped ip p r w w₁ h found there at direct other =
      let z : (p == null) ≡ false = ground (arith, there) in
      let r_at = load_route-PointsTo p r w₁ (inl at) in
      let is_direct : (r.next_hop == r.ip) ≡ true = ground (arith, direct) in
      simp (found, z, r_at, is_direct)
        (Gives.bind (delete_kernel_route_entry-SameTables r.ip r.next_hop r.netmask w₁) λ _ w₂ s₂.
          Gives.bind (gen_rerr-Reported r.ip w₂ (Kept-Healthy (SameTables-Kept s₂) h))
            λ _ w₃ (_, reported).
              let tables : w₂.aodv_route_table ≡ w₁.aodv_route_table =
                ap (λ (x : World). x.aodv_route_table) s₂ in
              let cut₁ : AllCut r.ip w₁.aodv_route_table w₃.aodv_route_table =
                subst (λ t. AllCut r.ip t w₃.aodv_route_table) tables reported.cut in
              let (s, s_found, s_cut) = route_at-AllCut p r.ip _ _ r cut₁ at in
              let s_at = load_route-PointsTo p s w₃ (inl s_found) in
              let dead = Cut-invalid r s direct other s_cut in
              simp (s_at, dead) (gives (record { table = _; cut = cut₁; unlinked = refl })))
