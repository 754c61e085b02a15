-- ===== src/Update/Safe.antt =====
-- The run of `update_aodv_route` of kaodv/src/aodv_route.c, and what it leaves alone.
use mobile_cloud_caching.Prelude.{
  ℕ, ◌≡◌, refl, ◌==◌, if◌then◌else◌, false, Bool-cases, inl, inr, arith,
}
use mobile_cloud_caching.Types.{Ptr, null}
use mobile_cloud_caching.Kernel.{Kernel}
use mobile_cloud_caching.World.{World, getcurrtime, pure, ◌>>=◌, ◌>>◌, fail, enomem, ret}
use mobile_cloud_caching.World.Memory.{load_route, set_route}
use mobile_cloud_caching.World.Gives
use mobile_cloud_caching.World.Gives.{Gives, gives}
use mobile_cloud_caching.World.Kept.{IsRoute, Kept, Kept-trans, load_route-IsRoute, set_route-Kept}
use mobile_cloud_caching.World.Healthy.{Healthy, Kept-Healthy}
use mobile_cloud_caching.Route.{create_aodv_route}
use mobile_cloud_caching.Route.Flush.{delete_kernel_route_entry-SameTables}
use mobile_cloud_caching.Route.Safe.{
  SameTables-Kept, find_aodv_route-Kept, create_aodv_route-Kept,
  insert_kernel_route_entry-SameTables,
}
use mobile_cloud_caching.Neigh.Valid.{valid_aodv_neigh-SameTables}
use mobile_cloud_caching.Update.{keeps_entry, install, update_aodv_route}

module _ ⦃k : Kernel⦄ where
  install-Kept :
      (p : Ptr) (ip nh metric seq dev : ℕ) (w : World)
      → IsRoute p w
      → Gives (λ _ w'. Kept w w') (install p ip nh metric seq dev w)
  unfolding install getcurrtime
  install-Kept p ip nh metric seq dev w is =
      Gives.bind (set_route-Kept p _ w (λ r. refl) is) λ _ w₁ k₁.
        let (r, found) = load_route-IsRoute p w₁ (k₁.alive p is) in
        simp found (
          Gives.bind (delete_kernel_route_entry-SameTables r.ip r.next_hop r.netmask w₁) λ _ w₂ s₂.
            let k₂ = Kept-trans k₁ (SameTables-Kept s₂) in
            Gives.bind (insert_kernel_route_entry-SameTables r.ip r.next_hop r.netmask r.dev w₂)
              λ _ w₃ s₃.
                let k₃ = Kept-trans k₂ (SameTables-Kept s₃) in
                let k₄ = Kept-trans k₃ (SameTables-Kept refl) in
                Gives.bind (set_route-Kept p _ _ (λ r. refl) (k₄.alive p is))
                  λ _ w₅ k₅. gives (Kept-trans k₄ k₅))

  -- The branch for a destination without an entry.
  new_entry-Kept :
      (ip nh metric seq dev : ℕ) (w w₁ : World)
      → Kept w w₁
      → Healthy w₁
      → Gives
          (λ _ w'. Kept w w')
          ((do
            new_route ← create_aodv_route ip
            if new_route == null then pure (fail enomem) else do
              set_route new_route (λ r. record r { ip = ip })
              install new_route ip nh metric seq dev)
            w₁)
  new_entry-Kept ip nh metric seq dev w w₁ k₁ h =
      Gives.bind (create_aodv_route-Kept ip w₁ (h.memory _)) λ p w₂ (k₂, is, made).
        let z : (p == null) ≡ false = ground (arith, made) in
        simp z (
          Gives.bind (set_route-Kept p _ w₂ (λ r. refl) is) λ _ w₃ k₃.
            Gives.weaken (install-Kept p ip nh metric seq dev w₃ (k₃.alive p is))
              λ _ w' k₄. Kept-trans (Kept-trans k₁ k₂) (Kept-trans k₃ k₄))

  -- The branch for an entry that is there.
  old_entry-Kept :
      (p : Ptr) (ip nh metric seq dev : ℕ) (w w₁ : World)
      → Kept w w₁
      → IsRoute p w₁
      → Gives
          (λ _ w'. Kept w w')
          ((do
            r ← load_route p
            if keeps_entry r metric seq then pure (ret 0) else install p ip nh metric seq dev)
            w₁)
  old_entry-Kept p ip nh metric seq dev w w₁ k₁ is =
      let (r, found) = load_route-IsRoute p w₁ is in
      elim (Bool-cases (keeps_entry r metric seq)) [
        | inl e ↦ simp (found, e) (gives k₁)
        | inr e ↦
            simp (found, e)
              (Gives.weaken (install-Kept p ip nh metric seq dev w₁ is) λ _ w' k. Kept-trans k₁ k)
      ]

  -- In a healthy world `update_aodv_route` meets no oops; only the routes, the readings, the
  -- allocations, the socket requests and the log differ, and no route that a pointer led to is
  -- lost.
  pub update_aodv_route-Kept :
      (ip nh metric seq dev : ℕ) (w : World)
      → Healthy w
      → Gives (λ _ w'. Kept w w') (update_aodv_route ip nh metric seq dev w)
  unfolding update_aodv_route
  update_aodv_route-Kept ip nh metric seq dev w h =
      Gives.bind (find_aodv_route-Kept ip w) λ p w₁ (k₁, ok).
        Gives.bind (valid_aodv_neigh-SameTables nh w₁) λ b w₂ s.
          let k₂ = SameTables-Kept s in
          let k₁₂ = Kept-trans k₁ k₂ in
          elim (Bool-cases b) [
            | inr bad ↦ simp bad (gives k₁₂)
            | inl good ↦ elim (Bool-cases (p == null)) [
              | inl z ↦
                  simp (good, z) (new_entry-Kept ip nh metric seq dev w w₂ k₁₂ (Kept-Healthy k₁₂ h))
              | inr z ↦ elim ok [
                | inl n ↦ absurd (ground arith)
                | inr is ↦
                    simp (good, z) (old_entry-Kept p ip nh metric seq dev w w₂ k₁₂ (k₂.alive p is))
              ]
            ]
          ]
