-- ===== src/Rrep/Safe.antt =====
-- The making of a route reply, in kaodv/src/rrep.c: its run and what it leaves alone.
use mobile_cloud_caching.Prelude.{ℕ, ◌+◌, refl, ◌==◌, Bool-cases, inl, inr, Option-cases, arith}
use mobile_cloud_caching.Types.{null, AodvRoute}
use mobile_cloud_caching.Kernel.{Kernel}
use mobile_cloud_caching.World.{World, getcurrtime}
use mobile_cloud_caching.World.Memory.{kmalloc}
use mobile_cloud_caching.World.Gives
use mobile_cloud_caching.World.Gives.{Gives, gives}
use mobile_cloud_caching.World.Kept.{Kept, Kept-trans, load_route-IsRoute}
use mobile_cloud_caching.World.Healthy.{Healthy, Kept-Healthy}
use mobile_cloud_caching.Route.Safe.{SameTables-Kept, find_aodv_route-Kept}
use mobile_cloud_caching.Device.Safe.{send_message-Kept}
use mobile_cloud_caching.Rrep.{send_rrep, gen_rrep}

module _ ⦃k : Kernel⦄ where
  send_rrep-Kept :
      (src dst : AodvRoute) (w : World)
      → Healthy w
      → Gives (λ _ w'. Kept w w') (send_rrep src dst w)
  unfolding send_rrep getcurrtime kmalloc
  send_rrep-Kept src dst w h = elim (Option-cases (w.memory w.allocations)) [
    | inl e ↦ absurd (h.memory _ e)
    | inr (j, e) ↦
        let w₁ : World = record w { allocations = w.allocations + 1 } in
        let k₁ : Kept w w₁ = SameTables-Kept refl in
        let w₂ : World = record w₁ { readings = w.readings + 1 } in
        let k₂ : Kept w w₂ = SameTables-Kept refl in
        elim (Bool-cases dst.self_route) [
          | inl s ↦
              rw (e, send_rrep, kmalloc)
                (rw s (
                  Gives.bind (send_message-Kept _ _ _ _ w₁ (Kept-Healthy k₁ h))
                    λ _ w' k'. gives (Kept-trans k₁ k')))
          | inr s ↦
              rw (e, send_rrep, kmalloc)
                (rw s (
                  Gives.bind (send_message-Kept _ _ _ _ w₂ (Kept-Healthy k₂ h))
                    λ _ w' k'. gives (Kept-trans k₂ k')))
        ]
  ]

  -- In a healthy world `gen_rrep` meets no oops, with a way back or without; only the routes, the
  -- readings, the allocations, the socket requests and the log differ, and no route that a pointer
  -- led to is lost.
  pub gen_rrep-Kept :
      (src_ip dst_ip : ℕ) (w : World)
      → Healthy w
      → Gives (λ _ w'. Kept w w') (gen_rrep src_ip dst_ip w)
  unfolding gen_rrep
  gen_rrep-Kept src_ip dst_ip w h = Gives.bind (find_aodv_route-Kept src_ip w) λ p w₁ (k₁, ok₁).
      elim (Bool-cases (p == null)) [
        | inl z ↦ simp z (gives k₁)
        | inr z ↦ simp z (
            Gives.bind (find_aodv_route-Kept dst_ip w₁) λ q w₂ (k₂, ok₂).
              let k₁₂ = Kept-trans k₁ k₂ in
              elim (Bool-cases (q == null)) [
                | inl y ↦ simp y (gives k₁₂)
                | inr y ↦ elim ok₁ [
                  | inl n ↦ absurd (ground arith)
                  | inr is_p ↦ elim ok₂ [
                    | inl n ↦ absurd (ground arith)
                    | inr is_q ↦
                        let (src, src_at) = load_route-IsRoute p w₂ (k₂.alive p is_p) in
                        let (dst, dst_at) = load_route-IsRoute q w₂ is_q in
                        simp (y, src_at, dst_at)
                          (Gives.bind (send_rrep-Kept src dst w₂ (Kept-Healthy k₁₂ h))
                            λ _ w₃ k₃. gives (Kept-trans k₁₂ k₃))
                  ]
                ]
              ])
      ]
