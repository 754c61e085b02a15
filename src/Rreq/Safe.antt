-- ===== src/Rreq/Safe.antt =====
-- The answering and passing on of a route request, in kaodv/src/rreq.c: its runs and what they
-- leave alone.
use mobile_cloud_caching.Prelude.{ℕ, refl, ◌==◌, true, Bool-cases, inl, inr, arith}
use mobile_cloud_caching.Types.{Ptr, null, Rreq}
use mobile_cloud_caching.Kernel.{Kernel}
use mobile_cloud_caching.World.{World, getcurrtime, pure, ◌>>=◌, ◌>>◌}
use mobile_cloud_caching.World.Gives
use mobile_cloud_caching.World.Gives.{Gives, gives}
use mobile_cloud_caching.World.Kept.{
  IsRoute, Kept, Kept-refl, Kept-trans, load_route-IsRoute, set_route-Kept,
}
use mobile_cloud_caching.World.Healthy.{Healthy, Kept-Healthy}
use mobile_cloud_caching.Utils.{aodv_subnet_test, seq_less_or_equal}
use mobile_cloud_caching.Route.Safe.{
  SameTables-Kept, find_aodv_route-Kept, create_aodv_route-Kept, IsRouteOrNull,
}
use mobile_cloud_caching.Device.Safe.{local_broadcast-SameTables}
use mobile_cloud_caching.Rreq.{
  outside_route, revive, make_outside_route, revive_route, reply_outside, reply_inside,
  reply_to_rreq, forward_rreq,
}

make_outside_route-Kept :
    ⦃k : Kernel⦄ (ip : ℕ) (w : World)
    → Healthy w
    → Gives (λ p w'. Kept w w' × IsRoute p w') (make_outside_route ip w)
unfolding make_outside_route outside_route
make_outside_route-Kept ip w h =
    Gives.bind (create_aodv_route-Kept ip w (h.memory _)) λ p w₁ (k₁, is, made).
      let (own, own_at) = load_route-IsRoute w₁.g_my_route w₁ (Kept-Healthy k₁ h).own_route in
      simp own_at (
        Gives.bind (set_route-Kept p _ w₁ (λ r. refl) is)
          λ _ w₂ k₂. gives (Kept-trans k₁ k₂, k₂.alive p is))

revive_route-Kept :
    ⦃k : Kernel⦄ (p : Ptr) (w : World) → IsRoute p w → Gives (λ _ w'. Kept w w') (revive_route p w)
unfolding revive_route revive getcurrtime
revive_route-Kept p w is =
    Gives.weaken (set_route-Kept p _ _ (λ r. refl) is)
      λ _ w' k₁. Kept-trans (SameTables-Kept refl) k₁

module _ ⦃k : Kernel⦄ (q : Rreq) where
  reply_new-Kept :
      (w : World)
      → Healthy w
      → Gives
          (λ _ w'. Kept w w')
          ((do p ← make_outside_route q.dst_ip; revive_route p; pure true) w)
  reply_new-Kept w h =
      Gives.bind (make_outside_route-Kept q.dst_ip w h)
        λ p w₁ (k₁, is). Gives.bind (revive_route-Kept p w₁ is) λ _ w₂ k₂. gives (Kept-trans k₁ k₂)

  reply_outside-Kept :
      (p : Ptr) (w : World)
      → Healthy w
      → IsRouteOrNull p w
      → Gives (λ _ w'. Kept w w') (reply_outside q p w)
  unfolding reply_outside
  reply_outside-Kept p w h ok = elim (Bool-cases w.g_aodv_gateway) [
    | inl g ↦ elim (Bool-cases (p == null)) [
      | inl z ↦ simp (g, z) (reply_new-Kept w h)
      | inr z ↦ elim ok [
        | inl n ↦ absurd (ground arith)
        | inr is ↦ simp (g, z) (Gives.bind (revive_route-Kept p w is) λ _ w₂ k₂. gives k₂)
      ]
    ]
    | inr g ↦ elim (Bool-cases (p == null)) [
      | inl z ↦ simp (g, z) (gives (Kept-refl w))
      | inr z ↦ elim ok [
        | inl n ↦ absurd (ground arith)
        | inr is ↦
            let (r, found) = load_route-IsRoute p w is in
            elim (Bool-cases (r.netmask == w.g_broadcast_ip)) [
              | inl m ↦ simp (g, z, found, m) (gives (Kept-refl w))
              | inr m ↦ simp (g, z, found, m) (reply_new-Kept w h)
            ]
      ]
    ]
  ]

  reply_inside-Kept :
      (p : Ptr) (w : World) → IsRouteOrNull p w → Gives (λ _ w'. Kept w w') (reply_inside q p w)
  unfolding reply_inside
  reply_inside-Kept p w ok = elim (Bool-cases (p == null)) [
    | inl z ↦ simp z (gives (Kept-refl w))
    | inr z ↦ elim ok [
      | inl n ↦ absurd (ground arith)
      | inr is ↦
          let (r, found) = load_route-IsRoute p w is in
          elim (Bool-cases r.self_route) [
            | inr s ↦ simp (z, found, s) (gives (Kept-refl w))
            | inl s ↦ elim (Bool-cases (seq_less_or_equal r.seq q.dst_seq)) [
              | inr l ↦ simp (z, found, s, l) (gives (Kept-refl w))
              | inl l ↦
                  simp (z, found, s, l)
                    (Gives.bind (set_route-Kept p _ w (λ r. refl) is) λ _ w₁ k₁. gives k₁)
            ]
          ]
    ]
  ]

  -- In a healthy world `reply_to_rreq` meets no oops, for destinations inside the AODV subnet and
  -- outside it; only the routes, the readings, the allocations, the socket requests and the log
  -- differ, and no route that a pointer led to is lost.
  pub reply_to_rreq-Kept : (w : World) → Healthy w → Gives (λ _ w'. Kept w w') (reply_to_rreq q w)
  unfolding reply_to_rreq
  reply_to_rreq-Kept w h = Gives.bind (find_aodv_route-Kept q.dst_ip w) λ p w₁ (k₁, ok).
      elim (Bool-cases (aodv_subnet_test w₁.aodv_dev_list q.dst_ip)) [
        | inl e ↦ simp e (Gives.weaken (reply_inside-Kept p w₁ ok) λ _ w₂ k₂. Kept-trans k₁ k₂)
        | inr e ↦ simp e (
            Gives.weaken (reply_outside-Kept p w₁ (Kept-Healthy k₁ h) ok)
              λ _ w₂ k₂. Kept-trans k₁ k₂)
      ]

  pub forward_rreq-Kept :
      (ttl : ℕ) (w : World) → Healthy w → Gives (λ _ w'. Kept w w') (forward_rreq q ttl w)
  unfolding forward_rreq
  forward_rreq-Kept ttl w h =
      Gives.bind (local_broadcast-SameTables _ _ w h) λ _ w₁ s₁. gives (SameTables-Kept s₁)
