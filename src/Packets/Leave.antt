-- ===== src/Packets/Leave.antt =====
-- `output_handler` of kaodv/src/packet_out.c: which packets may leave, and which wait for a route.
use mobile_cloud_caching.Prelude.{
  ◌⊎◌, ℕ, ◌≡◌, refl, ◌==◌, true, false, Bool-cases, inl, inr, Option, none, some, arith,
}
use mobile_cloud_caching.Types.{Ptr, null, AodvRoute}
use mobile_cloud_caching.Kernel.{Kernel}
use mobile_cloud_caching.World.{World, Ret, getcurrtime, pure, ◌>>◌}
use mobile_cloud_caching.World.Memory.{load_route}
use mobile_cloud_caching.World.Gives
use mobile_cloud_caching.World.Gives.{Gives, gives}
use mobile_cloud_caching.World.Kept.{Kept, Kept-trans, load_route-IsRoute, set_route-Kept}
use mobile_cloud_caching.World.Healthy.{Healthy, Kept-Healthy}
use mobile_cloud_caching.Utils.{aodv_subnet_test}
use mobile_cloud_caching.Route.{find_aodv_route}
use mobile_cloud_caching.Route.Safe.{SameTables-Kept, find_aodv_route-Kept, IsRouteOrNull}
use mobile_cloud_caching.Timers.Insert.{AllocatedTimers}
use mobile_cloud_caching.Rreq.{gen_rreq}
use mobile_cloud_caching.Rreq.Pending.{Issued, gen_rreq-Issued, AllocatedTimers-Kept}
use mobile_cloud_caching.Packets.{Verdict, route_out, output_handler}

module _ ⦃k : Kernel⦄ where
  -- What a search may come back with that is no use to a packet.
  abbrev NoRoute : Ptr → World → Type 0
  NoRoute p w =
      (p ≡ null) ⊎ ((r : AodvRoute) × (load_route p w ≡ some (r, w)) × (r.route_valid ≡ false))

  -- What becomes of a packet that is to leave, from a world `w`.
  pub data Left (daddr : ℕ) (w : World) : Verdict → World → Type 0 where
    broadcast : daddr ≡ w.g_broadcast_ip → Left daddr w Verdict.nf_accept w
    outside :
        w.g_aodv_gateway ≡ true
        → aodv_subnet_test w.aodv_dev_list daddr ≡ false
        → Left daddr w Verdict.nf_accept w
    -- The search found a route, and it is valid.
    routed :
        {w₁ w' : World} (p : Ptr) (r : AodvRoute)
        → find_aodv_route daddr w ≡ some (p, w₁)
        → load_route p w₁ ≡ some (r, w₁)
        → r.route_valid ≡ true
        → Kept w w'
        → Left daddr w Verdict.nf_accept w'
    -- The search found none, or one that is not valid: the packet waits, and the node asks for the
    -- route.
    waiting :
        {w₁ w' : World} (p : Ptr)
        → find_aodv_route daddr w ≡ some (p, w₁)
        → NoRoute p w₁
        → (a : Ret) → gen_rreq w₁.g_my_ip daddr w₁ ≡ some (a, w')
        → Issued w₁.g_my_ip daddr w₁ a w'
        → Left daddr w Verdict.nf_queue w'

  asked_for :
      (daddr : ℕ) (p : Ptr) (w w₁ : World)
      → find_aodv_route daddr w ≡ some (p, w₁)
      → NoRoute p w₁
      → Healthy w₁
      → AllocatedTimers w₁
      → Gives (Left daddr w) ((do gen_rreq w₁.g_my_ip daddr; pure Verdict.nf_queue) w₁)
  asked_for daddr p w w₁ e n h a =
      Gives.bind (Gives.remember (gen_rreq-Issued w₁.g_my_ip daddr w₁ h a))
        λ b w₂ (i, ran). gives (Left.waiting p e n b ran i)

  route_out-Left :
      (daddr : ℕ) (w : World)
      → Healthy w
      → AllocatedTimers w
      → Gives (Left daddr w) (route_out daddr w)
  unfolding route_out getcurrtime
  route_out-Left daddr w h a = by_search _ refl (find_aodv_route-Kept daddr w)
    where
      by_search :
          (o : Option (Ptr × World))
          → find_aodv_route daddr w ≡ o
          → Gives (λ p w'. Kept w w' × IsRouteOrNull p w') o
          → Gives (Left daddr w) (route_out daddr w)
      by_search none e x = elim x [ ]
      by_search (some (p, w₁)) e (gives (k₁, ok)) =
          let h₁ = Kept-Healthy k₁ h in
          let a₁ = AllocatedTimers-Kept w w₁ k₁ a in
          elim (Bool-cases (p == null)) [
            | inl z ↦ simp (e, z) (asked_for daddr p w w₁ e (inl (ground arith)) h₁ a₁)
            | inr z ↦ elim ok [
              | inl n ↦ absurd (ground arith)
              | inr is ↦
                  let (r, found) = load_route-IsRoute p w₁ is in
                  elim (Bool-cases r.route_valid) [
                    | inr v ↦
                        simp (e, z, found, v) (asked_for daddr p w w₁ e (inr (r, found, v)) h₁ a₁)
                    | inl v ↦ elim (Bool-cases r.self_route) [
                      | inl s ↦ simp (e, z, found, v, s) (gives (Left.routed p r e found v k₁))
                      | inr s ↦
                          simp (e, z, found, v, s)
                            (Gives.bind (set_route-Kept p _ _ (λ r. refl) is) λ _ w₂ k₂.
                              let k₁₂ = Kept-trans k₁ (Kept-trans (SameTables-Kept refl) k₂) in
                              gives (Left.routed p r e found v k₁₂))
                    ]
                  ]
            ]
          ]

  -- In a healthy world whose timers lie at addresses that are not null, `output_handler` meets no
  -- oops; it accepts a packet to the broadcast address, or from a gateway to outside the AODV
  -- subnet, and nothing differs; or it accepts one for whose destination the search found a valid
  -- route, and only routes, readings, allocations, socket requests and the log differ; or it queues
  -- one for whose destination the search found no route or one that is not valid, and calls
  -- `gen_rreq` for the destination in the name of the node: that either fails with -EHOSTUNREACH,
  -- since a search for the node's own route came back empty, or returns 0, and then the timer that
  -- repeats the request for the destination is in the queue.
  pub output_handler-Left :
      (daddr : ℕ) (w : World)
      → Healthy w
      → AllocatedTimers w
      → Gives (Left daddr w) (output_handler daddr w)
  unfolding output_handler
  output_handler-Left daddr w h a = elim (Bool-cases (daddr == w.g_broadcast_ip)) [
    | inl e ↦ simp e (gives (Left.broadcast (ground (arith, e))))
    | inr e ↦ elim (Bool-cases w.g_aodv_gateway) [
      | inr g ↦ simp (e, g) (route_out-Left daddr w h a)
      | inl g ↦ elim (Bool-cases (aodv_subnet_test w.aodv_dev_list daddr)) [
        | inl s ↦ simp (e, g, s) (route_out-Left daddr w h a)
        | inr s ↦ simp (e, g, s) (gives (Left.outside g s))
      ]
    ]
  ]
