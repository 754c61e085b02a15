-- ===== src/Device/Safe.antt =====
-- The sending of kaodv/src/socket.c, with a socket for each device: its runs and what they leave
-- alone.
use mathlib.Core.Path.{subst}
use mobile_cloud_caching.Prelude.{
  Option, ℕ, ◌+◌, ◌≡◌, refl, ltb, ◌==◌, if◌then◌else◌, false, Bool-cases, inl, inr, none, some,
  Option-cases, List, [], ◌∷◌, All, arith,
}
use mobile_cloud_caching.Types.{Ptr, null, AodvDev, Message}
use mobile_cloud_caching.Kernel.{Kernel}
use mobile_cloud_caching.World.{World, pure, ◌>>=◌, fail, ehostunreach, ask, getcurrtime, and_then}
use mobile_cloud_caching.World.Memory.{load_route}
use mobile_cloud_caching.World.Gives
use mobile_cloud_caching.World.Gives.{Gives, gives}
use mobile_cloud_caching.World.Frame.{SameTables}
use mobile_cloud_caching.World.Kept.{Kept, Kept-refl, Kept-trans, load_route-IsRoute}
use mobile_cloud_caching.World.Healthy.{HasSocket, Healthy, Kept-Healthy}
use mobile_cloud_caching.Route.Safe.{SameTables-Kept, find_aodv_route-Kept, IsRouteOrNull}
use mobile_cloud_caching.Device.{
  dev_walk, find_aodv_dev_by_dev, broadcast_loop, local_broadcast, send_on, send_message,
}

broadcast_loop-SameTables :
    (dst : ℕ) (ttl : Option ℕ) (m : Message) (ds : List AodvDev) (w : World)
    → Gives (λ _ w'. SameTables w w') (broadcast_loop dst ttl m ds w)
unfolding broadcast_loop ask
broadcast_loop-SameTables dst ttl m [] w = gives refl
broadcast_loop-SameTables dst ttl m (d ∷ ds) w = elim (Bool-cases (d.sock == null)) [
  | inl e ↦ rw e (gives refl)
  | inr e ↦ elim (Bool-cases (w.accepts w.requests)) [
    | inl a ↦ rw (e, a) (Gives.weaken (broadcast_loop-SameTables dst none m ds _) λ _ w' s. s)
    | inr a ↦ rw (e, a) (gives refl)
  ]
]

pub local_broadcast-SameTables :
    (ttl : ℕ) (m : Message) (w : World)
    → Healthy w
    → Gives (λ _ w'. SameTables w w') (local_broadcast ttl m w)
unfolding local_broadcast ask getcurrtime
local_broadcast-SameTables ttl m w h = by_list w.aodv_dev_list refl
  where
    by_list :
        (ds : List AodvDev)
        → w.aodv_dev_list ≡ ds
        → Gives (λ _ w'. SameTables w w') (local_broadcast ttl m w)
    by_list [] e = absurd (h.device e)
    by_list (d ∷ ds) e = elim (Bool-cases (ltb ttl 1)) [
      | inl small ↦ rw (small, local_broadcast) (gives refl)
      | inr large ↦
          let socket : (d.sock == null) ≡ false =
            ground (arith, (subst (All HasSocket) e h.sockets).0) in
          elim (Bool-cases (w.accepts w.requests)) [
            | inl a ↦
                simp (large, e, socket, a)
                  (Gives.weaken (broadcast_loop-SameTables w.g_broadcast_ip (some ttl) m (d ∷ ds) _)
                    λ _ w' s. s)
            | inr a ↦ simp (large, e, socket, a) (gives refl)
          ]
    ]

none_case :
    (w : World) (dst ttl : ℕ) (m : Message)
    → Gives (λ _ w'. SameTables w w') (send_on none dst ttl m w)
unfolding send_on
none_case w dst ttl m = gives refl

send_on-SameTables :
    (d : AodvDev) (dst ttl : ℕ) (m : Message) (w : World)
    → HasSocket d
    → Gives (λ _ w'. SameTables w w') (send_on (some d) dst ttl m w)
unfolding send_on ask
send_on-SameTables d dst ttl m w s =
    let socket : (d.sock == null) ≡ false = ground arith in
    elim (Bool-cases (w.accepts w.requests)) [
      | inl a ↦ elim (Bool-cases (w.accepts (w.requests + 1))) [
        | inl b ↦ simp (socket, a, b) (gives refl)
        | inr b ↦ simp (socket, a, b) (gives refl)
      ]
      | inr a ↦ elim (Bool-cases (w.accepts (w.requests + 1))) [
        | inl b ↦ simp (socket, a, b) (gives refl)
        | inr b ↦ simp (socket, a, b) (gives refl)
      ]
    ]

dev_walk-HasSocket :
    (ip : ℕ) (ds : List AodvDev) (w : World) (dst ttl : ℕ) (m : Message)
    → All HasSocket ds
    → Gives (λ _ w'. SameTables w w') (send_on (dev_walk ip ds) dst ttl m w)
unfolding dev_walk
dev_walk-HasSocket ip [] w dst ttl m s = none_case w dst ttl m
dev_walk-HasSocket ip (d ∷ ds) w dst ttl m s = elim (Bool-cases (d.ip == ip)) [
  | inl e ↦ rw (e, dev_walk) (send_on-SameTables d dst ttl m w s.0)
  | inr e ↦ rw (e, dev_walk) (dev_walk-HasSocket ip ds w dst ttl m s.1)
]

send_by_dev-SameTables :
    (dev dst ttl : ℕ) (m : Message) (w : World)
    → Healthy w
    → Gives
        (λ _ w'. SameTables w w')
        (and_then (find_aodv_dev_by_dev dev w) (λ d. send_on d dst ttl m))
unfolding find_aodv_dev_by_dev
send_by_dev-SameTables dev dst ttl m w h = elim (Bool-cases (dev == null)) [
  | inl z ↦ simp z (none_case w dst ttl m)
  | inr z ↦ elim (Option-cases (w.ifa_address dev)) [
    | inl e ↦ simp (z, e) (none_case w dst ttl m)
    | inr (ip, e) ↦ simp (z, e) (dev_walk-HasSocket ip w.aodv_dev_list w dst ttl m h.sockets)
  ]
]

module _ ⦃k : Kernel⦄ where
  -- The end of `send_message`, from the route that it found.
  send_found :
      (dst ttl : ℕ) (m : Message) (w w₁ : World)
      → Kept w w₁
      → Healthy w₁
      → (p : Ptr) (w₂ : World) → Kept w₁ w₂ × IsRouteOrNull p w₂
      → Gives
          (λ _ w'. Kept w w')
          ((if p == null then pure (fail ehostunreach) else do
            r ← load_route p
            tmp_dev ← find_aodv_dev_by_dev r.dev
            send_on tmp_dev dst ttl m)
            w₂)
  send_found dst ttl m w w₁ k h p w₂ (kept, ok) = elim (Bool-cases (p == null)) [
    | inl z ↦ simp z (gives (Kept-trans k kept))
    | inr z ↦ elim ok [
      | inl n ↦ absurd (ground arith)
      | inr is ↦
          let (r, found) = load_route-IsRoute p w₂ is in
          simp (z, found)
            (Gives.weaken (send_by_dev-SameTables r.dev dst ttl m w₂ (Kept-Healthy kept h))
              λ _ w' s. Kept-trans (Kept-trans k kept) (SameTables-Kept s))
    ]
  ]

  pub send_message-Kept :
      (dst ttl : ℕ) (m : Message) (dev : Ptr) (w : World)
      → Healthy w
      → Gives (λ _ w'. Kept w w') (send_message dst ttl m dev w)
  unfolding send_message getcurrtime
  send_message-Kept dst ttl m dev w h =
      let w₁ : World = record w { readings = w.readings + 1 } in
      let k₁ : Kept w w₁ = SameTables-Kept refl in
      elim (Bool-cases (ttl == 0)) [
        | inl z ↦ simp z (gives (Kept-refl w))
        | inr z ↦ elim (Bool-cases (dev == null)) [
          | inr d ↦
              simp (z, d)
                (Gives.weaken (send_by_dev-SameTables dev dst ttl m w₁ (Kept-Healthy k₁ h))
                  λ _ w' s. Kept-trans k₁ (SameTables-Kept s))
          | inl d ↦
              simp (z, d)
                (Gives.bind (find_aodv_route-Kept dst w₁)
                  (send_found dst ttl m w w₁ k₁ (Kept-Healthy k₁ h)))
        ]
      ]
