-- ===== src/Rreq/Once.antt =====
-- `recv_rreq` of kaodv/src/rreq.c: the ways out of it, and a request that is received again.
use mathlib.Core.Path.{subst}
use mobile_cloud_caching.Prelude.{
  ℕ, ◌+◌, ◌≤◌, ◌<◌, ◌≡◌, refl, ap, sym, ◌∙◌, leb, true, false, Bool-cases, inl, inr, some,
  Option-cases, List, ◌∷◌, arith,
}
use mobile_cloud_caching.Prelude.Words.{add64}
use mobile_cloud_caching.Types.{FloodId, Rreq, AodvTask, of_rreq}
use mobile_cloud_caching.Types.Const
use mobile_cloud_caching.Kernel.{Kernel, time_before, ntohl}
use mobile_cloud_caching.World.{World, getcurrtime, to_millis, Ret, ret, fail, etimedout}
use mobile_cloud_caching.World.Memory.{kmalloc}
use mobile_cloud_caching.World.Gives
use mobile_cloud_caching.World.Gives.{Gives, gives}
use mobile_cloud_caching.World.Kept.{Kept, Kept-trans}
use mobile_cloud_caching.World.Healthy.{Healthy, Kept-Healthy}
use mobile_cloud_caching.Route.Safe.{SameTables-Kept, find_aodv_route-Kept}
use mobile_cloud_caching.Flood.{find_flood_walk, find_flood_id, insert_flood_id}
use mobile_cloud_caching.Flood.Seen.{find_flood_walk-front}
use mobile_cloud_caching.Neigh.Valid.{valid_aodv_neigh-SameTables}
use mobile_cloud_caching.Update.Safe.{update_aodv_route-Kept}
use mobile_cloud_caching.Rrep.Safe.{gen_rrep-Kept}
use mobile_cloud_caching.Rreq.{convert_rreq_to_host, check_rreq, accept_rreq, recv_rreq}
use mobile_cloud_caching.Rreq.Safe.{reply_to_rreq-Kept, forward_rreq-Kept}

-- A task whose message is the request.
abbrev pub carrying : Rreq → AodvTask → AodvTask
carrying m t = record t { payload = of_rreq m }

-- The world with an entry for a flood.
abbrev pub noted : FloodId → World → World
noted f w = record w { flood_id_queue = f ∷ w.flood_id_queue }

abbrev pub Notes : FloodId → World → Ret → World → Type 0
Notes f w a w' = (a ≡ ret 0) × Kept (noted f w) w'

pub insert_flood_id-Notes :
    (src dst id lt : ℕ) (w : World)
    → Healthy w
    → Gives
        (Notes (record { src_ip = src; dst_ip = dst; id = id; lifetime = lt }) w)
        (insert_flood_id src dst id lt w)
unfolding insert_flood_id kmalloc
insert_flood_id-Notes src dst id lt w h = elim (Option-cases (w.memory w.allocations)) [
  | inl e ↦ absurd (h.memory _ e)
  | inr (j, e) ↦ rw (e, insert_flood_id, kmalloc) (gives (refl, SameTables-Kept refl))
]

pub noted-Kept : (f : FloodId) (w w' : World) → Kept w w' → Kept (noted f w) (noted f w')
noted-Kept f w w' k = record { same = ap {A = World} {B = World} (noted f) k.same; alive = k.alive }

pub noted-Healthy : (f : FloodId) (w : World) → Healthy w → Healthy (noted f w)
noted-Healthy f w h = record {
  memory = h.memory;
  device = h.device;
  sockets = h.sockets;
  own_route = h.own_route;
}

module _ ⦃k : Kernel⦄ where
  -- The entry that `recv_rreq` makes for a request.
  abbrev pub entry_of : Rreq → ℕ → FloodId
  entry_of m now = record {
    src_ip = m.src_ip;
    dst_ip = m.dst_ip;
    id = ntohl m.rreq_id;
    lifetime = add64 now Const.path_discovery_time;
  }

  accept_rreq-Notes :
      (t : AodvTask) (m : Rreq) (now : ℕ) (w : World)
      → Healthy w
      → Gives (Notes (entry_of m now) w) (accept_rreq t (convert_rreq_to_host m) now w)
  unfolding accept_rreq convert_rreq_to_host
  accept_rreq-Notes t m now w h = Gives.bind (update_aodv_route-Kept _ _ _ _ _ w h) λ _ w₁ k₁.
      let h₁ = Kept-Healthy k₁ h in
      Gives.bind (insert_flood_id-Notes _ _ _ _ w₁ h₁) λ _ w₂ (_, k₂).
        let h₂ = Kept-Healthy k₂ (noted-Healthy _ w₁ h₁) in
        let k₁₂ = Kept-trans (noted-Kept _ w w₁ k₁) k₂ in
        Gives.bind (reply_to_rreq-Kept _ w₂ h₂) λ reply w₃ k₃.
          let k₁₃ = Kept-trans k₁₂ k₃ in
          let h₃ = Kept-Healthy k₃ h₂ in
          elim (Bool-cases reply) [
            | inl e ↦
                simp e
                  (Gives.bind (gen_rrep-Kept _ _ w₃ h₃) λ _ w₄ k₄. gives (refl, Kept-trans k₁₃ k₄))
            | inr e ↦ simp e (
                Gives.bind (forward_rreq-Kept _ _ w₃ h₃) λ _ w₄ k₄. gives (refl, Kept-trans k₁₃ k₄))
          ]

  -- What receiving a request comes to: it has run out of hops; or it was seen or no valid neighbour
  -- sent it; or its flood is noted. Beyond that only routes and the log change.
  pub data Received (ttl : ℕ) (f : FloodId) (w : World) : Ret → World → Type 0 where
    expired :
        leb ttl 1 ≡ true
        → Received ttl f w (fail etimedout) (record w { readings = w.readings + 1 })
    refused : {w' : World} → leb ttl 1 ≡ false → Kept w w' → Received ttl f w (ret 1) w'
    accepted : {w' : World} → leb ttl 1 ≡ false → Kept (noted f w) w' → Received ttl f w (ret 0) w'

  check_rreq-Kept :
      (m : Rreq) (last_hop : ℕ) (w : World) → Gives (λ _ w'. Kept w w') (check_rreq m last_hop w)
  unfolding check_rreq find_flood_id getcurrtime
  check_rreq-Kept m last_hop w =
      elim (Option-cases
        (find_flood_walk m.src_ip m.rreq_id (to_millis (w.clock w.readings)) w.flood_id_queue)) [
          | inr (f, e) ↦ simp e (gives (SameTables-Kept refl))
          | inl e ↦ simp e (
              Gives.bind (find_aodv_route-Kept m.src_ip _) λ _ w₁ (k₁, _).
                Gives.weaken (valid_aodv_neigh-SameTables last_hop w₁)
                  λ _ w₂ s₂. Kept-trans (SameTables-Kept refl) (Kept-trans k₁ (SameTables-Kept s₂)))
        ]

  -- In a healthy world `recv_rreq` meets no oops, and one of three things comes of a request: its
  -- time to live is at most 1, the result is -ETIMEDOUT, and only a reading was made; or the result
  -- is 1, and only routes, readings, allocations, socket requests and the log differ; or the result
  -- is 0, and besides those the flood's entry, with its lifetime, is the new front of the flood
  -- queue. No route that a pointer led to is lost.
  pub recv_rreq-Received :
      (t : AodvTask) (m : Rreq) (w : World)
      → Healthy w
      → Gives
          (Received t.ttl (entry_of m (to_millis (w.clock w.readings))) w)
          (recv_rreq (carrying m t) w)
  unfolding recv_rreq getcurrtime
  recv_rreq-Received t m w h =
      let now = to_millis (w.clock w.readings) in
      let w₁ : World = record w { readings = w.readings + 1 } in
      let k₁ : Kept w w₁ = SameTables-Kept refl in
      elim (Bool-cases (leb t.ttl 1)) [
        | inl e ↦ simp e (gives (Received.expired e))
        | inr e ↦ simp e (
            Gives.bind (check_rreq-Kept (convert_rreq_to_host m) t.src_ip w₁) λ b w₂ k₂.
              let k₁₂ = Kept-trans k₁ k₂ in
              elim (Bool-cases b) [
                | inr bad ↦ simp bad (gives (Received.refused e k₁₂))
                | inl good ↦ simp good (
                    Gives.weaken (accept_rreq-Notes (carrying m t) m now w₂ (Kept-Healthy k₁₂ h))
                      λ a w₃ (z, k₃).
                        let k' = Kept-trans (noted-Kept _ w w₂ k₁₂) k₃ in
                        subst (λ a. Received t.ttl (entry_of m now) w a w₃) (sym z)
                          (Received.accepted e k'))
              ])
      ]

  Received-noted :
      {ttl : ℕ} {f : FloodId} {w w' : World}
      → Received ttl f w (ret 0) w'
      → w'.flood_id_queue ≡ f ∷ w.flood_id_queue
  Received-noted (Received.accepted e k) = ap (λ (x : World). x.flood_id_queue) k.same

  recv_rreq-noted :
      (t : AodvTask) (m : Rreq) (w w' : World)
      → Healthy w
      → recv_rreq (carrying m t) w ≡ some (ret 0, w')
      → w'.flood_id_queue ≡ entry_of m (to_millis (w.clock w.readings)) ∷ w.flood_id_queue
  recv_rreq-noted t m w w' h e = elim (subst (Gives _) e (recv_rreq-Received t m w h)) [
    | gives r ↦ Received-noted r
  ]

  -- A request whose flood is in front of the queue, and has not expired, is turned down.
  recv_rreq-seen :
      (t : AodvTask) (m : Rreq) (f : FloodId) (fs : List FloodId) (w : World)
      → w.flood_id_queue ≡ f ∷ fs
      → f.src_ip ≡ m.src_ip
      → f.id ≡ ntohl m.rreq_id
      → time_before f.lifetime (to_millis (w.clock (w.readings + 1))) ≡ false
      → 1 < t.ttl
      → recv_rreq (carrying m t) w ≡ some (ret 1, record w { readings = w.readings + 1 + 1 })
  unfolding recv_rreq getcurrtime check_rreq find_flood_id convert_rreq_to_host
  recv_rreq-seen t m f fs w queue src id alive hops =
      let large : leb t.ttl 1 ≡ false = ground arith in
      let found = find_flood_walk-front (to_millis (w.clock (w.readings + 1))) f fs alive in
      simp (large, queue, sym src, sym id, found)

  -- In a healthy world (where allocations succeed, a device exists, each has a socket and the
  -- node's own route is there), if `recv_rreq` takes a request (it returns 0), then a request with
  -- the same source and identifier that is received next, over any hop and with a time to live
  -- above 1, at most PATH_DISCOVERY_TIME later and no earlier, is turned down: the result is 1, and
  -- only two readings of the clock differ. The clock is at a distance from the end of 64 bits.
  pub recv_rreq-once :
      (t t' : AodvTask) (m m' : Rreq) (w w' : World)
      → Healthy w
      → recv_rreq (carrying m t) w ≡ some (ret 0, w')
      → m'.src_ip ≡ m.src_ip
      → m'.rreq_id ≡ m.rreq_id
      → 1 < t'.ttl
      → to_millis (w.clock w.readings) ≤ to_millis (w'.clock (w'.readings + 1))
      → to_millis (w'.clock (w'.readings + 1))
        ≤ to_millis (w.clock w.readings) + Const.path_discovery_time
      → to_millis (w.clock w.readings) < 18_446_744_073_709_550_000
      → recv_rreq (carrying m' t') w' ≡ some (ret 1, record w' { readings = w'.readings + 1 + 1 })
  recv_rreq-once t t' m m' w w' h first src id hops later soon range =
      let lifetime = add64 (to_millis (w.clock w.readings)) Const.path_discovery_time in
      let now = to_millis (w'.clock (w'.readings + 1)) in
      let alive = k.time_after_window now lifetime (omega arith) (omega arith) ∙ ground arith in
      recv_rreq-seen t' m' _ _ w' (recv_rreq-noted t m w w' h first) (sym src)
        (ap (λ x. ntohl x) (sym id)) alive hops
