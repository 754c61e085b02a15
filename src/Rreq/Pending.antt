-- ===== src/Rreq/Pending.antt =====
-- `gen_rreq` of kaodv/src/rreq.c and the timer that repeats the request.
use mobile_cloud_caching.Route.{find_aodv_route}
use mathlib.Core.Path.{subst}
use mobile_cloud_caching.Prelude.{
  ℕ, ◌+◌, ◌∙◌, ◌≡◌, ◌≢◌, refl, ap, sym, ◌==◌, if◌then◌else◌, Bool, true, false, Bool-cases, inl,
  inr, none, some, arith,
}
use mobile_cloud_caching.Prelude.Words.{add64}
use mobile_cloud_caching.Device.{local_broadcast}
use mobile_cloud_caching.Types.{Message, Ptr, null}
use mobile_cloud_caching.Types.Const
use mobile_cloud_caching.Types.TaskType
use mobile_cloud_caching.Kernel.{Kernel}
use mobile_cloud_caching.World.{
  World, getcurrtime, pure, ◌>>=◌, ◌>>◌, Ret, ret, fail, ehostunreach, enomem,
}
use mobile_cloud_caching.World.Memory.{kmalloc-memory, load_route}
use mobile_cloud_caching.World.Gives
use mobile_cloud_caching.World.Gives.{Gives, gives}
use mobile_cloud_caching.World.Frame.{SameTables, SameTables-trans}
use mobile_cloud_caching.World.Kept.{
  Kept, Kept-refl, Kept-trans, load_route-IsRoute, set_route-Kept,
}
use mobile_cloud_caching.World.Healthy.{Healthy, Kept-Healthy}
use mobile_cloud_caching.Route.Safe.{SameTables-Kept, find_aodv_route-Kept, IsRouteOrNull}
use mobile_cloud_caching.Flood.{insert_flood_id}
use mobile_cloud_caching.Timers.{find_walk, find_timer, insert_rreq_timer, update_timer_queue}
use mobile_cloud_caching.Timers.Insert.{
  AllocatedTimers, insert_rreq_timer-Linked, find_walk-Linked, Linked-Healthy,
}
use mobile_cloud_caching.Timers.Signal.{update_timer_queue-SameTables}
use mobile_cloud_caching.Device.Safe.{local_broadcast-SameTables}
use mobile_cloud_caching.Rreq.Once.{noted-Healthy, insert_flood_id-Notes}
use mobile_cloud_caching.Rreq.{issue_rreq, gen_rreq}

-- A request for the destination waits to be repeated.
abbrev pub IsPending : ℕ → World → Type 0
IsPending dst_ip w = find_walk dst_ip TaskType.resend_rreq w.timer_queue ≢ null

timers-SameTables : (w w' : World) → SameTables w w' → w'.timer_queue ≡ w.timer_queue
timers-SameTables w w' s = ap (λ (x : World). x.timer_queue) s

module _ ⦃k : Kernel⦄ where
  -- The request failed since a search for a route of the node's own came back empty, or it waits to
  -- be repeated.
  pub data Issued (src_ip dst_ip : ℕ) (w : World) : Ret → World → Type 0 where
    unrouted :
        {w₁ w' : World}
        → Kept w w₁
        → find_aodv_route src_ip w₁ ≡ some (null, w')
        → Issued src_ip dst_ip w (fail ehostunreach) w'
    repeats : {w' : World} → IsPending dst_ip w' → Issued src_ip dst_ip w (ret 0) w'

  Issued-IsPending :
      {src_ip dst_ip : ℕ} {w w' : World} → Issued src_ip dst_ip w (ret 0) w' → IsPending dst_ip w'
  Issued-IsPending (Issued.repeats i) = i

  Issued-earlier :
      {src_ip dst_ip : ℕ} {w w₁ w' : World} {a : Ret}
      → Kept w w₁
      → Issued src_ip dst_ip w₁ a w'
      → Issued src_ip dst_ip w a w'
  Issued-earlier k₁ (Issued.unrouted k₂ none_found) = Issued.unrouted (Kept-trans k₁ k₂) none_found
  Issued-earlier k₁ (Issued.repeats i) = Issued.repeats i

  dst_seq-Kept :
      (p : Ptr) (w : World)
      → IsRouteOrNull p w
      → Gives
          (λ _ w'. Kept w w')
          ((if p == null then pure none else do r ← load_route p; pure (some r.seq)) w)
  dst_seq-Kept p w ok = elim (Bool-cases (p == null)) [
    | inl z ↦ simp z (gives (Kept-refl w))
    | inr z ↦ elim ok [
      | inl n ↦ absurd (ground arith)
      | inr is ↦ let (r, found) = load_route-IsRoute p w is in simp (z, found) (gives (Kept-refl w))
    ]
  ]

  pub AllocatedTimers-Kept : (w w' : World) → Kept w w' → AllocatedTimers w → AllocatedTimers w'
  AllocatedTimers-Kept w w' k a = subst AllocatedTimers (sym k.same) a

  -- The calls behind the entry of the flood.
  armed-IsPending :
      (src_ip dst_ip retries : ℕ) (m : Message) (w : World)
      → Healthy w
      → AllocatedTimers w
      → Gives
          (λ a w'. (a ≡ ret 0) × IsPending dst_ip w')
          ((do
            insert_rreq_timer src_ip dst_ip retries
            update_timer_queue
            local_broadcast Const.net_diameter m
            pure (ret 0))
            w)
  armed-IsPending src_ip dst_ip retries m w h a =
      Gives.bind (insert_rreq_timer-Linked src_ip dst_ip retries w (h.memory _)) λ _ w₁ l.
        let pending = find_walk-Linked dst_ip TaskType.resend_rreq w w₁ a l in
        Gives.bind (update_timer_queue-SameTables w₁) λ _ w₂ s₂.
          let h₂ = Kept-Healthy (SameTables-Kept s₂) (Linked-Healthy _ _ w w₁ l h) in
          Gives.bind (local_broadcast-SameTables _ m w₂ h₂) λ _ w₃ s₃.
            gives (refl, subst (IsPending dst_ip) (sym (SameTables-trans w₁ w₂ w₃ s₂ s₃)) pending)

  noted_request-IsPending :
      (src_ip dst_ip id retries : ℕ) (m : Message) (w : World)
      → Healthy w
      → AllocatedTimers w
      → Gives
          (λ a w'. (a ≡ ret 0) × IsPending dst_ip w')
          ((do
            now ← getcurrtime
            inserted ← insert_flood_id src_ip dst_ip id (add64 now Const.path_discovery_time)
            elim inserted [
              | fail _ ↦ pure (fail enomem)
              | ret _ ↦ do
                insert_rreq_timer src_ip dst_ip retries
                update_timer_queue
                local_broadcast Const.net_diameter m
                pure (ret 0)
            ])
            w)
  unfolding getcurrtime
  noted_request-IsPending src_ip dst_ip id retries m w h a =
      let k₁ : Kept w (record w { readings = w.readings + 1 }) = SameTables-Kept refl in
      Gives.bind (insert_flood_id-Notes src_ip dst_ip id _ _ (Kept-Healthy k₁ h)) λ b w₂ (z, k₂).
        simp z (
          armed-IsPending src_ip dst_ip retries m w₂
            (Kept-Healthy k₂ (noted-Healthy _ _ (Kept-Healthy k₁ h)))
            (AllocatedTimers-Kept _ w₂ k₂ a))

  issue_rreq-Issued :
      (d : Bool) (src_ip dst_ip retries : ℕ) (w : World)
      → Healthy w
      → AllocatedTimers w
      → Gives (Issued src_ip dst_ip w) (issue_rreq d src_ip dst_ip retries w)
  unfolding issue_rreq getcurrtime
  issue_rreq-Issued d src_ip dst_ip retries w h a =
      Gives.bind (find_aodv_route-Kept dst_ip w) λ p w₁ (k₁, ok₁).
        Gives.bind (dst_seq-Kept p w₁ ok₁) λ seq w₂ k₂.
          Gives.bind (Gives.remember (find_aodv_route-Kept src_ip w₂)) λ q w₃ ((k₃, ok₃), found₃).
            let k₁₃ = Kept-trans (Kept-trans k₁ k₂) k₃ in
            elim (Bool-cases (q == null)) [
              | inl z ↦
                  let empty : q ≡ null = ground arith in
                  simp z (
                    gives
                      (Issued.unrouted (Kept-trans k₁ k₂) (found₃ ∙ ap (λ x. some (x, w₃)) empty)))
              | inr z ↦ elim ok₃ [
                | inl n ↦ absurd (ground arith)
                | inr is ↦ simp z (
                    Gives.bind (set_route-Kept q _ w₃ (λ r. refl) is) λ _ w₄ k₄.
                      let (own, found) = load_route-IsRoute q w₄ (k₄.alive q is) in
                      simp found (
                        Gives.weaken
                          (noted_request-IsPending src_ip dst_ip own.rreq_id retries _ w₄
                            (Kept-Healthy (Kept-trans k₁₃ k₄) h)
                            (AllocatedTimers-Kept w w₄ (Kept-trans k₁₃ k₄) a))
                          (λ _ w₅ (z, i).
                            subst (λ b. Issued src_ip dst_ip w b w₅) (sym z) (Issued.repeats i))))
              ]
            ]

  pub gen_rreq-Issued :
      (src_ip dst_ip : ℕ) (w : World)
      → Healthy w
      → AllocatedTimers w
      → Gives (Issued src_ip dst_ip w) (gen_rreq src_ip dst_ip w)
  unfolding gen_rreq find_timer
  gen_rreq-Issued src_ip dst_ip w h a =
      elim (Bool-cases (find_walk dst_ip TaskType.resend_rreq w.timer_queue == null)) [
        | inr e ↦ simp e (gives (Issued.repeats (ground arith)))
        | inl e ↦
            let w₂ : World = record w { allocations = w.allocations + 1 + 1 } in
            let k₂ : Kept w w₂ = SameTables-Kept refl in
            let (b₁, m₁) = kmalloc-memory w (h.memory _) in
            let (b₂, m₂) =
              kmalloc-memory (record w { allocations = w.allocations + 1 }) (h.memory _) in
            simp (e, m₁, m₂)
              (Gives.weaken
                (issue_rreq-Issued true src_ip dst_ip Const.rreq_retries w₂ (Kept-Healthy k₂ h) a)
                (λ _ _ i. Issued-earlier k₂ i))
      ]

  -- In a healthy world whose timers lie at addresses that are not null, if `gen_rreq` for a
  -- destination returns 0, then the timer that repeats the request is in the queue, and a further
  -- call for the destination, from whatever source, returns 0 and changes nothing.
  pub gen_rreq-once :
      (src_ip src_ip' dst_ip : ℕ) (w w' : World)
      → Healthy w
      → AllocatedTimers w
      → gen_rreq src_ip dst_ip w ≡ some (ret 0, w')
      → IsPending dst_ip w' × (gen_rreq src_ip' dst_ip w' ≡ some (ret 0, w'))
  unfolding gen_rreq find_timer
  gen_rreq-once src_ip src_ip' dst_ip w w' h a e =
      elim (subst (Gives _) e (gen_rreq-Issued src_ip dst_ip w h a)) [
        | gives i ↦
            let pending = Issued-IsPending i in
            let z : (find_walk dst_ip TaskType.resend_rreq w'.timer_queue == null) ≡ false =
              ground (arith, pending) in
            (pending, simp z)
      ]
