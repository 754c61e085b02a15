-- ===== src/Hello/Rearm.antt =====
-- `send_hello` of kaodv/src/hello.c and the timer of the next hello message.
use mathlib.Core.Path.{subst}
use mobile_cloud_caching.Prelude.{◌+◌, ◌≡◌, ◌≢◌, refl, sym, ap, ◌∙◌, inl, inr, Option-cases}
use mobile_cloud_caching.Types.{null}
use mobile_cloud_caching.Types.TaskType
use mobile_cloud_caching.Kernel.{Kernel}
use mobile_cloud_caching.World.{World}
use mobile_cloud_caching.World.Memory.{kmalloc}
use mobile_cloud_caching.World.Gives
use mobile_cloud_caching.World.Gives.{Gives, gives}
use mobile_cloud_caching.World.Kept.{load_route-IsRoute}
use mobile_cloud_caching.World.Healthy.{Healthy, Kept-Healthy}
use mobile_cloud_caching.Route.Safe.{SameTables-Kept}
use mobile_cloud_caching.Device.Safe.{local_broadcast-SameTables}
use mobile_cloud_caching.Timers.{find_walk}
use mobile_cloud_caching.Timers.Insert.{AllocatedTimers, insert_timer-Linked, find_walk-Linked}
use mobile_cloud_caching.Timers.Signal.{update_timer_queue-SameTables}
use mobile_cloud_caching.Hello.{send_hello}

-- The timer of the next hello message is in the queue.
abbrev pub IsArmed : World → Type 0
IsArmed w = find_walk w.g_my_ip TaskType.hello w.timer_queue ≢ null

module _ ⦃k : Kernel⦄ where
  -- In a healthy world whose timers lie at addresses that are not null, `send_hello` meets no oops,
  -- and after it the timer of the next hello message is in the queue.
  pub send_hello-IsArmed :
      (w : World) → Healthy w → AllocatedTimers w → Gives (λ _ w'. IsArmed w') (send_hello w)
  unfolding send_hello kmalloc
  send_hello-IsArmed w h a = elim (Option-cases (w.memory w.allocations)) [
    | inl e ↦ absurd (h.memory _ e)
    | inr (j, e) ↦
        let w₁ : World = record w { allocations = w.allocations + 1 } in
        let h₁ = Kept-Healthy (SameTables-Kept refl) h in
        let (own, found) = load_route-IsRoute w.g_my_route w₁ h₁.own_route in
        rw (e, send_hello, kmalloc)
          (simp found (
            Gives.bind (local_broadcast-SameTables 1 _ w₁ h₁) λ _ w₂ s₂.
              let h₂ = Kept-Healthy (SameTables-Kept s₂) h₁ in
              Gives.bind (insert_timer-Linked TaskType.hello _ _ w₂ (h₂.memory _)) λ _ w₃ l.
                let ip : w₃.g_my_ip ≡ w.g_my_ip =
                  ap (λ (x : World). x.g_my_ip) l.same ∙ ap (λ (x : World). x.g_my_ip) s₂ in
                let found = find_walk-Linked _ _ w₂ w₃ (subst AllocatedTimers (sym s₂) a) l in
                let armed : IsArmed w₃ =
                  subst (λ n. find_walk n TaskType.hello w₃.timer_queue ≢ null) (sym ip) found in
                Gives.bind (update_timer_queue-SameTables w₃)
                  λ _ w₄ s₄. gives (subst IsArmed (sym s₄) armed)))
  ]
