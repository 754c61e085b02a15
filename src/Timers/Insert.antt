-- ===== src/Timers/Insert.antt =====
-- `insert_timer` and `insert_rreq_timer` of kaodv/src/timer_queue.c, while there is memory.
use mathlib.Core.Path.{subst}
use mobile_cloud_caching.Prelude.{
  ℕ, ◌%◌, ◌<◌, ◌≡◌, ◌≢◌, refl, ap, sym, inl, inr, none, Option-cases, arith, All,
}
use mobile_cloud_caching.Types.{AodvTask, null}
use mobile_cloud_caching.Types.TaskType
use mobile_cloud_caching.Kernel.{Kernel}
use mobile_cloud_caching.World.{World, getcurrtime}
use mobile_cloud_caching.World.Memory.{kmalloc}
use mobile_cloud_caching.World.Gives.{Gives, gives}
use mobile_cloud_caching.World.Healthy.{Healthy}
use mobile_cloud_caching.Tasks.{create_task, blank_task}
use mobile_cloud_caching.Timers.{
  link_timer, queue_timer, insert_timer, insert_rreq_timer, find_walk,
}
use mobile_cloud_caching.Timers.Delete.{find_walk-link_timer}

abbrev pub AllocatedTimers : World → Type 0
AllocatedTimers w = All (λ (t : AodvTask). 0 < t.addr) w.timer_queue

module _ ⦃k : Kernel⦄ where
  pub record Linked (id kind : ℕ) (w w' : World) : Type 0 where
    pub timer : AodvTask
    pub its_id : timer.id ≡ id
    pub its_kind : timer.kind ≡ kind
    pub its_addr : 0 < timer.addr
    pub same : w' ≡ record w {
      timer_queue = link_timer timer w.timer_queue;
      readings = w'.readings;
      allocations = w'.allocations;
    }

  pub insert_rreq_timer-Linked :
      (src_ip dst_ip retries : ℕ) (w : World)
      → w.memory w.allocations ≢ none
      → Gives
          (λ _ w'. Linked dst_ip TaskType.resend_rreq w w')
          (insert_rreq_timer src_ip dst_ip retries w)
  unfolding insert_rreq_timer create_task queue_timer getcurrtime kmalloc blank_task
  insert_rreq_timer-Linked src_ip dst_ip retries w m =
      elim (Option-cases (w.memory w.allocations)) [
        | inl e ↦ absurd (m e)
        | inr (j, e) ↦
            rw (e, insert_rreq_timer, create_task, kmalloc)
              (gives (record {
                timer = _;
                its_id = refl;
                its_kind = refl;
                its_addr = omega arith;
                same = refl;
              }))
      ]

  pub insert_timer-Linked :
      (kind delay ip : ℕ) (w : World)
      → w.memory w.allocations ≢ none
      → Gives (λ _ w'. Linked ip (kind % 256) w w') (insert_timer kind delay ip w)
  unfolding insert_timer create_task queue_timer getcurrtime kmalloc blank_task
  insert_timer-Linked kind delay ip w m = elim (Option-cases (w.memory w.allocations)) [
    | inl e ↦ absurd (m e)
    | inr (j, e) ↦
        rw (e, insert_timer, create_task, kmalloc)
          (gives (record {
            timer = _;
            its_id = refl;
            its_kind = refl;
            its_addr = omega arith;
            same = refl;
          }))
  ]

  -- The new timer is found, or another of its identifier and type is.
  pub find_walk-Linked :
      (id kind : ℕ) (w w' : World)
      → AllocatedTimers w
      → Linked id kind w w'
      → find_walk id kind w'.timer_queue ≢ null
  find_walk-Linked id kind w w' a l =
      let found = find_walk-link_timer l.timer w.timer_queue l.its_addr a in
      subst (λ ts. find_walk id kind ts ≢ null) (sym (ap (λ (x : World). x.timer_queue) l.same))
        (subst (λ n. find_walk id n (link_timer l.timer w.timer_queue) ≢ null) l.its_kind
          (subst (λ n. find_walk n l.timer.kind (link_timer l.timer w.timer_queue) ≢ null) l.its_id
            found))

  pub Linked-Healthy : (id kind : ℕ) (w w' : World) → Linked id kind w w' → Healthy w → Healthy w'
  Linked-Healthy id kind w w' l h = subst Healthy (sym l.same) (record {
    memory = h.memory;
    device = h.device;
    sockets = h.sockets;
    own_route = h.own_route;
  })
