-- ===== src/Caching/Timer.antt =====
-- caching/src/cTimer.c: the tasks that wait for a time, the earliest first, and the kernel timer that
-- is armed for the first of them.
pub mod Queued
use mobile_cloud_caching.Prelude.{
  ℕ, ◌+◌, ◌-◌, ◌*◌, ◌/◌, ◌%◌, if◌then◌else◌, none, some, List, [], ◌∷◌,
}
use mobile_cloud_caching.Prelude.Words.{add64}
use mobile_cloud_caching.Prelude.Commands.{pure, ◌>>=◌, ◌>>◌, get, modify}
use mobile_cloud_caching.Kernel.{Kernel, time_after, time_before, time_before_eq}
use mobile_cloud_caching.Caching.Types.{CTask}
use mobile_cloud_caching.Caching.State.{Cmd, getcurrtime, emit, Event, Ret, ret, fail, enomem}
use mobile_cloud_caching.Caching.Task.{create_task, insert_task_from_timer}

module _ ⦃k : Kernel⦄ where
  -- The links that `queue_timer` makes: in front of the first task that the new one is not after.
  unfoldable pub link_timer : CTask → List CTask → List CTask
  link_timer new_timer [] = new_timer ∷ []
  link_timer new_timer (t ∷ ts) =
      if time_after new_timer.time t.time then t ∷ link_timer new_timer ts else new_timer ∷ t ∷ ts

  unfoldable pub queue_timer : CTask → Cmd (Unit {0})
  unfolding link_timer getcurrtime
  queue_timer new_timer = do
    getcurrtime
    modify λ s. record s { timer_queue = link_timer new_timer s.timer_queue }

  unfoldable pub insert_timer : ℕ → ℕ → ℕ → ℕ → ℕ → Cmd Ret
  unfolding create_task queue_timer
  insert_timer task_type delay ip file_id frag_id = do
    new_entry ← create_task (task_type % 256)
    elim new_entry [
      | none ↦ pure (fail enomem)
      | some t ↦ do
        now ← getcurrtime
        queue_timer (record t {
          src_ip = ip;
          dst_ip = ip;
          file_id = file_id;
          frag_id = frag_id;
          time = add64 now delay;
        })
        pure (ret 0)
    ]

  -- The delay from a reading of the clock until a time, in seconds and microseconds.
  unfoldable pub delay_parts : ℕ → ℕ → ℕ × ℕ
  delay_parts now time =
      if time_before time now
      then (0, 1)
      else (let numerator =
            (time + 18_446_744_073_709_551_616 - now) % 18_446_744_073_709_551_616 in
          (numerator / 1000, numerator % 1000 * 1000))

  unfoldable pub update_timer_queue : Cmd (Unit {0})
  unfolding delay_parts getcurrtime
  update_timer_queue = do
    s ← get
    elim s.timer_queue [
      | [] ↦ emit Event.timer_deleted
      | t ∷ _ ↦ do
        currtime ← getcurrtime
        let parts = delay_parts currtime t.time
        emit (Event.timer_armed parts.0 parts.1)
    ]

  -- The calls of `first_timer_due` and `insert_task_from_timer`, until a call finds nothing due. What
  -- is left of the queue is the result.
  unfoldable pub signal_loop : ℕ → List CTask → Cmd (List CTask)
  unfolding insert_task_from_timer
  signal_loop currtime [] = pure []
  signal_loop currtime (t ∷ ts) =
      let due_case : Cmd (List CTask) = do insert_task_from_timer (some t); signal_loop currtime ts
      in if time_before_eq t.time currtime then due_case else pure (t ∷ ts)

  unfoldable pub timer_queue_signal : Cmd (Unit {0})
  unfolding signal_loop update_timer_queue
  timer_queue_signal = do
    currtime ← getcurrtime
    s ← get
    rest ← signal_loop currtime s.timer_queue
    modify λ s'. record s' { timer_queue = rest }
    update_timer_queue
