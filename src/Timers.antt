-- ===== src/Timers.antt =====
-- kaodv/src/timer_queue.c: the tasks that wait for a time, the earliest first, and the kernel timer
-- that is armed for the first of them.
pub mod Order
pub mod Signal
pub mod Insert
pub mod Delete
use mobile_cloud_caching.Prelude.{
  ℕ, ◌+◌, ◌-◌, ◌*◌, ◌/◌, ◌%◌, leb, ◌==◌, if◌then◌else◌, bit_xor, Bool, true, false, ◌&&◌, Option,
  none, some, List, [], ◌∷◌,
}
use mobile_cloud_caching.Prelude.Words.{add64}
use mobile_cloud_caching.Types.{Ptr, null, AodvTask}
use mobile_cloud_caching.Types.Const
use mobile_cloud_caching.Types.TaskType
use mobile_cloud_caching.Kernel.{Kernel, time_after, time_before, time_before_eq}
use mobile_cloud_caching.World.{
  World, Cmd, pure, ◌>>=◌, ◌>>◌, get, modify, emit, Event, Ret, ret, fail, enomem, getcurrtime,
}
use mobile_cloud_caching.Tasks.{create_task, insert_task_from_timer}

unfoldable pub is_timer : ℕ → ℕ → AodvTask → Bool
is_timer id kind t = (t.id == id) && (t.kind == kind)

-- The walk of `find_timer`: the address of the first match, or null.
unfoldable pub find_walk : ℕ → ℕ → List AodvTask → Ptr
unfolding is_timer
find_walk id kind [] = null
find_walk id kind (t ∷ ts) = if is_timer id kind t then t.addr else find_walk id kind ts

unfoldable pub find_timer : ℕ → ℕ → Cmd Ptr
unfolding find_walk
find_timer id kind w = some (find_walk id kind w.timer_queue, w)

-- The walk of `delete_timer`: every match is unlinked and freed.
unfoldable pub delete_matches : ℕ → ℕ → List AodvTask → List AodvTask
unfolding is_timer
delete_matches id kind [] = []
delete_matches id kind (t ∷ ts) =
    let rest = delete_matches id kind ts in if is_timer id kind t then rest else t ∷ rest

unfoldable pub delete_timer : ℕ → ℕ → Cmd (Unit {0})
unfolding delete_matches
delete_timer id kind = modify λ w. record w { timer_queue = delete_matches id kind w.timer_queue }

-- The delay of `insert_rreq_timer`, an `int`: in C the `^` is the exclusive or.
unfoldable pub rreq_delay : ℕ → ℕ
rreq_delay retries =
    let factor = bit_xor 2 ((4_294_967_296 + Const.rreq_retries - retries) % 4_294_967_296) in
    factor * Const.net_traversal_time % 4_294_967_296

-- An `int` as it is added to a `u_int64_t`.
abbrev pub sign_extend : ℕ → ℕ
sign_extend x = if leb 2_147_483_648 x then x + 18_446_744_069_414_584_320 else x

module _ ⦃k : Kernel⦄ where
  -- The links that `queue_timer` makes: in front of the first task that the new one is not after.
  unfoldable pub link_timer : AodvTask → List AodvTask → List AodvTask
  link_timer new_timer [] = new_timer ∷ []
  link_timer new_timer (t ∷ ts) =
      if time_after new_timer.time t.time then t ∷ link_timer new_timer ts else new_timer ∷ t ∷ ts

  unfoldable pub queue_timer : AodvTask → Cmd (Unit {0})
  unfolding link_timer getcurrtime
  queue_timer new_timer = do
    getcurrtime
    modify λ w. record w { timer_queue = link_timer new_timer w.timer_queue }

  unfoldable pub insert_timer : ℕ → ℕ → ℕ → Cmd Ret
  unfolding create_task queue_timer
  insert_timer task_type delay ip = do
    new_entry ← create_task (task_type % 256)
    elim new_entry [
      | none ↦ pure (fail enomem)
      | some t ↦ do
        now ← getcurrtime
        queue_timer (record t { src_ip = ip; dst_ip = ip; id = ip; time = add64 now delay })
        pure (ret 0)
    ]

  unfoldable pub insert_rreq_timer : ℕ → ℕ → ℕ → Cmd Ret
  unfolding create_task queue_timer rreq_delay
  insert_rreq_timer src_ip dst_ip retries = do
    new_timer ← create_task TaskType.resend_rreq
    elim new_timer [
      | none ↦ pure (fail enomem)
      | some t ↦ do
        now ← getcurrtime
        queue_timer (record t {
          src_ip = src_ip;
          dst_ip = dst_ip;
          id = dst_ip;
          retries = retries;
          ttl = 30;
          time = add64 now (sign_extend (rreq_delay retries));
        })
        pure (ret 0)
    ]

  -- Seconds and microseconds from a reading of the clock until a time, as two parts of the delay.
  unfoldable pub delay_parts : ℕ → ℕ → ℕ × ℕ
  delay_parts now time =
      if time_before time now
      then (0, 1)
      else (let numerator =
            (time + 18_446_744_073_709_551_616 - now) % 18_446_744_073_709_551_616 in
          (numerator / 1000, numerator % 1000 * 1000))

  unfoldable pub update_timer_queue : Cmd (Unit {0})
  unfolding delay_parts getcurrtime
  update_timer_queue = do
    w ← get
    elim w.timer_queue [
      | [] ↦ emit Event.timer_deleted
      | t ∷ _ ↦ do
        currtime ← getcurrtime
        let parts = delay_parts currtime t.time
        emit (Event.timer_armed parts.0 parts.1)
    ]

  -- The calls of `first_timer_due` and `insert_task_from_timer`, until a call finds nothing due. The
  -- list is the timer queue; what is left of it is the result.
  unfoldable pub signal_loop : ℕ → List AodvTask → Cmd (List AodvTask)
  unfolding insert_task_from_timer
  signal_loop currtime [] = pure []
  signal_loop currtime (t ∷ ts) =
      let due_case : Cmd (List AodvTask) = do insert_task_from_timer t; signal_loop currtime ts
      in if time_before_eq t.time currtime then due_case else pure (t ∷ ts)

  unfoldable pub timer_queue_signal : Cmd (Unit {0})
  unfolding signal_loop update_timer_queue
  timer_queue_signal = do
    currtime ← getcurrtime
    w ← get
    rest ← signal_loop currtime w.timer_queue
    modify λ w. record w { timer_queue = rest }
    update_timer_queue
