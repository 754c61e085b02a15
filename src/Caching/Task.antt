-- ===== src/Caching/Task.antt =====
-- caching/src/cTask.c: the queue between the network and the timer on one side and the daemon's
-- thread on the other. New tasks are linked in front, and the thread takes the one at `task_end`.
use mobile_cloud_caching.Prelude.{
  ℕ, ◌-◌, ltb, ◌==◌, if◌then◌else◌, Option, none, some, List, [], ◌∷◌,
}
use mobile_cloud_caching.Prelude.Commands.{pure, ◌>>=◌, ◌>>◌, modify}
use mobile_cloud_caching.Types.{Ptr, null}
use mobile_cloud_caching.Caching.Types.{CTask, Message, nothing}
use mobile_cloud_caching.Caching.State.{
  TaskQueue, Cmd, kmalloc, getcurrtime, emit, Event, Ret, ret, fail, enomem,
}

unfoldable pub blank_task : Ptr → ℕ → ℕ → CTask
blank_task addr now kind = record {
  addr = addr;
  kind = kind;
  time = now;
  dst_ip = 0;
  src_ip = 0;
  file_id = 0;
  frag_id = 0;
  ttl = 0;
  data_len = 0;
  payload = nothing;
}

unfoldable pub create_task : ℕ → Cmd (Option CTask)
unfolding kmalloc blank_task getcurrtime
create_task kind = do
  block ← kmalloc
  elim block [
    | none ↦ pure none
    | some addr ↦ do now ← getcurrtime; pure (some (blank_task addr now kind))
  ]

unfoldable pub init_task_queue : TaskQueue → TaskQueue
init_task_queue q = record q { items = []; task_end = null; behind = [] }

-- In front of an empty queue the new task's `next` is null, so nothing lies behind it.
unfoldable pub link_task : CTask → TaskQueue → TaskQueue
link_task new_entry q = record q {
  items = new_entry ∷ q.items;
  task_end = if q.task_end == null then new_entry.addr else q.task_end;
  behind = elim q.items [ [] ↦ [] | _ ∷ _ ↦ q.behind ];
}

unfoldable pub queue_task : CTask → Cmd Ret
unfolding link_task
queue_task new_entry = do
  modify λ s. record s { task_queue = link_task new_entry s.task_queue }
  emit Event.kicked
  pure (ret 0)

-- The last task by the `next` links, and the ones in front of it.
unfoldable pub split_last : List CTask → Option (List CTask × CTask)
split_last [] = none
split_last (t ∷ ts) = elim (split_last ts) [
  | none ↦ some ([], t)
  | some (front, last) ↦ some (t ∷ front, last)
]

unfoldable pub last_addr : List CTask → Ptr
last_addr [] = null
last_addr (t ∷ []) = t.addr
last_addr (t ∷ u ∷ ts) = last_addr (u ∷ ts)

-- What `get_task` does to the queue. The outer `none` is a `task_end` that leads to no task.
unfoldable pub take_task : TaskQueue → Option (Option CTask × TaskQueue)
unfolding split_last last_addr
take_task q = if q.task_end == null then some (none, q) else elim (split_last q.items) [
  | none ↦ none
  | some ([], last) ↦
      if last.addr == q.task_end
      then some (some last, record q { items = []; task_end = null; behind = [] })
      else none
  | some (t ∷ front, last) ↦
      if last.addr == q.task_end
      then some (
        some last,
        record q {
          items = t ∷ front;
          task_end = last_addr (t ∷ front);
          behind = last.addr ∷ q.behind;
        },
      )
      else none
]

unfoldable pub get_task : Cmd (Option CTask)
unfolding take_task
get_task s = elim (take_task s.task_queue) [
  | none ↦ none
  | some (t, q) ↦ some (t, record s { task_queue = q })
]

-- To walk on into the tasks behind the end, which the thread has freed, is an oops.
unfoldable pub cleanup_task_queue : Cmd (Unit {0})
cleanup_task_queue s = elim s.task_queue.behind [
  | [] ↦ some (tt, record s { task_queue = record (s.task_queue) { items = [] } })
  | _ ∷ _ ↦ none
]

-- A received packet, in the fields that the daemon reads; `bytes` are those behind the IP and UDP
-- headers, and `message` is the structure that they hold.
pub record Packet : Type 0 where
  pub saddr : ℕ
  pub daddr : ℕ
  pub ttl : ℕ
  pub len : ℕ
  pub bytes : ℕ → ℕ
  pub message : Message

-- `sizeof(struct udphdr) + sizeof(struct iphdr)`.
abbrev pub start_point : ℕ
start_point = 28

-- The inner `none` is a call that ends without a `return`.
unfoldable pub insert_task : ℕ → Packet → Cmd (Option Ret)
unfolding create_task queue_task
insert_task kind packet = do
  new_task ← create_task kind
  elim new_task [
    | none ↦ pure (some (fail enomem))
    | some t ↦
        if ltb kind 8
        then (do
          block ← kmalloc
          elim block [
            | none ↦ pure (some (fail enomem))
            | some _ ↦ do
              queue_task (record t {
                src_ip = packet.saddr;
                dst_ip = packet.daddr;
                file_id = 0;
                frag_id = 0;
                ttl = packet.ttl;
                data_len = packet.len - start_point;
                payload = packet.message;
              })
              pure none
          ])
        else do queue_task t; pure none
  ]

unfoldable pub insert_task_from_timer : Option CTask → Cmd (Option Ret)
unfolding queue_task
insert_task_from_timer none = pure (some (fail enomem))
insert_task_from_timer (some t) = do queue_task t; pure none
