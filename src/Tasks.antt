-- ===== src/Tasks.antt =====
-- kaodv/src/task_queue.c: the queue between the network and the timer on one side and the thread on
-- the other. New tasks are linked in front, and the thread takes the one at `task_end`.
pub mod Fifo
use mobile_cloud_caching.Prelude.{
  ℕ, ◌+◌, ◌-◌, ltb, ◌==◌, if◌then◌else◌, Bool, true, false, Option, none, some, List, [], ◌∷◌,
}
use mobile_cloud_caching.Types.{Ptr, null, AodvTask, Message, nothing}
use mobile_cloud_caching.Types.TaskType
use mobile_cloud_caching.World.{
  World, TaskQueue, Cmd, pure, oops, when, ◌>>=◌, ◌>>◌, get, modify, emit, Event, Ret, ret, fail,
  enomem, getcurrtime,
}
use mobile_cloud_caching.World.Memory.{Block, kmalloc}

-- The value with its fields written by `create_task`; `id` and the hardware address are not.
unfoldable pub blank_task : Block → ℕ → ℕ → AodvTask
blank_task block now kind = record {
  addr = block.addr;
  kind = kind;
  id = block.junk;
  time = now;
  dst_ip = 0;
  src_ip = 0;
  dev = null;
  ttl = 0;
  retries = 0;
  src_hw_addr = [];
  data_len = 0;
  payload = nothing;
}

unfoldable pub create_task : ℕ → Cmd (Option AodvTask)
unfolding kmalloc blank_task getcurrtime
create_task kind = do
  block ← kmalloc
  elim block [
    | none ↦ pure none
    | some b ↦ do now ← getcurrtime; pure (some (blank_task b now kind))
  ]

unfoldable pub init_task_queue : TaskQueue → TaskQueue
init_task_queue q = record q { items = []; task_end = null; behind = [] }

-- The links that `queue_aodv_task` makes. In front of an empty queue the new task's `next` is null,
-- so nothing lies behind it.
unfoldable pub link_task : AodvTask → TaskQueue → TaskQueue
link_task new_entry q = record q {
  items = new_entry ∷ q.items;
  task_end = if q.task_end == null then new_entry.addr else q.task_end;
  behind = elim q.items [ [] ↦ [] | _ ∷ _ ↦ q.behind ];
}

unfoldable pub queue_aodv_task : AodvTask → Cmd Ret
unfolding link_task
queue_aodv_task new_entry = do
  modify λ w. record w { task_queue = link_task new_entry w.task_queue }
  emit Event.kicked
  pure (ret 0)

-- The last task by the `next` links, and the ones in front of it.
unfoldable pub split_last : List AodvTask → Option (List AodvTask × AodvTask)
split_last [] = none
split_last (t ∷ ts) = elim (split_last ts) [
  | none ↦ some ([], t)
  | some (front, last) ↦ some (t ∷ front, last)
]

-- The address of the last task, or null.
unfoldable pub last_addr : List AodvTask → Ptr
last_addr [] = null
last_addr (t ∷ []) = t.addr
last_addr (t ∷ u ∷ ts) = last_addr (u ∷ ts)

-- What `get_task` does to the queue. The outer `none` is a `task_end` that leads to no task of the
-- queue. The task's predecessor keeps its `next` link, so the task stays behind the end.
unfoldable pub take_task : TaskQueue → Option (Option AodvTask × TaskQueue)
unfolding split_last last_addr
take_task q = if q.task_end == null then some (none, q) else elim (split_last q.items) [
  | none ↦ none
  | some ([], last) ↦
      if last.addr == q.task_end
      then some (some last, record q { items = []; task_end = null; behind = [] })
      else none
  | some (t ∷ front, last) ↦
      if last.addr == q.task_end
      then some (
        some last,
        record q {
          items = t ∷ front;
          task_end = last_addr (t ∷ front);
          behind = last.addr ∷ q.behind;
        },
      )
      else none
]

unfoldable pub get_task : Cmd (Option AodvTask)
unfolding take_task
get_task w = elim (take_task w.task_queue) [
  | none ↦ none
  | some (t, q) ↦ some (t, record w { task_queue = q })
]

-- The tasks behind the end were taken, and the thread has freed them: to walk on into them is a
-- read of freed memory. `task_end` keeps its value.
unfoldable pub cleanup : TaskQueue → Option TaskQueue
cleanup q = elim q.behind [ [] ↦ some (record q { items = [] }) | _ ∷ _ ↦ none ]

unfoldable pub cleanup_task_queue : Cmd (Unit {0})
unfolding cleanup
cleanup_task_queue w = elim (cleanup w.task_queue) [
  | none ↦ none
  | some q ↦ some (tt, record w { task_queue = q })
]

-- A received packet, in the fields that the module reads.
pub record Packet : Type 0 where
  pub saddr : ℕ
  pub daddr : ℕ
  pub ttl : ℕ
  pub dev : Ptr
  pub len : ℕ
  pub h_source : List ℕ
  -- What stands behind the IP and UDP headers.
  pub message : Message

-- `sizeof(struct udphdr) + sizeof(struct iphdr)`.
abbrev pub start_point : ℕ
start_point = 28

abbrev with_source : ℕ → Packet → AodvTask → AodvTask
with_source kind packet t =
    if kind == TaskType.rrep then record t { src_hw_addr = packet.h_source } else t

-- The inner `none` is a call that ends without a `return`.
unfoldable pub insert_task : ℕ → Packet → Cmd (Option Ret)
unfolding create_task queue_aodv_task
insert_task kind packet = do
  new_task ← create_task kind
  elim new_task [
    | none ↦ pure (some (fail enomem))
    | some t ↦
        if ltb kind 100
        then (do
          block ← kmalloc
          elim block [
            | none ↦ pure (some (fail enomem))
            | some _ ↦ do
              let filled = record t {
                src_ip = packet.saddr;
                dst_ip = packet.daddr;
                ttl = packet.ttl;
                dev = packet.dev;
                data_len = packet.len - start_point;
                payload = packet.message;
              }
              queue_aodv_task (with_source kind packet filled)
              pure none
          ])
        else do queue_aodv_task (with_source kind packet t); pure none
  ]

unfoldable pub insert_task_from_timer : AodvTask → Cmd (Option Ret)
unfolding queue_aodv_task
insert_task_from_timer timer_task = do queue_aodv_task timer_task; pure none
