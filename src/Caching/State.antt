-- ===== src/Caching/State.antt =====
-- The global variables of caching/src as one state, and the calls by which the daemon meets the
-- kernel. `none` is an oops: a read or a write through a pointer to nothing or past the end of an
-- array, or a message read as another kind. Locks are left out.
use mobile_cloud_caching.Prelude.{ℕ, ◌+◌, ◌*◌, ◌/◌, ◌%◌, Bool, Option, some, List, ◌∷◌}
use mobile_cloud_caching.Prelude.Commands.{Command, modify}
use mobile_cloud_caching.Types.{Ptr}
use mobile_cloud_caching.World.{Timeval}
use mobile_cloud_caching.Caching.Types.{
  Message, CFloodId, CTask, CacheTable, FileRepInfo, ReqList, ExchTable,
}

-- The calls that leave the module, in the order of the log: the latest first.
pub data Event : Type 0 where
  -- `sock_sendmsg`: the address, the time to live that was set on the socket, the message.
  sent : ℕ → ℕ → Message → Event
  -- The hardware timer, armed for a delay in seconds and microseconds, or deleted.
  timer_armed : ℕ → ℕ → Event
  timer_deleted : Event
  -- `wake_up_interruptible` on the thread's wait queue.
  kicked : Event

-- cTask.c: the tasks from `task_q` by the `next` links up to `task_end`; `task_end`; and the addresses
-- that the `next` links lead to behind it.
pub record TaskQueue : Type 0 where
  pub items : List CTask
  pub task_end : Ptr
  pub behind : List Ptr

-- What the hook counts of the routing protocols' messages, in words of four bytes but for the first
-- two, and of the daemon's own: the counters of module.c.
pub record Metrics : Type 0 where
  pub rt_header : ℕ
  pub rt_hello_c : ℕ
  pub rt_hello : ℕ
  pub rt_tc : ℕ
  pub aodv_hello : ℕ
  pub aodv_else : ℕ

pub record State : Type 0 where
  -- The n-th reading of the clock, and how many were made.
  pub clock : ℕ → Timeval
  pub readings : ℕ
  -- The n-th allocation: the block's address, or none if there is no memory.
  pub memory : ℕ → Option Ptr
  pub allocations : ℕ
  -- The n-th request to the socket: whether its option is taken, or its buffer has the room.
  pub accepts : ℕ → Bool
  pub requests : ℕ
  pub g_my_ip : ℕ
  pub g_broadcast_ip : ℕ
  -- Whether `g_act` is "on".
  pub g_act : Bool
  -- The module's parameters, as `int`s that are not negative.
  pub kval : ℕ
  pub threshold : ℕ
  pub buf_size : ℕ
  pub ctable : List CacheTable
  pub ct_len : ℕ
  pub crlist : List ReqList
  pub extable : List ExchTable
  pub rinfo : List FileRepInfo
  pub timer_queue : List CTask
  pub task_queue : TaskQueue
  pub flood_id_queue : List CFloodId
  pub c_energy : ℕ
  pub c_success : ℕ
  pub c_prefetch : ℕ
  pub f_overhead : ℕ
  pub c_overhead : ℕ
  pub metrics : Metrics
  pub log : List Event

abbrev pub Cmd : Type 0 → Type 0
Cmd A = Command State A

abbrev pub emit : Event → Cmd (Unit {0})
emit e = modify (λ s. record s { log = e ∷ s.log })

-- `kmalloc`.
unfoldable pub kmalloc : Cmd (Option Ptr)
kmalloc s = some (s.memory s.allocations, record s { allocations = s.allocations + 1 })

-- A request to the socket.
unfoldable pub ask : Cmd Bool
ask s = some (s.accepts s.requests, record s { requests = s.requests + 1 })

-- cUtils.c: the time in milliseconds.
abbrev pub to_millis : Timeval → ℕ
to_millis tv = (tv.tv_sec * 1000 + tv.tv_usec / 1000) % 18_446_744_073_709_551_616

unfoldable pub getcurrtime : Cmd ℕ
getcurrtime s = some (to_millis (s.clock s.readings), record s { readings = s.readings + 1 })

-- What an `int` function returns: a count or a flag, or a negative error.
pub data Errno : Type 0 where
  enomem etimedout : Errno

pub data Ret : Type 0 where
  ret : ℕ → Ret
  fail : Errno → Ret
