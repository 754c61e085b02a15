-- ===== src/World.antt =====
-- The module's global state, and the code as commands over it. `none` is a kernel oops: a read or
-- a write through a pointer to nothing, or a message read as another kind. Locks are left out:
-- each command is one critical section after another of one thread.

pub mod Memory
pub mod Gives
pub mod Frame
pub mod Kept
pub mod Healthy
pub mod Points
use mobile_cloud_caching.Prelude.{
  true, false, ℕ, ◌+◌, ◌*◌, ◌/◌, ◌%◌, Bool, Option, none, some, List, [], ◌∷◌,
}
use mobile_cloud_caching.Types.{Ptr, FloodId, AodvRoute, AodvDev, AodvNeigh, AodvTask, Message}

-- The value of a `struct timeval`, as `do_gettimeofday` fills it in.
pub record Timeval : Type 0 where
  pub tv_sec : ℕ
  pub tv_usec : ℕ

-- The calls that leave the module, in the order of the log: the latest first.
pub data Event : Type 0 where
  -- `sock_sendmsg` on a device's socket: the device, the address, the time to live if the call has
  -- set it on this socket, the message.
  sent : Ptr → ℕ → Option ℕ → Message → Event
  -- `ip_rt_ioctl` with SIOCADDRT: destination, gateway, mask, device.
  route_added : ℕ → ℕ → ℕ → Ptr → Event
  -- `ip_rt_ioctl` with SIOCDELRT until it fails: destination, mask.
  route_deleted : ℕ → ℕ → Event
  -- `ipq_send_ip` and `ipq_drop_ip` of packet_queue.c.
  ipq_sent : ℕ → Event
  ipq_dropped : ℕ → Event
  -- The hardware timer, armed for a delay in seconds and microseconds, or deleted.
  timer_armed : ℕ → ℕ → Event
  timer_deleted : Event
  -- `wake_up_interruptible` on the thread's wait queue.
  kicked : Event

-- task_queue.c: the tasks from `task_q` by the `next` links up to `task_end`; whether `task_end` is
-- set; and the addresses that the `next` links lead to behind `task_end`.
pub record TaskQueue : Type 0 where
  pub items : List AodvTask
  pub task_end : Ptr
  pub behind : List Ptr

pub record World : Type 0 where
  -- The n-th reading of the clock, and how many were made.
  pub clock : ℕ → Timeval
  pub readings : ℕ
  -- Whether the n-th allocation succeeds, and what its words read as before they are written.
  pub memory : ℕ → Option ℕ
  pub allocations : ℕ
  -- The n-th request to a socket: whether its option is taken, or its buffer has the room asked for.
  pub accepts : ℕ → Bool
  pub requests : ℕ
  -- The first address of a network device, if it has an IP section.
  pub ifa_address : Ptr → Option ℕ
  pub aodv_route_table : List AodvRoute
  -- Routes that `create_aodv_route` made for address 0 and linked nowhere.
  pub loose_routes : List AodvRoute
  pub aodv_neigh_list : List AodvNeigh
  pub timer_queue : List AodvTask
  pub task_queue : TaskQueue
  pub flood_id_queue : List FloodId
  pub aodv_dev_list : List AodvDev
  pub g_my_route : Ptr
  pub g_my_ip : ℕ
  pub g_broadcast_ip : ℕ
  pub g_aodv_gateway : Bool
  pub aodv_overhead : ℕ
  pub log : List Event

abbrev pub Cmd : Type 0 → Type 0
Cmd A = World → Option (A × World)

abbrev pub pure : {A : Type 0} → A → Cmd A
pure a w = some (a, w)

abbrev pub oops : {A : Type 0} → Cmd A
oops w = none

abbrev pub and_then : {A B : Type 0} → Option (A × World) → (A → Cmd B) → Option (B × World)
and_then none f = none
and_then (some (a, w)) f = f a w

infixl 5 ◌>>=◌ ◌>>◌
abbrev pub ◌>>=◌ : {A B : Type 0} → Cmd A → (A → Cmd B) → Cmd B
m >>= f = λ w. and_then (m w) f

abbrev pub ◌>>◌ : {A B : Type 0} → Cmd A → Cmd B → Cmd B
m >> n = m >>= λ _. n

-- `if (test) command`.
abbrev pub when : Bool → Cmd (Unit {0}) → Cmd (Unit {0})
when true m = m
when false m = pure tt

abbrev pub get : Cmd World
get w = some (w, w)

abbrev pub modify : (World → World) → Cmd (Unit {0})
modify f w = some (tt, f w)

abbrev pub emit : Event → Cmd (Unit {0})
emit e = modify (λ w. record w { log = e ∷ w.log })

-- A request to a socket.
unfoldable pub ask : Cmd Bool
ask w = some (w.accepts w.requests, record w { requests = w.requests + 1 })

-- What an `int` function returns: a count or a flag, or a negative error.
pub data Errno : Type 0 where
  enomem enodata ehostunreach etimedout enodev eperm : Errno

pub data Ret : Type 0 where
  ret : ℕ → Ret
  fail : Errno → Ret

-- utils.c: the time in milliseconds.
unfoldable pub to_millis : Timeval → ℕ
to_millis tv = (tv.tv_sec * 1000 + tv.tv_usec / 1000) % 18_446_744_073_709_551_616

unfoldable pub getcurrtime : Cmd ℕ
getcurrtime w = some (to_millis (w.clock w.readings), record w { readings = w.readings + 1 })
