-- ===== src/PacketQueue.antt =====
-- kaodv/src/packet_queue.c: the packets that wait for a route, in the order of their arrival, and
-- what becomes of them. `none` is an oops: `q` leads to no queue, since none was made or it is freed.
-- Locks are left out: each function is one critical section.
pub mod Drain
pub mod Valid
pub mod Fed
use mobile_cloud_caching.Prelude.{
  ℕ, zero, suc, ◌+◌, ◌%◌, leb, ◌==◌, ◌||◌, if◌then◌else◌, Bool, true, false, Option, none, some,
  List, [], ◌∷◌, ◌++◌, length,
}
use mobile_cloud_caching.Prelude.Words.{inc32, dec32, ge_int}
use mobile_cloud_caching.Types.{Ptr}

-- `struct nf_queue_entry` as the code reads it: the hook, the destination in the packet's header,
-- and the index of each device that is set.
pub record Entry : Type 0 where
  pub addr : Ptr
  pub hook : ℕ
  pub daddr : ℕ
  pub indev : Option ℕ
  pub outdev : Option ℕ

pub data Verdict : Type 0 where
  nf_drop nf_accept : Verdict

-- The calls that a packet meets, in the order of the log: the latest first.
pub data Fate : Type 0 where
  -- `nf_reinject`, `ip_route_me_harder` and `icmp_send` with the host unreachable; `kfree`.
  reinjected : Entry → Verdict → Fate
  rerouted : Entry → Fate
  unreachable : Entry → Fate
  freed : Entry → Fate

-- `ipq_queue_t`; `len` is an `int`, as its bit pattern.
pub record IpqQueue : Type 0 where
  pub len : ℕ
  pub maxlen : ℕ
  pub flushing : Bool
  pub terminate : Bool

-- `q` with what lies there, `q_list`, and whether the handler is registered.
pub record Packets : Type 0 where
  pub q : Ptr
  pub block : Option IpqQueue
  pub q_list : List Entry
  pub registered : Bool
  pub log : List Fate

abbrev pub ipq_qmax_default : ℕ
ipq_qmax_default = 1024

-- The first entry that passes the test, and the others in order.
unfoldable pub take_first : (Entry → Bool) → List Entry → Option (Entry × List Entry)
take_first test [] = none
take_first test (e ∷ es) =
    let rest = take_first test es in
    if test e
    then some (e, es)
    else elim rest [ none ↦ none | some (found, others) ↦ some (found, e ∷ others) ]

-- `cmp` is a test with its datum, or `NULL`.
abbrev pub passes : Option (Entry → ℕ → Bool) → ℕ → Entry → Bool
passes none datum e = true
passes (some cmp) datum e = cmp e datum

unfoldable pub ipq_dequeue :
    Option (Entry → ℕ → Bool) → ℕ → Packets → Option (Option Entry × Packets)
unfolding take_first
ipq_dequeue cmp datum s = elim (take_first (passes cmp datum) s.q_list) [
  | none ↦ some (none, s)
  | some (e, others) ↦ elim s.block [
    | none ↦ none
    | some g ↦
        some (some e, record s { block = some (record g { len = dec32 g.len }); q_list = others })
  ]
]

-- `while ((e = ipq_dequeue(cmp, datum))) { … }`, with the calls that the body makes, the latest
-- first. On fuel: one unit for each packet in the list and one more are enough.
unfoldable pub dequeue_loop :
    ℕ → Option (Entry → ℕ → Bool) → ℕ → (Entry → List Fate) → Packets → Option Packets
unfolding ipq_dequeue
dequeue_loop zero cmp datum body s = none
dequeue_loop (suc fuel) cmp datum body s = elim (ipq_dequeue cmp datum s) [
  | none ↦ none
  | some (none, s') ↦ some s'
  | some (some e, s') ↦ dequeue_loop fuel cmp datum body (record s' { log = body e ++ s'.log })
]

abbrev pub fuel_for : Packets → ℕ
fuel_for s = suc (length s.q_list)

abbrev pub drop : Entry → List Fate
drop e = Fate.reinjected e nf_drop ∷ []

-- A write to a field of the queue at `q`.
abbrev pub set_queue : (IpqQueue → IpqQueue) → Packets → Option Packets
set_queue f s = elim s.block [ none ↦ none | some g ↦ some (record s { block = some (f g) }) ]

infixl 5 ◌then_do◌
abbrev pub ◌then_do◌ : Option Packets → (Packets → Option Packets) → Option Packets
none then_do f = none
some s then_do f = f s

unfoldable pub ipq_flush : Packets → Option Packets
unfolding dequeue_loop
ipq_flush s =
    set_queue (λ g. record g { flushing = true }) s
    then_do (λ s'. dequeue_loop (fuel_for s') none 0 drop s')
    then_do set_queue (λ g. record g { flushing = false })

-- What the kernel answers: the address of the new block, and whether the handler was registered.
unfoldable pub ipq_create_queue : ℕ → Option Ptr → Bool → Packets → ℕ × Packets
ipq_create_queue sysctl_qmax none status s = (0, record s { q = 0; block = none })
ipq_create_queue sysctl_qmax (some addr) status s =
    if status
    then (
      1,
      record s {
        q = addr;
        block =
            some (record { len = 0; maxlen = sysctl_qmax; flushing = false; terminate = false });
        registered = true;
      },
    )
    else (0, record s { q = addr; block = none })

-- The length after the call, 0 for the wrong queue, or -EBUSY.
pub data Reply : Type 0 where
  value : ℕ → Reply
  ebusy : Reply

unfoldable pub ipq_enqueue : Ptr → Entry → Packets → Option (Reply × Packets)
ipq_enqueue g entry s =
    if s.q == g
    then elim s.block [
      | none ↦ none
      | some b ↦
          let busy = some (ebusy, record s { log = Fate.freed entry ∷ s.log }) in
          if ge_int b.len b.maxlen
          then busy
          else if b.flushing || b.terminate
          then busy
          else some (
            value (inc32 b.len),
            record s {
              block = some (record b { len = inc32 b.len });
              q_list = s.q_list ++ entry ∷ [];
            },
          )
    ]
    else some (value 0, s)

unfoldable pub ipq_destroy_queue : Packets → Option Packets
unfolding ipq_flush
ipq_destroy_queue s =
    set_queue (λ g. record g { terminate = true }) (record s { registered = false })
    then_do ipq_flush
    then_do (λ s'. some (record s' { block = none }))

-- A device that is not set has no index.
abbrev has_index : Option ℕ → ℕ → Bool
has_index none ifindex = false
has_index (some i) ifindex = i == ifindex

unfoldable pub dev_cmp : Entry → ℕ → Bool
dev_cmp e ifindex =
    if has_index e.indev ifindex then true else if has_index e.outdev ifindex then true else false

abbrev pub nf_inet_post_routing : ℕ
nf_inet_post_routing = 4

unfoldable pub ip_cmp : Entry → ℕ → Bool
ip_cmp e ip =
    if e.hook == nf_inet_post_routing then if e.daddr == ip then true else false else false

unfoldable pub ipq_dev_drop : ℕ → Packets → Option Packets
unfolding dequeue_loop dev_cmp
ipq_dev_drop ifindex s = dequeue_loop (fuel_for s) (some dev_cmp) ifindex drop s

abbrev pub resend : Entry → List Fate
resend e = Fate.reinjected e nf_accept ∷ Fate.rerouted e ∷ []

unfoldable pub ipq_send_ip : ℕ → Packets → Option Packets
unfolding dequeue_loop ip_cmp
ipq_send_ip ip s = dequeue_loop (fuel_for s) (some ip_cmp) ip resend s

abbrev pub refuse : Entry → List Fate
refuse e = Fate.reinjected e nf_drop ∷ Fate.unreachable e ∷ []

unfoldable pub ipq_drop_ip : ℕ → Packets → Option Packets
unfolding dequeue_loop ip_cmp
ipq_drop_ip ip s = dequeue_loop (fuel_for s) (some ip_cmp) ip refuse s

unfoldable pub netfilter_receive : Entry → Packets → Option (Reply × Packets)
unfolding ipq_enqueue
netfilter_receive entry s = ipq_enqueue s.q entry s

abbrev pub netdev_down : ℕ
netdev_down = 2

-- It always returns NOTIFY_DONE.
unfoldable pub receive_event : ℕ → ℕ → Packets → Option Packets
unfolding ipq_dev_drop
receive_event event ifindex s = if event == netdev_down then ipq_dev_drop ifindex s else some s

unfoldable pub init_packet_queue : Option Ptr → Bool → Packets → ℕ × Packets
unfolding ipq_create_queue
init_packet_queue = ipq_create_queue ipq_qmax_default

unfoldable pub cleanup_packet_queue : Packets → Option Packets
unfolding ipq_destroy_queue
cleanup_packet_queue = ipq_destroy_queue
