-- ===== src/PacketQueue/Fed.antt =====
-- The packets of kaodv/src/packet_queue.c over any sequence of calls: none is lost, and none is
-- given back twice.
use mathlib.Core.List.{Perm, perm_middle, perm_append_comm, append_assoc}
use mathlib.Core.List.Perm
use mathlib.Core.Path.{subst}
use mobile_cloud_caching.Prelude.{
  ℕ, ◌≡◌, refl, inl, inr, Bool, true, false, not, Option, none, some, List, [], ◌∷◌, ◌++◌, arith,
  keep, keep-pass, keep-skip, Bool-cases, ◌==◌,
}
use mobile_cloud_caching.PacketQueue.{
  Entry, Packets, IpqQueue, Fate, Reply, passes, drop, resend, refuse, ipq_dev_drop, ipq_send_ip,
  ipq_drop_ip, ipq_flush, receive_event, netdev_down, netfilter_receive, dequeue_loop, dev_cmp,
  ip_cmp, fuel_for, set_queue, ◌then_do◌,
}
use mobile_cloud_caching.PacketQueue.Drain.{IsReady, others, calls, dequeue_loop-Drained}
use mobile_cloud_caching.PacketQueue.Valid.{Received, netfilter_receive-Received}

-- The packets that were given back to netfilter or freed, the latest first.
abbrev pub ended : List Fate → List Entry
ended [] = []
ended (Fate.reinjected e v ∷ log) = e ∷ ended log
ended (Fate.freed e ∷ log) = e ∷ ended log
ended (Fate.rerouted e ∷ log) = ended log
ended (Fate.unreachable e ∷ log) = ended log

-- Every packet that the state knows of: those that are gone and those that wait.
abbrev pub known : Packets → List Entry
known s = ended s.log ++ s.q_list

-- The calls from outside.
pub data Call : Type 0 where
  -- A packet comes from netfilter.
  arrives : Entry → Call
  -- A route to an address was found, or none was.
  sends : ℕ → Call
  gives_up : ℕ → Call
  -- A notice of the kernel's: its kind and the device's index.
  notes : ℕ → ℕ → Call
  flushes : Call

abbrev pub arriving : Call → List Entry
arriving (arrives e) = e ∷ []
arriving (sends ip) = []
arriving (gives_up ip) = []
arriving (notes event ifindex) = []
arriving flushes = []

-- The packets that come with the calls, the latest first.
abbrev pub arrivals : List Call → List Entry
arrivals [] = []
arrivals (c ∷ cs) = arrivals cs ++ arriving c

abbrev after : Option (Reply × Packets) → Option Packets
after none = none
after (some (r, s)) = some s

pub step : Call → Packets → Option Packets
step (arrives e) s = after (netfilter_receive e s)
step (sends ip) s = ipq_send_ip ip s
step (gives_up ip) s = ipq_drop_ip ip s
step (notes event ifindex) s = receive_event event ifindex s
step flushes s = ipq_flush s

pub run : List Call → Packets → Option Packets
unfolding step
run [] s = some s
run (c ∷ cs) s = step c s then_do run cs

-- A body gives its packet back once.
abbrev GivesBack : (Entry → List Fate) → Type 0
GivesBack body = (e : Entry) (log : List Fate) → ended (body e ++ log) ≡ e ∷ ended log

calls-perm :
    (body : Entry → List Fate) (es : List Entry) (log : List Fate)
    → GivesBack body
    → Perm (ended (calls body es log)) (es ++ ended log)
calls-perm body [] log back = Perm.refl _
calls-perm body (e ∷ es) log back =
    Perm.trans
      (subst (λ l. Perm (ended (calls body es (body e ++ log))) (es ++ l)) (back e log)
        (calls-perm body es (body e ++ log) back))
      (perm_middle es (ended log))

keep-others-perm :
    (test : Entry → Bool) (es : List Entry) → Perm (keep test es ++ others test es) es
keep-others-perm test [] = Perm.nil
keep-others-perm test (e ∷ es) = elim (Bool-cases (test e)) [
  | inl hit ↦
      rw (keep-pass test e es hit, keep-skip (λ x. not (test x)) e es (rw hit))
        (Perm.cons e (keep-others-perm test es))
  | inr miss ↦
      rw (keep-skip test e es miss, keep-pass (λ x. not (test x)) e es (rw miss))
        (Perm.trans (perm_middle (keep test es) (others test es))
          (Perm.cons e (keep-others-perm test es)))
]

-- What a call that keeps the queue does to the packets: those that came with it are added.
abbrev pub Keeps : List Entry → Packets → Option Packets → Type 0
Keeps new s r = (s' : Packets) × (r ≡ some s') × IsReady s' × Perm (known s') (new ++ known s)

drained-perm :
    (test : Entry → Bool) (body : Entry → List Fate) (es : List Entry) (log : List Fate)
    → GivesBack body
    → Perm (ended (calls body (keep test es) log) ++ others test es) (ended log ++ es)
drained-perm test body es log back =
    let kept = keep test es in
    let gone = Perm.trans (calls-perm body kept log back) (perm_append_comm kept (ended log)) in
    Perm.trans (Perm.append_right (others test es) gone)
      (rw append_assoc (Perm.append_left (ended log) (keep-others-perm test es)))

drained-Keeps :
    (cmp : Option (Entry → ℕ → Bool)) (datum : ℕ) (body : Entry → List Fate) (s : Packets)
    → GivesBack body
    → IsReady s
    → Keeps [] s (dequeue_loop (fuel_for s) cmp datum body s)
drained-Keeps cmp datum body s back v =
    let (s', ran, d) = dequeue_loop-Drained (fuel_for s) cmp datum body s (omega arith) v in
    (
      s',
      ran,
      d.ready,
      rw (d.logged, d.left) (drained-perm (passes cmp datum) body s.q_list s.log back),
    )

-- A flag of the queue is set.
flag-IsReady :
    (b : Bool) (s : Packets) (v : IsReady s)
    → IsReady (record s { block = some (record v.queue { flushing = b }) })
flag-IsReady b s v = record {
  queue = record v.queue { flushing = b };
  here = refl;
  counted = v.counted;
  within = v.within;
  small = v.small;
}

set_queue_lem :
    (f : IpqQueue → IpqQueue) (s : Packets) {g : IpqQueue}
    → s.block ≡ some g
    → set_queue f s ≡ some (record s { block = some (f g) })
set_queue_lem f s here = rw here

flush-Keeps : (s : Packets) → IsReady s → Keeps [] s (ipq_flush s)
unfolding ipq_flush
flush-Keeps s v =
    let (s', ran, ready, moved) =
      drained-Keeps none 0 drop _ (λ e log. refl) (flag-IsReady true s v) in
    (
      record s' { block = some (record ready.queue { flushing = false }) },
      rw (v.here, ran) (set_queue_lem _ s' ready.here),
      flag-IsReady false s' ready,
      moved,
    )

received-perm :
    (e : Entry) (s s' : Packets) {r : Reply} (v : IsReady s)
    → Received e s v.queue r s'
    → Perm (known s') (e ∷ known s)
received-perm e s s' v (Received.queued room open_to re list log) =
    rw (list, log, ← append_assoc) (perm_append_comm (known s) (e ∷ []))
received-perm e s s' v (Received.refused why re list log) = rw (list, log) (Perm.refl _)

step-Keeps : (c : Call) (s : Packets) → IsReady s → Keeps (arriving c) s (step c s)
unfolding step ipq_send_ip ipq_drop_ip receive_event ipq_dev_drop
step-Keeps (arrives e) s v =
    let (r, s', ran, got, ready) = netfilter_receive-Received e s v in
    (s', rw ran, ready, received-perm e s s' v got)
step-Keeps (sends ip) s v = drained-Keeps (some ip_cmp) ip resend s (λ e log. refl) v
step-Keeps (gives_up ip) s v = drained-Keeps (some ip_cmp) ip refuse s (λ e log. refl) v
step-Keeps (notes event ifindex) s v = elim (Bool-cases (event == netdev_down)) [
  | inl down ↦ rw down (drained-Keeps (some dev_cmp) ifindex drop s (λ e log. refl) v)
  | inr other ↦ rw other (s, refl, v, Perm.refl _)
]
step-Keeps flushes s v = flush-Keeps s v

-- Over any sequence of packets from netfilter, routes found or given up, notices and flushes, a
-- packet queue that stands (its count is the length of its list, within its limit) meets no oops
-- and keeps standing, and the packets that it knew of before and those that came are, each as often
-- as it came, those that were given back to netfilter or freed and those that still wait.
pub run-Keeps : (cs : List Call) (s : Packets) → IsReady s → Keeps (arrivals cs) s (run cs s)
unfolding run
run-Keeps [] s v = (s, refl, v, Perm.refl _)
run-Keeps (c ∷ cs) s v =
    let (s₁, ran₁, ready₁, moved₁) = step-Keeps c s v in
    let (s₂, ran₂, ready₂, moved₂) = run-Keeps cs s₁ ready₁ in
    (
      s₂,
      rw (ran₁, ◌then_do◌) ran₂,
      ready₂,
      rw append_assoc (Perm.trans moved₂ (Perm.append_left (arrivals cs) moved₁)),
    )
