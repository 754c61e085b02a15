-- ===== src/PacketQueue/Valid.antt =====
-- kaodv/src/packet_queue.c: each entry point on a queue that stands.
use mobile_cloud_caching.Prelude.{
  ℕ, ◌<◌, ◌≤◌, ◌≡◌, refl, ltb, ltb→lt, ◌==◌, ap, ◌||◌, not, ◌⊎◌, inl, inr, true, false, some, none,
  List, [], keep, ◌∙◌, ◌∷◌, ◌++◌, length, length-append, Bool-cases, arith,
}
use mobile_cloud_caching.Prelude.Words.{inc32, ge_int}
use mobile_cloud_caching.PacketQueue.{
  Entry, Packets, IpqQueue, Fate, Reply, value, ebusy, netfilter_receive, set_queue, ◌then_do◌,
  drop, fuel_for, init_packet_queue, cleanup_packet_queue, init_packet_queue,
}
use mobile_cloud_caching.PacketQueue.Drain.{IsReady, others, calls, dequeue_loop-Drained}

-- What becomes of a packet that netfilter hands over: it waits behind the others if there is room
-- and the queue is not on its way out, and is freed if not.
pub data Received (e : Entry) (s : Packets) (g : IpqQueue) : Reply → Packets → Type 0 where
  queued :
      {r : Reply} {s' : Packets}
      → length s.q_list < g.maxlen
      → g.flushing || g.terminate ≡ false
      → r ≡ value (length s'.q_list)
      → s'.q_list ≡ s.q_list ++ e ∷ []
      → s'.log ≡ s.log
      → Received e s g r s'
  refused :
      {r : Reply} {s' : Packets}
      → (g.maxlen ≤ length s.q_list) ⊎ (g.flushing || g.terminate ≡ true)
      → r ≡ ebusy
      → s'.q_list ≡ s.q_list
      → s'.log ≡ Fate.freed e ∷ s.log
      → Received e s g r s'

-- The comparison of the count with its limit.
full :
    (s : Packets) (v : IsReady s)
    → ge_int v.queue.len v.queue.maxlen ≡ not (ltb (length s.q_list) v.queue.maxlen)
full s v = ground (arith, v.counted, v.within, v.small)

same_q : (q : ℕ) → (q == q) ≡ true
same_q q = ground arith

refuse-IsReady :
    (e : Entry) (s : Packets) → IsReady s → IsReady (record s { log = Fate.freed e ∷ s.log })
refuse-IsReady e s v = record {
  queue = v.queue;
  here = v.here;
  counted = v.counted;
  within = v.within;
  small = v.small;
}

-- The state with one packet more.
abbrev with_packet : Entry → Packets → IpqQueue → Packets
with_packet e s g = record s {
  block = some (record g { len = inc32 g.len });
  q_list = s.q_list ++ e ∷ [];
}

with_packet-IsReady :
    (e : Entry) (s : Packets) (v : IsReady s)
    → length s.q_list < v.queue.maxlen
    → IsReady (with_packet e s v.queue) × (inc32 v.queue.len ≡ length (s.q_list ++ e ∷ []))
with_packet-IsReady e s v room =
    let longer = length-append s.q_list (e ∷ []) in
    let counted : inc32 v.queue.len ≡ length (s.q_list ++ e ∷ []) =
      omega (arith, longer, v.counted, v.small) in
    (
      record {
        queue = record v.queue { len = inc32 v.queue.len };
        here = refl;
        counted = counted;
        within = omega (arith, longer);
        small = v.small;
      },
      counted,
    )

-- On a packet queue that stands, `netfilter_receive` meets no oops, leaves it standing, and either
-- puts the packet behind the others and answers the new length, or frees it, without giving it back
-- to netfilter, and answers -EBUSY: the latter exactly if the queue is full, is being flushed or is
-- being terminated.
pub netfilter_receive-Received :
    (e : Entry) (s : Packets) (v : IsReady s)
    → (r : Reply) × (s' : Packets) × (netfilter_receive e s ≡ some (r, s'))
      × Received e s v.queue r s'
      × IsReady s'
unfolding netfilter_receive
netfilter_receive-Received e s v = elim (Bool-cases (ltb (length s.q_list) v.queue.maxlen)) [
  | inr no_room ↦ (
    ebusy,
    record s { log = Fate.freed e ∷ s.log },
    simp (same_q s.q, v.here, full s v, no_room) refl,
    Received.refused (inl (ground arith)) refl refl refl,
    refuse-IsReady e s v,
  )
  | inl room ↦ elim (Bool-cases (v.queue.flushing || v.queue.terminate)) [
    | inl ending ↦ (
      ebusy,
      record s { log = Fate.freed e ∷ s.log },
      simp (same_q s.q, v.here, full s v, room, ending) refl,
      Received.refused (inr ending) refl refl refl,
      refuse-IsReady e s v,
    )
    | inr open_to ↦
        let next = with_packet-IsReady e s v (ltb→lt _ _ room) in
        (
          value (inc32 v.queue.len),
          with_packet e s v.queue,
          simp (same_q s.q, v.here, full s v, room, open_to) refl,
          Received.queued (ltb→lt _ _ room) open_to (ap value next.1) refl refl,
          next.0,
        )
  ]
]

keep-all : (es : List Entry) → keep (λ e. true) es ≡ es
keep-all [] = refl
keep-all (e ∷ es) = ap (◌∷◌ e) (keep-all es)

others-all : (es : List Entry) → others (λ e. true) es ≡ []
others-all [] = refl
others-all (e ∷ es) = others-all es

-- The queue with the flags as `ipq_destroy_queue` sets them before it flushes.
abbrev ending : Packets → IpqQueue → Packets
ending s g = record s {
  registered = false;
  block = some (record g { terminate = true; flushing = true });
}

ending-IsReady : (s : Packets) (v : IsReady s) → IsReady (ending s v.queue)
ending-IsReady s v = record {
  queue = record v.queue { terminate = true; flushing = true };
  here = refl;
  counted = v.counted;
  within = v.within;
  small = v.small;
}

freed_after :
    (s : Packets) {g : IpqQueue}
    → s.block ≡ some g
    → (set_queue (λ b. record b { flushing = false }) s
        then_do (λ s'. some (record s' { block = none })))
      ≡ some (record s { block = none })
freed_after s here = rw here

-- `cleanup_packet_queue` on a packet queue that stands meets no oops and ends: it gives every
-- waiting packet back to netfilter to be dropped, in the order of their arrival, unregisters the
-- handler and frees the queue.
pub cleanup_packet_queue-empty :
    (s : Packets)
    → IsReady s
    → (s' : Packets) × (cleanup_packet_queue s ≡ some s')
      × (s'.q_list ≡ [])
      × (s'.block ≡ none)
      × (s'.registered ≡ false)
      × (s'.log ≡ calls drop s.q_list s.log)
unfolding cleanup_packet_queue
cleanup_packet_queue-empty s v =
    let (s', ran, d) =
      dequeue_loop-Drained (fuel_for s) none 0 drop (ending s v.queue) (omega arith)
        (ending-IsReady s v) in
    (
      record s' { block = none },
      rw (v.here, ran) (freed_after s' d.ready.here),
      d.left ∙ others-all s.q_list,
      refl,
      d.same_registered,
      d.logged ∙ ap (λ es. calls drop es s.log) (keep-all s.q_list),
    )

-- A queue that `init_packet_queue` has made stands.
pub init-IsReady :
    (addr : ℕ) (s : Packets) → s.q_list ≡ [] → IsReady (init_packet_queue (some addr) true s).1
unfolding init_packet_queue
init-IsReady addr s e = record {
  queue = record { len = 0; maxlen = 1024; flushing = false; terminate = false };
  here = refl;
  counted = rw e;
  within = rw e (omega arith);
  small = omega arith;
}
