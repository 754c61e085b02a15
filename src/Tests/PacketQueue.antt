-- ===== src/Tests/PacketQueue.antt =====
-- A queue of two packets that wait for a route.
use mobile_cloud_caching.Prelude.{ℕ, ◌≡◌, refl, true, false, none, some, List, [], ◌∷◌, arith}
use mobile_cloud_caching.PacketQueue.{
  Entry, Packets, Reply, drop, resend, ip_cmp, passes, dequeue_loop, netfilter_receive,
  cleanup_packet_queue,
}
use mobile_cloud_caching.PacketQueue.Drain.{IsReady, Drained, calls, dequeue_loop-Drained}
use mobile_cloud_caching.PacketQueue.Valid.{
  Received, netfilter_receive-Received, cleanup_packet_queue-empty,
}
use mobile_cloud_caching.PacketQueue.Fed.{Call, Keeps, arrivals, run, run-Keeps}

abbrev packet : ℕ → ℕ → Entry
packet addr daddr = record { addr = addr; hook = 4; daddr = daddr; indev = none; outdev = some 2 }

abbrev waiting : Packets
waiting = record {
  q = 9;
  block = some (record { len = 2; maxlen = 3; flushing = false; terminate = false });
  q_list = packet 1 7 ∷ packet 2 8 ∷ [];
  registered = true;
  log = [];
}

abbrev waiting-IsReady : IsReady waiting
waiting-IsReady = record {
  queue = record { len = 2; maxlen = 3; flushing = false; terminate = false };
  here = refl;
  counted = refl;
  within = omega arith;
  small = omega arith;
}

-- A packet comes, a route is found, a device goes down, a route is given up, and all is flushed.
abbrev day : List Call
day =
    Call.arrives (packet 3 7) ∷ Call.sends 7 ∷ Call.notes 2 5 ∷ Call.gives_up 8 ∷ Call.flushes ∷ []

run-Keeps_example : Keeps (arrivals day) waiting (run day waiting)
run-Keeps_example = run-Keeps day waiting waiting-IsReady

dequeue_loop-Drained_example :
    (s' : Packets) × (dequeue_loop 3 (some ip_cmp) 7 resend waiting ≡ some s')
    × Drained (passes (some ip_cmp) 7) resend waiting s'
dequeue_loop-Drained_example =
    dequeue_loop-Drained 3 (some ip_cmp) 7 resend waiting (omega arith) waiting-IsReady

netfilter_receive-Received_example :
    (r : Reply) × (s' : Packets) × (netfilter_receive (packet 3 7) waiting ≡ some (r, s'))
    × Received (packet 3 7) waiting waiting-IsReady.queue r s'
    × IsReady s'
netfilter_receive-Received_example = netfilter_receive-Received (packet 3 7) waiting waiting-IsReady

cleanup_packet_queue-empty_example :
    (s' : Packets) × (cleanup_packet_queue waiting ≡ some s')
    × (s'.q_list ≡ [])
    × (s'.block ≡ none)
    × (s'.registered ≡ false)
    × (s'.log ≡ calls drop waiting.q_list waiting.log)
cleanup_packet_queue-empty_example = cleanup_packet_queue-empty waiting waiting-IsReady
