-- ===== src/Tests/Answers.antt =====
-- Replies, requests for files and packets of the routing protocol on the daemon's node.
use mobile_cloud_caching.Prelude.{
  ℕ, ◌+◌, ◌≡◌, refl, Option, none, some, [], ◌∷◌, arith, if◌then◌else◌, ◌==◌,
}
use mobile_cloud_caching.Tests.Data.{machine}
use mobile_cloud_caching.Tests.Caching.{daemon, task, replies}
use mobile_cloud_caching.Caching.Types.{FileReq, FileRep}
use mobile_cloud_caching.Caching.State.{State, Ret, to_millis, getcurrtime, ask, kmalloc}
use mobile_cloud_caching.Caching.FileRep.{process_flrep, gen_flrep, held}
use mobile_cloud_caching.Caching.FileRep.Processed.{Processed, process_flrep-Processed}
use mobile_cloud_caching.Caching.FileRep.Replies.{create_rinfo}
use mobile_cloud_caching.Caching.FileRep.Replies.Created.{Created, create_rinfo-Created}
use mobile_cloud_caching.Caching.FileReq.{
  recv_flreq, accept_flreq, convert_flreq_to_host, convert_flreq_to_network, forward_flreq,
}
use mobile_cloud_caching.Caching.FileReq.Once.{recv_flreq-once}
use mobile_cloud_caching.Caching.FileReq.Heard.{Heard, carrying, recv_flreq-Heard}
use mobile_cloud_caching.Caching.Socket.{in_block, send_message, local_broadcast}
use mobile_cloud_caching.Caching.Flood.{find_flood_id, find_flood_walk, insert_flood_id}
use mobile_cloud_caching.Caching.PacketIn.{olsr_loop}
use mobile_cloud_caching.Caching.PacketIn.Olsr.{
  Walks, counted, olsr_loop-counted, olsr_loop-endless,
}

abbrev answered : State
answered = record daemon { rinfo = replies }

process_flrep-Processed_example :
    (r : Ret) × (s' : State) × (process_flrep task answered ≡ some (r, s'))
    × Processed 6 answered r s'
process_flrep-Processed_example =
    process_flrep-Processed task answered (λ n e. cc) ((λ r. omega arith), ((λ r. omega arith), tt))

abbrev message : FileRep
message = record {
  kind = 2;
  frag_count = 2;
  src_ip = 7;
  dst_ip = 1;
  file_id = 6;
  dist = 2;
  frags = 1 ∷ 2 ∷ [];
}

create_rinfo-Created_example : Created message daemon (create_rinfo message daemon)
create_rinfo-Created_example = create_rinfo-Created message daemon

abbrev wanted : FileReq
wanted = record { kind = 1; src_ip = 4; dst_ip = 0; file_id = 6; seq = 77; metric = 1 }

recv_flreq-Heard_example :
    (r : Ret) × (s' : State) × (recv_flreq (carrying wanted task) daemon ≡ some (r, s'))
    × Heard wanted 5 100_000 daemon r s'
recv_flreq-Heard_example = recv_flreq-Heard task wanted daemon

-- A packet with messages of 8 and 12 bytes behind its header.
abbrev two_messages : ℕ → ℕ
two_messages n = if n == 7 then 8 else if n == 15 then 12 else if n == 4 then 201 else 0

two_messages_walk : Walks two_messages 4 20 (8 ∷ 12 ∷ []) 24 0
two_messages_walk =
    Walks.there {size = 8} (omega arith) (omega arith) refl
      (Walks.there {size = 12} (omega arith) (omega arith) refl Walks.here)

olsr_loop-counted_example :
    olsr_loop 3 two_messages 4 20 daemon.metrics
    ≡ some (counted two_messages 4 (8 ∷ 12 ∷ []) daemon.metrics)
olsr_loop-counted_example =
    olsr_loop-counted two_messages 3 daemon.metrics (omega arith) (omega arith) two_messages_walk

-- And one whose second message gives the size 0.
abbrev bad_messages : ℕ → ℕ
bad_messages n = if n == 7 then 8 else 0

bad_messages_walk : Walks bad_messages 4 20 (8 ∷ []) 12 12
bad_messages_walk = Walks.there {size = 8} (omega arith) (omega arith) refl Walks.here

olsr_loop-endless_example : olsr_loop 1000 bad_messages 4 20 daemon.metrics ≡ none
olsr_loop-endless_example =
    olsr_loop-endless bad_messages 1000 daemon.metrics (omega arith) bad_messages_walk (omega arith)
      refl

abbrev after : {A : Type 0} → Option (A × State) → State
after none = daemon
after (some (a, s)) = s

abbrev heard : State
heard = after (recv_flreq (carrying wanted task) daemon)

heard_run :
    (recv_flreq (carrying wanted task) daemon ≡ some (Ret.ret 0, heard))
    × (to_millis (heard.clock (heard.readings + 1)) ≡ 103_000)
unfolding recv_flreq accept_flreq convert_flreq_to_host convert_flreq_to_network forward_flreq
    find_flood_id find_flood_walk getcurrtime insert_flood_id kmalloc gen_flrep held in_block
    send_message local_broadcast ask
heard_run = (refl, refl)

-- The second copy comes three seconds after the first.
recv_flreq-once_example :
    recv_flreq (carrying wanted task) heard
    ≡ some (Ret.ret 1, record heard { readings = heard.readings + 1 + 1 })
recv_flreq-once_example =
    recv_flreq-once task task wanted wanted daemon heard (λ e. cc) (heard_run.0) refl refl
      (omega arith) (omega (arith, heard_run.1)) (omega (arith, heard_run.1)) (omega arith)
