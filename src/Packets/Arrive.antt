-- ===== src/Packets/Arrive.antt =====
-- `packet_in` of kaodv/src/packet_in.c, from the packet to the task queue.
use mathlib.Core.Path.{subst}
use mobile_cloud_caching.Prelude.{
  sym, ap, ◌∙◌, ℕ, ◌+◌, ◌-◌, ◌*◌, ◌≤◌, ◌<◌, ◌≡◌, ◌≢◌, refl, ltb, ◌==◌, if◌then◌else◌, Bool, true,
  false, not, Bool-cases, inl, inr, none, some, [], ◌∷◌, ◌++◌, arith,
}
use mobile_cloud_caching.Types.{AodvTask, Message}
use mobile_cloud_caching.Types.TaskType
use mobile_cloud_caching.World.{pure, ◌>>◌, World, getcurrtime, to_millis}
use mobile_cloud_caching.World.Memory.{kmalloc-memory, kmalloc-pos}
use mobile_cloud_caching.World.Gives
use mobile_cloud_caching.World.Gives.{Gives, gives}
use mobile_cloud_caching.Tasks.{
  Packet, start_point, insert_task, create_task, blank_task, queue_aodv_task, link_task,
}
use mobile_cloud_caching.Tasks.Fifo.{contents, IsQueue, contents-link_task}
use mobile_cloud_caching.Packets.{
  Verdict, valid_aodv_packet, packet_in, sizeof_rreq, sizeof_rrep, sizeof_rerr, sizeof_dst,
  sizeof_ack, dst_count_of,
}

-- A task with what the packet says is the last of the queue.
pub record Queued (kind : ℕ) (packet : Packet) (w w' : World) : Type 0 where
  pub task : AodvTask
  pub its_kind : task.kind ≡ kind
  pub its_source : task.src_ip ≡ packet.saddr
  pub its_hops : task.ttl ≡ packet.ttl
  pub its_message : task.payload ≡ packet.message
  pub behind : contents w'.task_queue ≡ contents w.task_queue ++ task ∷ []
  pub queue : IsQueue w'.task_queue

insert_task-Queued :
    (kind : ℕ) (packet : Packet) (w : World)
    → kind < 100
    → ((n : ℕ) → w.memory n ≢ none)
    → IsQueue w.task_queue
    → Gives (λ _ w'. Queued kind packet w w') (insert_task kind packet w)
unfolding insert_task create_task blank_task queue_aodv_task getcurrtime link_task
insert_task-Queued kind packet w small m q =
    let (b₁, got₁) = kmalloc-memory w (m _) in
    let (b₂, got₂) =
      kmalloc-memory (record w { allocations = w.allocations + 1; readings = w.readings + 1 })
        (m _) in
    let low : ltb kind 100 ≡ true = ground arith in
    let pos : 0 < b₁.addr = kmalloc-pos w _ b₁ got₁ in
    let filled : AodvTask = record (blank_task b₁ (to_millis (w.clock w.readings)) kind) {
      src_ip = packet.saddr;
      dst_ip = packet.daddr;
      ttl = packet.ttl;
      dev = packet.dev;
      data_len = packet.len - start_point;
      payload = packet.message;
    } in
    let linked = λ (t : AodvTask) (p : 0 < t.addr). contents-link_task t w.task_queue q p in
    elim (Bool-cases (kind == TaskType.rrep)) [
      | inl e ↦
          simp (got₁, low, got₂, e)
            (gives (record {
              task = record filled { src_hw_addr = packet.h_source };
              its_kind = refl;
              its_source = refl;
              its_hops = refl;
              its_message = refl;
              behind = (linked (record filled { src_hw_addr = packet.h_source }) pos).0;
              queue = (linked (record filled { src_hw_addr = packet.h_source }) pos).1;
            }))
      | inr e ↦
          simp (got₁, low, got₂, e)
            (gives (record {
              task = filled;
              its_kind = refl;
              its_source = refl;
              its_hops = refl;
              its_message = refl;
              behind = (linked filled pos).0;
              queue = (linked filled pos).1;
            }))
    ]

-- The check of a packet: a bad one changes nothing, and a good one is of a type from 1 to 4 and at
-- most counts as overhead.
Checked : ℕ → World → Bool → World → Type 0
Checked kind w false w' = w' ≡ w
Checked kind w true w' =
    (1 ≤ kind) × (kind ≤ 4) × (w' ≡ record w { aodv_overhead = w'.aodv_overhead })

valid_aodv_packet-Checked :
    (numbytes kind : ℕ) (m : Message) (w : World)
    → Gives (Checked kind w) (valid_aodv_packet numbytes kind m w)
unfolding valid_aodv_packet Checked
valid_aodv_packet-Checked numbytes kind m w = elim (Bool-cases (kind == 1)) [
  | inl e₁ ↦ elim (Bool-cases (numbytes == sizeof_rreq)) [
    | inl s ↦ simp (e₁, s) (gives (ground (arith, e₁), ground (arith, e₁), refl))
    | inr s ↦ simp (e₁, s) (gives refl)
  ]
  | inr e₁ ↦ elim (Bool-cases (kind == 2)) [
    | inl e₂ ↦ elim (Bool-cases (numbytes == sizeof_rrep)) [
      | inl s ↦ simp (e₁, e₂, s) (gives (ground (arith, e₂), ground (arith, e₂), refl))
      | inr s ↦ simp (e₁, e₂, s) (gives refl)
    ]
    | inr e₂ ↦ elim (Bool-cases (kind == 3)) [
      | inl e₃ ↦ elim (Bool-cases (numbytes == sizeof_rerr + sizeof_dst * dst_count_of m)) [
        | inl s ↦ simp (e₁, e₂, e₃, s) (gives (ground (arith, e₃), ground (arith, e₃), refl))
        | inr s ↦ simp (e₁, e₂, e₃, s) (gives refl)
      ]
      | inr e₃ ↦ elim (Bool-cases (kind == 4)) [
        | inl e₄ ↦ elim (Bool-cases (numbytes == sizeof_ack)) [
          | inl s ↦ simp (e₁, e₂, e₃, e₄, s) (gives (ground (arith, e₄), ground (arith, e₄), refl))
          | inr s ↦ simp (e₁, e₂, e₃, e₄, s) (gives refl)
        ]
        | inr e₄ ↦ simp (e₁, e₂, e₃, e₄) (gives refl)
      ]
    ]
  ]
]

-- What becomes of a packet.
pub data Arrived (kind : ℕ) (packet : Packet) (w : World) : Verdict → World → Type 0 where
  dropped : Arrived kind packet w Verdict.nf_drop w
  accepted :
      {w' : World}
      → 1 ≤ kind
      → kind ≤ 4
      → Queued kind packet w w'
      → Arrived kind packet w Verdict.nf_accept w'

-- While allocations succeed and the task queue is well formed, `packet_in` meets no oops; a packet
-- is dropped and nothing differs, or it is accepted, its type is from 1 to 4, and the last of the
-- task queue is a new task with the packet's type, source, time to live and message behind all the
-- tasks that were there, and the queue is well formed.
pub packet_in-Arrived :
    (kind : ℕ) (packet : Packet) (w : World)
    → ((n : ℕ) → w.memory n ≢ none)
    → IsQueue w.task_queue
    → Gives (Arrived kind packet w) (packet_in kind packet w)
unfolding packet_in Checked
packet_in-Arrived kind packet w m q =
    Gives.bind (valid_aodv_packet-Checked (packet.len - start_point) kind packet.message w) by_check
  where
    by_check :
        (b : Bool) (w₁ : World)
        → Checked kind w b w₁
        → Gives (Arrived kind packet w) (
            (if not b
                then pure Verdict.nf_drop
                else do insert_task kind packet; pure Verdict.nf_accept)
              w₁)
    by_check false w₁ same =
        subst (λ x. Gives (Arrived kind packet w) (some (Verdict.nf_drop, x))) (sym same)
          (gives Arrived.dropped)
    by_check true w₁ (low, high, same) =
        Gives.bind
          (insert_task-Queued kind packet w₁ (omega (arith, high))
            (subst (λ (x : World). (n : ℕ) → x.memory n ≢ none) (sym same) m)
            (subst (λ (x : World). IsQueue x.task_queue) (sym same) q))
          λ _ w' u. gives (
            Arrived.accepted low high (record {
              task = u.task;
              its_kind = u.its_kind;
              its_source = u.its_source;
              its_hops = u.its_hops;
              its_message = u.its_message;
              behind = u.behind ∙ ap (λ (x : World). contents x.task_queue ++ u.task ∷ []) same;
              queue = u.queue;
            }))
