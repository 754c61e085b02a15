-- ===== src/Caching/FileReq/Heard.antt =====
-- What comes of a file request: `recv_flreq` of caching/src/cFileReq.c.
use mathlib.Core.List.{map}
use mathlib.Core.Path.{subst}
use mobile_cloud_caching.Prelude.{
  ℕ, ◌+◌, ◌%◌, ◌<◌, ◌≤◌, ◌≡◌, ◌≢◌, refl, sym, ap, inl, inr, leb, ◌==◌, true, Option, none, some,
  List, [], ◌∷◌, length, Bool-cases, Option-cases, arith,
}
use mobile_cloud_caching.Prelude.Words.{inc32, add64, dec32}
use mobile_cloud_caching.Kernel.{Kernel, htonl, ntohl}
use mobile_cloud_caching.Types.{Ptr}
use mobile_cloud_caching.Caching.Types.{CTask, FileReq, Message, CFloodId, of_file_req, of_file_rep}
use mobile_cloud_caching.Caching.Types.Const
use mobile_cloud_caching.Caching.State.{
  State, Event, Ret, ret, fail, etimedout, enomem, to_millis, getcurrtime, kmalloc,
}
use mobile_cloud_caching.Caching.Socket.{send_message, in_block}
use mobile_cloud_caching.Caching.Socket.Said.{
  Spoken, Said, send_message-Says, local_broadcast-Says, in_block-Said,
}
use mobile_cloud_caching.Caching.Flood.{find_flood_walk, find_flood_id, insert_flood_id}
use mobile_cloud_caching.Caching.FileRep.{gen_flrep, held}
use mobile_cloud_caching.Caching.FileReq.{
  convert_flreq_to_host, convert_flreq_to_network, forward_flreq, accept_flreq, recv_flreq,
}

-- A flood's entry, if there is memory for it.
abbrev pub with_flood : Option Ptr → CFloodId → List CFloodId → List CFloodId
with_flood none f fs = fs
with_flood (some addr) f fs = f ∷ fs

abbrev pub noted : CFloodId → State → State
noted f s = record s {
  allocations = s.allocations + 1;
  flood_id_queue = with_flood (s.memory s.allocations) f s.flood_id_queue;
}

abbrev pub carrying : FileReq → CTask → CTask
carrying m t = record t { payload = of_file_req m }

module _ ⦃k : Kernel⦄ where
  -- The reply with the fragments that the node holds.
  abbrev pub answer : ℕ → ℕ → ℕ → List ℕ → ℕ → Message
  answer src_ip dst_ip file buf dist = of_file_rep (record {
    kind = Const.file_rep_message;
    frag_count = length buf % 256;
    src_ip = htonl src_ip;
    dst_ip = htonl dst_ip;
    file_id = htonl file;
    dist = htonl dist;
    frags = map (λ f. htonl f) buf;
  })

  abbrev pub answering : ℕ → ℕ → ℕ → List ℕ → ℕ → Event
  answering src_ip dst_ip file buf dist =
      Event.sent dst_ip Const.net_diameter (answer src_ip dst_ip file buf dist)

  -- The node replies if it holds fragments of the file.
  pub data Replied (file dst_ip dist : ℕ) (s s' : State) : Type 0 where
    silent : held file s.kval s.ctable ≡ [] → s' ≡ s → Replied file dst_ip dist s s'
    replied :
        held file s.kval s.ctable ≢ []
        → Said (answering s.g_my_ip dst_ip file (held file s.kval s.ctable) dist) s s'
        → Replied file dst_ip dist s s'

  length-pos : (xs : List ℕ) → (length xs == 0) ≡ true → xs ≡ []
  length-pos [] h = refl
  length-pos (x ∷ xs) h = absurd (ground arith)

  answer-Said :
      (src_ip dst_ip file dist : ℕ) (buf : List ℕ) (s : State)
      → (s' : State) × (in_block
            (send_message dst_ip Const.net_diameter (answer src_ip dst_ip file buf dist))
            s
          ≡ some (ret 0, s'))
        × Said (answering src_ip dst_ip file buf dist) s s'
  answer-Said src_ip dst_ip file dist buf s =
      in_block-Said _ _ s (send_message-Says dst_ip Const.net_diameter _ _)

  gen_flrep-Replied :
      (dst_ip file dist : ℕ) (s : State)
      → (r : Ret) × (s' : State) × (gen_flrep s.g_my_ip dst_ip file dist s ≡ some (r, s'))
        × Replied file dst_ip dist s s'
  unfolding gen_flrep
  gen_flrep-Replied dst_ip file dist s =
      let buf = held file s.kval s.ctable in
      elim (Bool-cases (length buf == 0)) [
        | inl none_held ↦ (ret 1, s, rw none_held, Replied.silent (length-pos buf none_held) refl)
        | inr some_held ↦
            let said = answer-Said s.g_my_ip dst_ip file dist buf s in
            (
              ret 0,
              said.0,
              rw (some_held, said.1),
              Replied.replied (λ e. ground (arith, ap length e)) said.2,
            )
      ]

  pub Replied-frame :
      {file dst_ip dist : ℕ} {s s' : State}
      → Replied file dst_ip dist s s'
      → s' ≡ record s { requests = s'.requests; allocations = s'.allocations; log = s'.log }
  Replied-frame {s = s} (Replied.silent h e) =
      subst
        (λ (x : State).
          x ≡ record s { requests = x.requests; allocations = x.allocations; log = x.log })
        (sym e) refl
  Replied-frame (Replied.replied h said) = said.frame

  abbrev pub entry_of : FileReq → ℕ → CFloodId
  entry_of m now = record {
    src_ip = ntohl m.src_ip;
    dst_ip = ntohl m.dst_ip;
    id = ntohl m.seq;
    lifetime = add64 now Const.file_request_lifetime;
  }

  -- The request on its way on, one hop further.
  abbrev pub passed_on : FileReq → State → ℕ → Event
  passed_on m s ttl = Event.sent s.g_broadcast_ip (dec32 ttl % 256) (
      of_file_req (record m {
        src_ip = htonl (ntohl m.src_ip);
        dst_ip = htonl (ntohl m.dst_ip);
        file_id = htonl (ntohl m.file_id);
        seq = htonl (ntohl m.seq);
        metric = htonl (inc32 (ntohl m.metric));
      }))

  -- A request that was not seen before is noted, answered and passed on.
  pub record Answered (m : FileReq) (ttl now : ℕ) (s s' : State) : Type 0 where
    pub between : State
    pub reply :
        Replied
          (ntohl m.file_id)
          (ntohl m.src_ip)
          (inc32 (ntohl m.metric))
          (noted (entry_of m now) s)
          between
    pub on : Spoken (passed_on m s ttl) between s'

  insert_flood_id_lem :
      (src_ip dst_ip id lt : ℕ) (s : State)
      → (r : Ret) × (insert_flood_id src_ip dst_ip id lt s
          ≡ some (r, noted (record { src_ip = src_ip; dst_ip = dst_ip; id = id; lifetime = lt }) s))
  unfolding insert_flood_id kmalloc
  insert_flood_id_lem src_ip dst_ip id lt s = elim (Option-cases (s.memory s.allocations)) [
    | inl no_memory ↦ (fail enomem, rw no_memory)
    | inr (addr, made) ↦ (ret 0, rw made)
  ]

  forward_flreq-Spoken :
      (m : FileReq) (ttl : ℕ) (s : State)
      → (s' : State) × (forward_flreq m ttl s ≡ some (ret 0, s'))
        × Spoken
            (Event.sent s.g_broadcast_ip
              (dec32 ttl % 256)
              (of_file_req (convert_flreq_to_network m)))
            s
            s'
  unfolding forward_flreq
  forward_flreq-Spoken m ttl s =
      let said =
        local_broadcast-Says (dec32 ttl % 256) (of_file_req (convert_flreq_to_network m)) s in
      (said.0, rw said.1, said.2)

  accept_flreq-Answered :
      (m : FileReq) (ttl now : ℕ) (s : State)
      → (s' : State) × (accept_flreq (convert_flreq_to_host m) now ttl s ≡ some (ret 0, s'))
        × Answered m ttl now s s'
  unfolding accept_flreq convert_flreq_to_host convert_flreq_to_network
  accept_flreq-Answered m ttl now s =
      let f = entry_of m now in
      let note = insert_flood_id_lem f.src_ip f.dst_ip f.id f.lifetime s in
      let reply =
        gen_flrep-Replied (ntohl m.src_ip) (ntohl m.file_id) (inc32 (ntohl m.metric)) (noted f s) in
      let request : FileReq = record (convert_flreq_to_host m) {
        metric = inc32 (ntohl m.metric);
      } in
      let on = forward_flreq-Spoken request ttl reply.1 in
      let same = ap (λ (x : State). x.g_broadcast_ip) (Replied-frame reply.3) in
      (
        on.0,
        rw (note.1, reply.2, on.1),
        record {
          between = reply.1;
          reply = reply.3;
          on =
              subst
                (λ ip.
                  Spoken
                    (Event.sent ip (dec32 ttl % 256)
                      (of_file_req (convert_flreq_to_network request)))
                    reply.1 on.0)
                same on.2;
        },
      )

  -- Beyond the reading of the clock: what comes of a request.
  pub data Heard (m : FileReq) (ttl now : ℕ) (s : State) : Ret → State → Type 0 where
    expired : ttl ≤ 1 → Heard m ttl now s (fail etimedout) (record s { readings = s.readings + 1 })
    seen :
        1 < ttl
        → find_flood_walk
            (ntohl m.src_ip)
            (ntohl m.seq)
            (to_millis (s.clock (s.readings + 1)))
            s.flood_id_queue
          ≢ none
        → Heard m ttl now s (ret 1) (record s { readings = s.readings + 1 + 1 })
    answered :
        {s' : State}
        → 1 < ttl
        → find_flood_walk
            (ntohl m.src_ip)
            (ntohl m.seq)
            (to_millis (s.clock (s.readings + 1)))
            s.flood_id_queue
          ≡ none
        → Answered m ttl now (record s { readings = s.readings + 1 + 1 }) s'
        → Heard m ttl now s (ret 0) s'

  -- `recv_flreq` meets no oops on a file request, and one of three things comes of it: its time to
  -- live is at most 1, and the result is -ETIMEDOUT; or the flood's entry was found, and the result
  -- is 1; or it was not found, and the result is 0: the flood is noted, if there is memory, the
  -- node replies exactly if it holds fragments of the file, with those, and the request is
  -- broadcast with one hop less to live and one more counted. Each of the two messages is the one
  -- named or was not sent, and beyond that only readings, allocations and socket requests differ.
  pub recv_flreq-Heard :
      (t : CTask) (m : FileReq) (s : State)
      → (r : Ret) × (s' : State) × (recv_flreq (carrying m t) s ≡ some (r, s'))
        × Heard m t.ttl (to_millis (s.clock s.readings)) s r s'
  unfolding recv_flreq getcurrtime find_flood_id convert_flreq_to_host
  recv_flreq-Heard t m s = elim (Bool-cases (leb t.ttl 1)) [
    | inl over ↦ (
      fail etimedout,
      record s { readings = s.readings + 1 },
      rw over,
      Heard.expired (ground arith),
    )
    | inr hops ↦
        elim (Option-cases (
          find_flood_walk (ntohl m.src_ip) (ntohl m.seq) (to_millis (s.clock (s.readings + 1)))
            s.flood_id_queue)) [
              | inr (f, e) ↦ (
                ret 1,
                record s { readings = s.readings + 1 + 1 },
                simp (hops, e),
                Heard.seen (ground arith) (λ n. cc),
              )
              | inl e ↦
                  let (s', ran, a) =
                    accept_flreq-Answered m t.ttl (to_millis (s.clock s.readings))
                      (record s { readings = s.readings + 1 + 1 }) in
                  (ret 0, s', simp (hops, e) (rw ran), Heard.answered (ground arith) e a)
            ]
  ]
