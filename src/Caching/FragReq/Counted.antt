-- ===== src/Caching/FragReq/Counted.antt =====
-- A request for a fragment that passes by in caching/src/cFragReq.c: it is counted, and at the
-- threshold the exchange starts.
use mathlib.Core.Path.{subst}
use mobile_cloud_caching.Prelude.{
  ℕ, ◌+◌, ◌<◌, ◌≤◌, ◌≡◌, ◌≢◌, refl, ap, ◌∙◌, inl, inr, ltb, ltb→lt, ◌==◌, true, false, none, some,
  List, ◌∷◌, ◌++◌, Bool-cases, Option-cases, arith,
}
use mobile_cloud_caching.Prelude.Words.{dec32, inc32}
use mobile_cloud_caching.Types.{Ptr}
use mobile_cloud_caching.Kernel.{Kernel}
use mobile_cloud_caching.Caching.Types.{CTask, FragReq, ReqList, of_frag_req}
use mobile_cloud_caching.Caching.State.{State, ret}
use mobile_cloud_caching.Caching.Socket.Said.{Spoken, Said-Spoken}
use mobile_cloud_caching.Caching.ReqList.{
  request_from, count_at, find_creq, reach_threshold, update_count, flush_count, create_creq,
}
use mobile_cloud_caching.Caching.ReqList.Entries.{
  Request, Distinct, request_from-Request, count_at-Distinct,
}
use mobile_cloud_caching.Caching.FragReq.Started.{
  forwarding, Started, start_exchange-Started, gen_frreq_by_task-Said,
}
use mobile_cloud_caching.Caching.FragReq.{count_request, convert_frreq_to_host, recv_frreq_ori}

-- The list with a new count in the entry of a request.
abbrev pub recount :
    {file frag : ℕ} {r : ReqList} {rs : List ReqList} → Request file frag r rs → ℕ → List ReqList
recount {r = r} p n = p.before ++ record r { count = n } ∷ p.after

abbrev pub new_request : Ptr → ℕ → ℕ → ReqList
new_request addr file frag = record { addr = addr; file_id = file; frag_id = frag; count = 1 }

module _ ⦃k : Kernel⦄ where
  -- What a request that passes by does to the list of requests.
  pub data Counted (task : CTask) (request : FragReq) (s s' : State) : Type 0 where
    -- The first one makes an entry.
    first :
        (addr : Ptr)
        → request_from s.crlist request.file_id request.frag_id ≡ none
        → s.memory s.allocations ≡ some addr
        → s' ≡ record s {
          allocations = s.allocations + 1;
          crlist = new_request addr request.file_id request.frag_id ∷ s.crlist;
        }
        → Counted task request s s'
    -- Below the threshold it is counted.
    below :
        {r : ReqList} (p : Request request.file_id request.frag_id r s.crlist)
        → r.count < dec32 s.threshold
        → s' ≡ record s { crlist = recount p (inc32 r.count) }
        → Counted task request s s'
    -- At the threshold the count starts anew, the request goes on and an exchange is started.
    reached :
        {r : ReqList} (p : Request request.file_id request.frag_id r s.crlist)
        → dec32 s.threshold ≤ r.count
        → (s₁ : State) → Spoken (forwarding task request) (record s { crlist = recount p 0 }) s₁
        → Started task.dst_ip request.file_id request.frag_id s₁ s'
        → Counted task request s s'

  recount_lem :
      {file frag : ℕ} {r : ReqList} (f : ℕ → ℕ) (s : State)
      → (p : Request file frag r s.crlist) → Distinct s.crlist
      → count_at r.addr f s.crlist ≡ recount p (f r.count)
  recount_lem {r = r} f s p d =
      ap (count_at r.addr f) p.split
      ∙ count_at-Distinct r p.after f p.before (subst Distinct p.split d)

  same_address : (a : ℕ) → (a == a) ≡ true
  same_address a = ground arith

  -- The entry of a request that was made just before is the one that is counted.
  first_count :
      (addr : Ptr) (file frag : ℕ) (s : State)
      → s.memory s.allocations ≡ some addr
      → (create_creq file frag s
          ≡ some (
            some (record { addr = addr; file_id = file; frag_id = frag; count = 0 }),
            record s {
              allocations = s.allocations + 1;
              crlist = record { addr = addr; file_id = file; frag_id = frag; count = 0 } ∷ s.crlist;
            },
          ))
  unfolding create_creq
  first_count addr file frag s e = rw e

  -- The count of a request that is for another node, where memory is there.
  pub count_request-Counted :
      (task : CTask) (request : FragReq) (s : State)
      → Distinct s.crlist
      → s.memory s.allocations ≢ none
      → (s' : State) × (count_request task request s ≡ some (tt, s')) × Counted task request s s'
  unfolding count_request find_creq reach_threshold update_count flush_count count_at
  count_request-Counted task request s distinct memory =
      elim (Option-cases (request_from s.crlist request.file_id request.frag_id)) [
        | inl missing ↦ elim (Option-cases (s.memory s.allocations)) [
          | inl no_memory ↦ absurd (memory no_memory)
          | inr (addr, made) ↦ (
            record s {
              allocations = s.allocations + 1;
              crlist = new_request addr request.file_id request.frag_id ∷ s.crlist;
            },
            rw (
              missing,
              first_count addr request.file_id request.frag_id s made,
              same_address addr,
            ),
            Counted.first addr missing made refl,
          )
        ]
        | inr (r, found) ↦
            let p = request_from-Request request.file_id request.frag_id r s.crlist found in
            elim (Bool-cases (ltb r.count (dec32 s.threshold))) [
              | inl low ↦ (
                record s { crlist = recount p (inc32 r.count) },
                rw (found, low, recount_lem inc32 s p distinct),
                Counted.below p (ltb→lt _ _ low) refl,
              )
              | inr high ↦
                  let s₀ : State = record s { crlist = recount p 0 } in
                  let (s₁, ran₁, said) = gen_frreq_by_task-Said task request s₀ in
                  let (s₂, ran₂, started) =
                    start_exchange-Started task.dst_ip request.file_id request.frag_id s₁ in
                  (
                    s₂,
                    rw (found, high, recount_lem (λ _. 0) s p distinct, ran₁) ran₂,
                    Counted.reached p (ground arith) s₁ (Said-Spoken said memory) started,
                  )
            ]
      ]

  count_request-oops :
      (task : CTask) (request : FragReq) (s : State)
      → request_from s.crlist request.file_id request.frag_id ≡ none
      → s.memory s.allocations ≡ none
      → count_request task request s ≡ none
  unfolding count_request find_creq create_creq update_count
  count_request-oops task request s missing no_memory = rw (missing, no_memory)

  -- A task with a request for a fragment.
  abbrev pub frag_task : CTask → FragReq → CTask
  frag_task t m = record t { payload = of_frag_req m }

  passing : (a b : ℕ) → a ≢ b → (a == b) ≡ false
  passing a b h = ground arith

  -- While the exchange is on and memory is there, `recv_frreq_ori` meets no oops and returns 0 on a
  -- request for a fragment that is for another node, in a list whose entries lie at addresses of
  -- their own: the first request for the fragment makes an entry with the count 1; the next ones,
  -- below the threshold, are counted in the entry's place; and one at the threshold sets the count
  -- back to 0, passes the request on, asks the neighbours for their scores, and sets a timer. The
  -- request is in the log unless it has no hops left to live or the socket turns it down, and the
  -- question unless there is no block for it or the socket turns it down; the timer that waits
  -- WAIT_EXCH_REP_TIME for the scores is in its place in the queue unless there is no block for it,
  -- and the kernel's timer is armed for the first of the queue, or deleted if the queue is empty.
  pub recv_frreq_ori-Counted :
      (t : CTask) (m : FragReq) (s : State)
      → t.dst_ip ≢ s.g_my_ip
      → s.g_act ≡ true
      → Distinct s.crlist
      → s.memory s.allocations ≢ none
      → (s' : State) × (recv_frreq_ori (frag_task t m) s ≡ some (ret 0, s'))
        × Counted (frag_task t m) (convert_frreq_to_host m) s s'
  unfolding recv_frreq_ori
  recv_frreq_ori-Counted t m s other act distinct memory =
      let (s', ran, counted) =
        count_request-Counted (frag_task t m) (convert_frreq_to_host m) s distinct memory in
      (s', simp (passing t.dst_ip s.g_my_ip other, act) (rw ran), counted)

  -- While the exchange is on, the first request for a fragment that is for another node is an oops
  -- in `recv_frreq_ori` if the allocation of its entry fails.
  pub recv_frreq_ori-oops :
      (t : CTask) (m : FragReq) (s : State)
      → t.dst_ip ≢ s.g_my_ip
      → s.g_act ≡ true
      → (let request = convert_frreq_to_host m in
          request_from s.crlist request.file_id request.frag_id ≡ none)
      → s.memory s.allocations ≡ none
      → recv_frreq_ori (frag_task t m) s ≡ none
  unfolding recv_frreq_ori
  recv_frreq_ori-oops t m s other act missing no_memory =
      let oopses =
        count_request-oops (frag_task t m) (convert_frreq_to_host m) s missing no_memory in
      simp (passing t.dst_ip s.g_my_ip other, act) (rw oopses)
