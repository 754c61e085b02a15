-- ===== src/Caching/FileRep/Asked.antt =====
-- The requests for fragments that `process_flrep` of caching/src/cFileRep.c sends, and the counts of
-- them that it keeps.
use mathlib.Core.Path.{subst}
use mobile_cloud_caching.Prelude.{
  ℕ, ◌+◌, ◌<◌, ◌≤◌, ◌≡◌, ◌≢◌, refl, sym, ap, ◌∙◌, ltb, ◌==◌, Bool, true, false, none, some, List,
  [], ◌∷◌, Bool-cases, Option-cases, inl, inr, arith, ltb→lt,
}
use mobile_cloud_caching.Prelude.Words.{inc32, dec32}
use mobile_cloud_caching.Prelude.Commands.{when}
use mobile_cloud_caching.Kernel.{Kernel, htonl}
use mobile_cloud_caching.Types.{Ptr}
use mobile_cloud_caching.Caching.Types.{ReqList, of_frag_req}
use mobile_cloud_caching.Caching.Types.Const
use mobile_cloud_caching.Caching.State.{State, Event, ret, kmalloc}
use mobile_cloud_caching.Caching.Socket.Said.{
  Said, Spoken, Said-Spoken, send_message-Says, in_block-Said,
}
use mobile_cloud_caching.Caching.ReqList.{
  request_from, count_at, find_creq, reach_threshold, update_count, flush_count, create_creq,
  insert_creq,
}
use mobile_cloud_caching.Caching.FragReq.{gen_frreq}
use mobile_cloud_caching.Caching.FragReq.Started.{Started, start_exchange-Started}
use mobile_cloud_caching.Caching.FragReq.Counted.{new_request}
use mobile_cloud_caching.Caching.FileRep.{count_own, request_all}

-- Every allocation succeeds.
abbrev pub Ample : State → Type 0
Ample s = (n : ℕ) → s.memory n ≢ none

-- All that differs between two states when requests were made.
abbrev pub Around : State → State → Type 0
Around s s' = s' ≡ record s {
  readings = s'.readings;
  allocations = s'.allocations;
  requests = s'.requests;
  crlist = s'.crlist;
  timer_queue = s'.timer_queue;
  log = s'.log;
}

around : (s s₁ s' : State) → s' ≡ s₁ → Around s s₁ → Around s s'
around s s₁ s' e a = subst (Around s) (sym e) a

Around-trans : (s s₁ s₂ : State) → Around s s₁ → Around s₁ s₂ → Around s s₂
Around-trans s s₁ s₂ a b =
    b
    ∙ ap
        (λ (x : State). record x {
          readings = s₂.readings;
          allocations = s₂.allocations;
          requests = s₂.requests;
          crlist = s₂.crlist;
          timer_queue = s₂.timer_queue;
          log = s₂.log;
        })
        a

module _ ⦃k : Kernel⦄ where
  -- A request for a fragment, in network order, to the node that has it.
  abbrev pub wanting : ℕ → ℕ → ℕ → ℕ → Event
  wanting my_ip dst_ip file frag = Event.sent dst_ip Const.net_diameter (
      of_frag_req (record {
        kind = Const.frag_req_ori_message;
        src_ip = htonl my_ip;
        dst_ip = htonl dst_ip;
        file_id = htonl file;
        frag_id = htonl frag;
      }))

  gen_frreq-Said :
      (my_ip dst_ip file frag : ℕ) (s : State)
      → (s' : State) × (gen_frreq my_ip dst_ip file frag s ≡ some (ret 0, s'))
        × Said (wanting my_ip dst_ip file frag) s s'
  unfolding gen_frreq
  gen_frreq-Said my_ip dst_ip file frag s =
      in_block-Said _ _ s (send_message-Says dst_ip Const.net_diameter _ _)

  -- What the count of an own request does.
  pub data Own (dst_ip file frag : ℕ) (s s' : State) : Type 0 where
    off : s.g_act ≡ false → s' ≡ s → Own dst_ip file frag s s'
    first :
        (addr : Ptr)
        → s.g_act ≡ true
        → request_from s.crlist file frag ≡ none
        → s.memory s.allocations ≡ some addr
        → s' ≡ record s {
          allocations = s.allocations + 1;
          crlist = new_request addr file frag ∷ s.crlist;
        }
        → Own dst_ip file frag s s'
    below :
        (r : ReqList)
        → s.g_act ≡ true
        → request_from s.crlist file frag ≡ some r
        → r.count < dec32 s.threshold
        → s' ≡ record s { crlist = count_at r.addr inc32 s.crlist }
        → Own dst_ip file frag s s'
    reached :
        (r : ReqList)
        → s.g_act ≡ true
        → request_from s.crlist file frag ≡ some r
        → dec32 s.threshold ≤ r.count
        → (st : Started dst_ip file frag
            (record s { crlist = count_at r.addr (λ _. 0) s.crlist })
            s')
        → s.memory s.allocations ≢ none
        → s.memory st.between.allocations ≢ none
        → Own dst_ip file frag s s'

  pub create_creq_lem :
      (addr : Ptr) (file frag : ℕ) (s : State)
      → s.memory s.allocations ≡ some addr
      → (create_creq file frag s
          ≡ some (
            some (record { addr = addr; file_id = file; frag_id = frag; count = 0 }),
            record s {
              allocations = s.allocations + 1;
              crlist = record { addr = addr; file_id = file; frag_id = frag; count = 0 } ∷ s.crlist;
            },
          ))
  unfolding create_creq kmalloc insert_creq
  create_creq_lem addr file frag s e = rw e

  pub same_address : (a : ℕ) → (a == a) ≡ true
  same_address a = ground arith

  count_on :
      (dst_ip file frag : ℕ) (s : State)
      → s.g_act ≡ true
      → Ample s
      → (s' : State) × (count_own dst_ip file frag s ≡ some (tt, s')) × Own dst_ip file frag s s'
  unfolding count_own find_creq reach_threshold update_count flush_count count_at
  count_on dst_ip file frag s on memory = elim (Option-cases (request_from s.crlist file frag)) [
    | inl missing ↦ elim (Option-cases (s.memory s.allocations)) [
      | inl no_memory ↦ absurd (memory s.allocations no_memory)
      | inr (addr, made) ↦ (
        record s {
          allocations = s.allocations + 1;
          crlist = new_request addr file frag ∷ s.crlist;
        },
        rw (missing, create_creq_lem addr file frag s made, same_address addr),
        Own.first addr on missing made refl,
      )
    ]
    | inr (r, found) ↦ elim (Bool-cases (ltb r.count (dec32 s.threshold))) [
      | inl low ↦ (
        record s { crlist = count_at r.addr inc32 s.crlist },
        rw (found, low),
        Own.below r on found (ltb→lt _ _ low) refl,
      )
      | inr high ↦
          let (s', ran, started) =
            start_exchange-Started dst_ip file frag
              (record s { crlist = count_at r.addr (λ _. 0) s.crlist }) in
          (
            s',
            rw (found, high) ran,
            Own.reached r on found (ground arith) started (memory s.allocations)
                (memory started.between.allocations),
          )
    ]
  ]

  count_own-Own :
      (dst_ip file frag : ℕ) (act : Bool) (s : State)
      → s.g_act ≡ act
      → Ample s
      → (s' : State) × (when act (count_own dst_ip file frag) s ≡ some (tt, s'))
        × Own dst_ip file frag s s'
  count_own-Own dst_ip file frag false s is_off ample = (s, refl, Own.off is_off refl)
  count_own-Own dst_ip file frag true s is_on ample = count_on dst_ip file frag s is_on ample

  Said-Around : {e : Event} {s s' : State} → Said e s s' → Around s s'
  Said-Around {s = s} {s' = s'} said = around s _ s' said.frame refl

  Spoken-Around : {e : Event} {s s' : State} → Spoken e s s' → Around s s'
  Spoken-Around {s = s} {s' = s'} spoken = around s _ s' spoken.frame refl

  pub Started-Around :
      {dst_ip file frag : ℕ} {s s' : State} → Started dst_ip file frag s s' → Around s s'
  Started-Around {s = s} {s' = s'} st =
      Around-trans s st.between s' (Said-Around st.asked)
        (around st.between _ s' st.waits.frame refl)

  Own-Around : {dst_ip file frag : ℕ} {s s' : State} → Own dst_ip file frag s s' → Around s s'
  Own-Around {s = s} {s' = s'} (Own.off o e) = around s _ s' e refl
  Own-Around {s = s} {s' = s'} (Own.first a on m me e) = around s _ s' e refl
  Own-Around {s = s} {s' = s'} (Own.below r on f l e) = around s _ s' e refl
  Own-Around {s = s} {s' = s'} (Own.reached r on f l st m₁ m₂) =
      Around-trans s (record s { crlist = count_at r.addr (λ _. 0) s.crlist }) s' refl
        (Started-Around st)

  -- Each pick in turn is asked for, unless the socket turns that down, and counted.
  pub data Asked (file : ℕ) : List (ℕ × ℕ) → State → State → Type 0 where
    done : {s : State} → Asked file [] s s
    ask :
        {dst_ip frag : ℕ} {picks : List (ℕ × ℕ)} {s s₁ s₂ s' : State}
        → Spoken (wanting s.g_my_ip dst_ip file frag) s s₁
        → Own dst_ip file frag s₁ s₂
        → Asked file picks s₂ s'
        → Asked file ((dst_ip, frag) ∷ picks) s s'

  Ample-Around : (s s' : State) → Around s s' → Ample s → Ample s'
  Ample-Around s s' a ample n = rw a (ample n)

  pub Asked-Around :
      {file : ℕ} {picks : List (ℕ × ℕ)} {s s' : State} → Asked file picks s s' → Around s s'
  Asked-Around Asked.done = refl
  Asked-Around {s = s} {s' = s'} (Asked.ask {s₁ = s₁} {s₂ = s₂} said own rest) =
      Around-trans s s₂ s' (Around-trans s s₁ s₂ (Spoken-Around said) (Own-Around own))
        (Asked-Around rest)

  pub request_all-Asked :
      (file : ℕ) (picks : List (ℕ × ℕ)) (s : State)
      → Ample s
      → (s' : State) × (request_all file picks s ≡ some (tt, s')) × Asked file picks s s'
  unfolding request_all
  request_all-Asked file [] s ample = (s, refl, Asked.done)
  request_all-Asked file ((dst_ip, frag) ∷ picks) s ample =
      let (s₁, ran₁, said) = gen_frreq-Said s.g_my_ip dst_ip file frag s in
      let (s₂, ran₂, own) =
        count_own-Own dst_ip file frag s.g_act s₁ (ap (λ (x : State). x.g_act) (Said-Around said))
          (Ample-Around s s₁ (Said-Around said) ample) in
      let (s', ran, rest) =
        request_all-Asked file picks s₂
          (Ample-Around s s₂ (Around-trans s s₁ s₂ (Said-Around said) (Own-Around own)) ample) in
      (s', rw (ran₁, ran₂) ran, Asked.ask (Said-Spoken said (ample s.allocations)) own rest)
