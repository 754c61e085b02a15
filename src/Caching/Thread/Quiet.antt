-- ===== src/Caching/Thread/Quiet.antt =====
-- The handlers of the daemon's thread that leave the cache table alone.
use mathlib.Core.Path.{subst}
use mobile_cloud_caching.Prelude.{
  ℕ, ◌+◌, ◌≤◌, ◌≡◌, refl, sym, ap, ◌∙◌, ◌==◌, Option, some, List, [], ◌∷◌, length, Bool-cases,
  Option-cases, ◌⊎◌, inl, inr, arith,
}
use mobile_cloud_caching.Prelude.Commands.{Gives, gives, bind, weaken, ◌>>◌}
use mobile_cloud_caching.Kernel.{Kernel, ntohl}
use mobile_cloud_caching.Caching.Types.{
  CTask, FileReq, FileRep, ExchRep, FileRepInfo, ExchTable, of_file_rep,
}
use mobile_cloud_caching.Caching.Types.Const
use mobile_cloud_caching.Caching.State.{State, Event, Ret, kmalloc, getcurrtime, to_millis}
use mobile_cloud_caching.Caching.Socket.Said.{Said}
use mobile_cloud_caching.Caching.Timer.{insert_timer, update_timer_queue}
use mobile_cloud_caching.Caching.Timer.Queued.{insert_timer-Inserted, update_timer_queue-armed}
use mobile_cloud_caching.Caching.Flood.{flush_flood_id_queue, flush_walk}
use mobile_cloud_caching.Caching.FileReq.{recv_flreq}
use mobile_cloud_caching.Caching.FileReq.Heard.{
  Heard, Replied, Replied-frame, recv_flreq-Heard, carrying, noted, entry_of,
}
use mobile_cloud_caching.Caching.FileRep.{recv_flrep}
use mobile_cloud_caching.Caching.FileRep.Asked.{Around}
use mobile_cloud_caching.Caching.FileRep.Replies.{create_rinfo, find_rinfo, flush_rinfo, rounds}
use mobile_cloud_caching.Caching.FileRep.Replies as Replies
use mobile_cloud_caching.Caching.FileRep.Replies.Created.{Created, create_rinfo-Created}
use mobile_cloud_caching.Caching.Exchange.Offers as Offers
use mobile_cloud_caching.Caching.Exchange.Offers.{flush_extable, create_extable, insert_extable}

-- Nothing of the cache table differs, nor of the module's parameters.
abbrev pub Quiet : State → State → Type 0
Quiet s s' = s' ≡ record s {
  readings = s'.readings;
  allocations = s'.allocations;
  requests = s'.requests;
  crlist = s'.crlist;
  extable = s'.extable;
  rinfo = s'.rinfo;
  timer_queue = s'.timer_queue;
  flood_id_queue = s'.flood_id_queue;
  c_energy = s'.c_energy;
  c_success = s'.c_success;
  log = s'.log;
}

pub quiet : (s s₁ s' : State) → s' ≡ s₁ → Quiet s s₁ → Quiet s s'
quiet s s₁ s' e q = subst (Quiet s) (sym e) q

pub Quiet-trans : (s s₁ s₂ : State) → Quiet s s₁ → Quiet s₁ s₂ → Quiet s s₂
Quiet-trans s s₁ s₂ a b =
    b
    ∙ ap
        (λ (x : State). record x {
          readings = s₂.readings;
          allocations = s₂.allocations;
          requests = s₂.requests;
          crlist = s₂.crlist;
          extable = s₂.extable;
          rinfo = s₂.rinfo;
          timer_queue = s₂.timer_queue;
          flood_id_queue = s₂.flood_id_queue;
          c_energy = s₂.c_energy;
          c_success = s₂.c_success;
          log = s₂.log;
        })
        a

pub Around-Quiet : (s s' : State) → Around s s' → Quiet s s'
Around-Quiet s s' a = quiet s _ s' a refl

-- A run that meets no oops and is quiet.
abbrev pub Quietly : {A : Type 0} → State → Option (A × State) → Type 0
Quietly s = Gives (λ _ s'. Quiet s s')

pub Said-Quiet : (e : Event) (s s' : State) → Said e s s' → Quiet s s'
Said-Quiet e s s' said = quiet s _ s' said.frame refl

pub given :
    {A : Type 0} {a : A} (s : State) {s' : State} {r : Option (A × State)}
    → r ≡ some (a, s')
    → Quiet s s'
    → Quietly s r
given s e q = subst (Quietly s) (sym e) (gives q)

-- A quiet run behind another.
pub after :
    {A : Type 0} (s s₁ : State) {r : Option (A × State)} → Quiet s s₁ → Quietly s₁ r → Quietly s r
after s s₁ q g = weaken g λ _ s₂ q₂. Quiet-trans s s₁ s₂ q q₂

flush_offers : (es : List ExchTable) (s : State) → Quietly s (Offers.flush_loop es s)
unfolding Offers.flush_loop Offers.remove_extable
flush_offers [] s = gives refl
flush_offers (e ∷ es) s = elim (Bool-cases (e.expired == 1)) [
  | inl dead ↦
      rw dead
        (after s (record s { extable = Offers.unlink e.addr s.extable }) refl (flush_offers es _))
  | inr alive ↦ rw alive (flush_offers es s)
]

pub flush_extable-Quietly : (s : State) → Quietly s (flush_extable s)
unfolding flush_extable
flush_extable-Quietly s = flush_offers s.extable s

flush_replies : (rs : List FileRepInfo) (s : State) → Quietly s (Replies.flush_loop rs s)
unfolding Replies.flush_loop Replies.remove_rinfo
flush_replies [] s = gives refl
flush_replies (r ∷ rs) s = elim (Bool-cases (r.expired == 1)) [
  | inl dead ↦
      rw dead
        (after s (record s { rinfo = Replies.unlink r.addr s.rinfo }) refl (flush_replies rs _))
  | inr alive ↦ rw alive (flush_replies rs s)
]

pub flush_rinfo-Quietly : (s : State) → Quietly s (flush_rinfo s)
unfolding flush_rinfo
flush_rinfo-Quietly s = flush_replies s.rinfo s

module _ ⦃k : Kernel⦄ where
  insert_timer-Quietly :
      (kind delay ip file frag : ℕ) (s : State) → Quietly s (insert_timer kind delay ip file frag s)
  insert_timer-Quietly kind delay ip file frag s =
      let (r, s', ran, q) = insert_timer-Inserted kind delay ip file frag s in
      given s ran (quiet s _ s' q.frame refl)

  update_timer_queue-Quietly : (s : State) → Quietly s (update_timer_queue s)
  update_timer_queue-Quietly s =
      let (s', ran, frame, _) = update_timer_queue-armed s in given s ran (quiet s _ s' frame refl)

  set_timer :
      (kind delay ip file frag : ℕ) (s : State)
      → Quietly s ((insert_timer kind delay ip file frag >> update_timer_queue) s)
  set_timer kind delay ip file frag s =
      bind (insert_timer-Quietly kind delay ip file frag s)
        λ _ s₁ q. after s s₁ q (update_timer_queue-Quietly s₁)

  pub flush_flood_id_queue-Quietly : (s : State) → Quietly s (flush_flood_id_queue s)
  unfolding flush_flood_id_queue getcurrtime
  flush_flood_id_queue-Quietly s =
      let fs = (flush_walk (to_millis (s.clock s.readings)) s.flood_id_queue).0 in
      let s₀ : State = record s { readings = s.readings + 1; flood_id_queue = fs } in
      after s s₀ refl (
        bind (insert_timer-Quietly Const.task_clean_up Const.flush_interval s.g_my_ip 0 0 s₀)
          λ _ s₁ q. bind (after s₀ s₁ q (update_timer_queue-Quietly s₁)) λ _ s₂ q₂. gives q₂)

  with_replies : {file dst_ip dist : ℕ} (s s' : State) → Replied file dst_ip dist s s' → Quiet s s'
  with_replies s s' r = quiet s _ s' (Replied-frame r) refl

  Heard-Quiet :
      (m : FileReq) (ttl now : ℕ) (s : State) (r : Ret) (s' : State)
      → Heard m ttl now s r s'
      → Quiet s s'
  Heard-Quiet m ttl now s r s' (Heard.expired over) = refl
  Heard-Quiet m ttl now s r s' (Heard.seen hops old) = refl
  Heard-Quiet m ttl now s r s' (Heard.answered hops new a) =
      let s₁ : State = noted (entry_of m now) (record s { readings = s.readings + 1 + 1 }) in
      Quiet-trans s s₁ s' refl (
        Quiet-trans s₁ a.between s' (with_replies s₁ a.between a.reply)
          (quiet a.between _ s' a.on.frame refl))

  pub recv_flreq-Quietly :
      (t : CTask) (m : FileReq) (s : State) → Quietly s (recv_flreq (carrying m t) s)
  recv_flreq-Quietly t m s =
      let (r, s', ran, h) = recv_flreq-Heard t m s in given s ran (Heard-Quiet m t.ttl _ s r s' h)

  pub create_extable-Quietly : (m : ExchRep) (s : State) → Quietly s (create_extable m s)
  unfolding create_extable kmalloc insert_extable
  create_extable-Quietly m s = elim (Option-cases (s.memory s.allocations)) [
    | inl no_memory ↦ rw no_memory (gives refl)
    | inr (addr, made) ↦ rw made (gives refl)
  ]

  -- The map of the new entry has room for the reply, and the reply holds as many fragments.
  abbrev pub Fits : FileRep → Type 0
  Fits m = (rounds (ntohl m.frag_count) ≤ 8) × (rounds (ntohl m.frag_count) ≤ length m.frags)

  Created-Quietly :
      (m : FileRep) (s : State) (r : Option (Option FileRepInfo × State))
      → Fits m
      → Created m s r
      → Quietly s r
  Created-Quietly m s r fits (Created.no_memory e) = gives refl
  Created-Quietly m s r fits (Created.made addr e a b c) = gives refl
  Created-Quietly m s r fits (Created.overrun e (inl over)) = absurd (omega (arith, fits.0))
  Created-Quietly m s r fits (Created.overrun e (inr over)) = absurd (omega (arith, fits.1))

  create_rinfo-Quietly : (m : FileRep) (s : State) → Fits m → Quietly s (create_rinfo m s)
  create_rinfo-Quietly m s fits = Created-Quietly m s _ fits (create_rinfo-Created m s)

  List-cases :
      {A : Type 0} (xs : List A) → (xs ≡ []) ⊎ ((x : A) × (rest : List A) × (xs ≡ x ∷ rest))
  List-cases [] = inl refl
  List-cases (x ∷ xs) = inr (x, xs, refl)

  pub recv_flrep-Quietly :
      (t : CTask) (m : FileRep) (s : State)
      → Fits m
      → Quietly s (recv_flrep (record t { payload = of_file_rep m }) s)
  unfolding recv_flrep
  recv_flrep-Quietly t m s fits = elim (Bool-cases (t.dst_ip == s.g_my_ip)) [
    | inr other ↦ simp other (gives refl)
    | inl own ↦ elim (List-cases (find_rinfo s.rinfo m.file_id)) [
      | inl e ↦
          simp (own, e)
            (bind
              (set_timer Const.task_frag_req_send Const.wait_file_rep_time s.g_my_ip m.file_id 0 s)
              λ _ s₁ q. bind (after s s₁ q (create_rinfo-Quietly m s₁ fits)) λ _ s₂ q₂. gives q₂)
      | inr (r, rs, e) ↦ simp (own, e) (bind (create_rinfo-Quietly m s fits) λ _ s₁ q. gives q)
    ]
  ]
