-- ===== src/Caching/Thread/Steps.antt =====
-- The handlers of the daemon's thread keep the cache sound.
use mobile_cloud_caching.Prelude.{ℕ, refl, ltb, ◌==◌, Option, Bool-cases, Option-cases, inl, inr}
use mobile_cloud_caching.Prelude.Words.{dec32}
use mobile_cloud_caching.Prelude.Commands.{Gives, gives, bind, weaken, ◌>>◌}
use mobile_cloud_caching.Kernel.{Kernel}
use mobile_cloud_caching.Caching.Types.{
  CTask, FragReq, ExchReq, ExchRep, AddCache, of_frag_req, of_exch_req, of_exch_rep, of_add_cache,
}
use mobile_cloud_caching.Caching.Types.Const
use mobile_cloud_caching.Caching.State.{State, Ret}
use mobile_cloud_caching.Caching.Socket.Said.{in_block-Said, send_message-Says}
use mobile_cloud_caching.Caching.ReqList.{
  request_from, count_at, find_creq, reach_threshold, update_count, flush_count,
}
use mobile_cloud_caching.Caching.Exchange.{
  recv_exreq, recv_exrep, recv_addcache, select_agent, gen_exch_rep, convert_addcache_to_host,
  convert_exreq_to_host, convert_exrep_to_host,
}
use mobile_cloud_caching.Caching.Exchange.Sound.{retrieve_frag-Sound, IsCache-same}
use mobile_cloud_caching.Caching.Exchange.Agent.{expire_offer}
use mathlib.Core.List.{map}
use mobile_cloud_caching.Caching.Exchange.Select.{Selected, select_agent-Selected, get_score-Scored}
use mobile_cloud_caching.Caching.FragReq.{
  count_request, recv_frreq_ori, recv_frreq_fwd, convert_frreq_to_host, data_transmit,
}
use mobile_cloud_caching.Caching.FragReq.Started.{gen_frreq_by_task-Said, start_exchange-Started}
use mobile_cloud_caching.Caching.FileRep.{process_flrep}
use mobile_cloud_caching.Caching.FileRep.Asked.{
  Ample, Asked-Around, Started-Around, create_creq_lem, same_address,
}
use mobile_cloud_caching.Caching.FileRep.Processed.{
  Processed, process_flrep-Processed, update_ref-Uses, chosen,
}
use mobile_cloud_caching.Caching.FileRep.Choose.Ends.{Readable}
use mobile_cloud_caching.Caching.Flood.{flush_flood_id_queue}
use mobile_cloud_caching.Caching.FileRep.Replies.{flush_rinfo}
use mobile_cloud_caching.Caching.Exchange.Offers.{flush_extable}
use mobile_cloud_caching.Caching.Thread.Quiet.{
  Quiet-trans, Quietly, given, after, Around-Quiet, Said-Quiet, create_extable-Quietly,
  flush_flood_id_queue-Quietly, flush_rinfo-Quietly, flush_extable-Quietly,
}
use mobile_cloud_caching.Caching.Thread.Stable.{
  Stable, IsDaemon, Uses-Stable, Stable-Quiet, Quiet-Stable, Sound-Stable,
}

abbrev pub Stably : {A : Type 0} → State → Option (A × State) → Type 0
Stably s = Gives (λ _ s'. Stable s s')

pub Quietly-Stably :
    {A : Type 0} (s : State) {r : Option (A × State)} → IsDaemon s → Quietly s r → Stably s r
Quietly-Stably s d g = weaken g λ _ s' q. Quiet-Stable s s' d q

module _ ⦃k : Kernel⦄ where
  count_request-Quietly :
      (t : CTask) (m : FragReq) (s : State) → Ample s → Quietly s (count_request t m s)
  unfolding count_request find_creq reach_threshold update_count flush_count count_at
  count_request-Quietly t m s memory =
      elim (Option-cases (request_from s.crlist m.file_id m.frag_id)) [
        | inl missing ↦ elim (Option-cases (s.memory s.allocations)) [
          | inl no_memory ↦ absurd (memory s.allocations no_memory)
          | inr (addr, made) ↦
              rw (missing, create_creq_lem addr m.file_id m.frag_id s made, same_address addr)
                (gives refl)
        ]
        | inr (r, found) ↦ elim (Bool-cases (ltb r.count (dec32 s.threshold))) [
          | inl low ↦ rw (found, low) (gives refl)
          | inr high ↦
              let s₀ : State = record s { crlist = count_at r.addr (λ _. 0) s.crlist } in
              let (s₁, ran₁, said) = gen_frreq_by_task-Said t m s₀ in
              let (s₂, ran₂, started) = start_exchange-Started t.dst_ip m.file_id m.frag_id s₁ in
              rw (found, high, ran₁)
                (given s ran₂ (
                  Quiet-trans s s₀ s₂ refl (
                    Quiet-trans s₀ s₁ s₂ (Said-Quiet _ s₀ s₁ said)
                      (Around-Quiet s₁ s₂ (Started-Around started)))))
        ]
      ]

  pub recv_frreq_ori-Stably :
      (t : CTask) (m : FragReq) (s : State)
      → IsDaemon s
      → Ample s
      → Stably s (recv_frreq_ori (record t { payload = of_frag_req m }) s)
  unfolding recv_frreq_ori data_transmit
  recv_frreq_ori-Stably t m s d memory =
      let own = convert_frreq_to_host m in
      let (r, s₁, ran, uses) = update_ref-Uses own.file_id own.frag_id s in
      elim (Bool-cases (t.dst_ip == s.g_my_ip)) [
        | inl here ↦ elim (Bool-cases s.g_act) [
          | inl act ↦ simp (here, act) (rw ran (gives (Uses-Stable s s₁ d uses)))
          | inr idle ↦ simp (here, idle) (gives (Quiet-Stable s s d refl))
        ]
        | inr passing ↦ elim (Bool-cases s.g_act) [
          | inl act ↦
              simp (passing, act)
                (Quietly-Stably s d (
                  bind (count_request-Quietly (record t { payload = of_frag_req m }) own s memory)
                    λ _ s₂ q. gives q))
          | inr idle ↦ simp (passing, idle) (gives (Quiet-Stable s s d refl))
        ]
      ]

  pub recv_frreq_fwd-Stably :
      (t : CTask) (m : FragReq) (s : State)
      → IsDaemon s
      → Stably s (recv_frreq_fwd (record t { payload = of_frag_req m }) s)
  unfolding recv_frreq_fwd data_transmit find_creq flush_count
  recv_frreq_fwd-Stably t m s d =
      let own = convert_frreq_to_host m in
      let (r, s₁, ran, uses) = update_ref-Uses own.file_id own.frag_id s in
      elim (Bool-cases (t.dst_ip == s.g_my_ip)) [
        | inl here ↦ simp here (rw ran (gives (Uses-Stable s s₁ d uses)))
        | inr passing ↦ elim (Option-cases (request_from s.crlist own.file_id own.frag_id)) [
          | inl missing ↦ simp (passing, missing) (gives (Quiet-Stable s s d refl))
          | inr (r, found) ↦ simp (passing, found) (gives (Quiet-Stable s _ d refl))
        ]
      ]

  gen_exch_rep-Quietly :
      (src_ip dst_ip neigh_ip file frag n : ℕ) (s : State)
      → Quietly s (gen_exch_rep src_ip dst_ip neigh_ip file frag n s)
  unfolding gen_exch_rep
  gen_exch_rep-Quietly src_ip dst_ip neigh_ip file frag n s =
      let (s', ran, said) =
        in_block-Said _ _ s (send_message-Says neigh_ip Const.net_diameter _ _) in
      given s ran (Said-Quiet _ s s' said)

  pub recv_exreq-Stably :
      (t : CTask) (m : ExchReq) (s : State)
      → IsDaemon s
      → Stably s (recv_exreq (record t { payload = of_exch_req m }) s)
  unfolding recv_exreq
  recv_exreq-Stably t m s d =
      let own = convert_exreq_to_host m in
      let (n, ran, scored) = get_score-Scored own.file_id own.frag_id s d.cache d.limit d.within in
      Quietly-Stably s d (
        bind (given s ran refl) λ n' s₁ q. after s s₁ q (
          bind (gen_exch_rep-Quietly s₁.g_my_ip own.dst_ip own.src_ip own.file_id own.frag_id n' s₁)
            λ _ s₂ q₂. gives q₂))

  pub recv_exrep-Stably :
      (t : CTask) (m : ExchRep) (s : State)
      → IsDaemon s
      → Stably s (recv_exrep (record t { payload = of_exch_rep m }) s)
  unfolding recv_exrep
  recv_exrep-Stably t m s d =
      Quietly-Stably s d
        (bind (create_extable-Quietly (convert_exrep_to_host m) s) λ _ s₁ q. gives q)

  pub recv_addcache-Stably :
      (t : CTask) (m : AddCache) (s : State)
      → IsDaemon s
      → Stably s (recv_addcache (record t { payload = of_add_cache m }) s)
  unfolding recv_addcache
  recv_addcache-Stably t m s d =
      let own = convert_addcache_to_host m in
      let (r, s₁, ran, sound) =
        retrieve_frag-Sound own.dst_ip own.file_id own.frag_id s d.cache d.limit d.fresh in
      rw ran (gives (Sound-Stable own.file_id s s₁ d sound))

  Selected-Stable : (t : CTask) (s s' : State) → IsDaemon s → Selected t s s' → Stable s s'
  Selected-Stable t s s' d (Selected.asks n dst scored best other said) =
      let s₁ : State = record s { extable = map (expire_offer t.file_id t.frag_id) s.extable } in
      Quiet-Stable s s' d (Quiet-trans s s₁ s' refl (Said-Quiet _ s₁ s' said))
  Selected-Stable t s s' d (Selected.retrieves n scored best sound) =
      let s₁ : State = record s { extable = map (expire_offer t.file_id t.frag_id) s.extable } in
      let d₁ : IsDaemon s₁ = record {
        cache = IsCache-same s s₁ refl refl d.cache;
        limit = d.limit;
        within = d.within;
        fresh = d.fresh;
      } in
      let st = Sound-Stable t.file_id s₁ s' d₁ sound in
      record { cache = st.cache; within = st.within; centers = st.centers }

  pub select_agent-Stably : (t : CTask) (s : State) → IsDaemon s → Stably s (select_agent t s)
  select_agent-Stably t s d =
      let (s', ran, sel) = select_agent-Selected t s d.cache d.limit d.within d.fresh in
      rw ran (gives (Selected-Stable t s s' d sel))

  Processed-Stable :
      (file : ℕ) (s : State) (r : Ret) (s' : State)
      → IsDaemon s
      → Processed file s r s'
      → Stable s s'
  Processed-Stable file s r s' d (Processed.missing {s₁ = s₁} rs uses o) =
      Stable-Quiet s s₁ s' (Uses-Stable s s₁ d uses) refl
  Processed-Stable file s r s' d (Processed.asked {s₁ = s₁} {s₂ = s₂} t rs uses o asked same used) =
      Stable-Quiet s s₁ s' (Uses-Stable s s₁ d uses) (
        Quiet-trans s₁ (chosen t rs s₁) s' refl (
          Quiet-trans (chosen t rs s₁) s₂ s' (Around-Quiet (chosen t rs s₁) s₂ (Asked-Around asked))
            refl))

  pub process_flrep-Stably :
      (t : CTask) (s : State)
      → IsDaemon s
      → Ample s
      → Readable t.file_id s.rinfo
      → Stably s (process_flrep t s)
  process_flrep-Stably t s d memory readable =
      let (r, s', ran, p) = process_flrep-Processed t s memory readable in
      rw ran (gives (Processed-Stable t.file_id s r s' d p))

  pub clean_up-Stably :
      (s : State)
      → IsDaemon s
      → Stably s ((flush_flood_id_queue >> (flush_rinfo >> flush_extable)) s)
  clean_up-Stably s d = Quietly-Stably s d (
      bind (flush_flood_id_queue-Quietly s) λ _ s₁ q.
        bind (after s s₁ q (flush_rinfo-Quietly s₁))
          λ _ s₂ q₂. after s s₂ q₂ (flush_extable-Quietly s₂))
