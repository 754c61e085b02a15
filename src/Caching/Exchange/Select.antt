-- ===== src/Caching/Exchange/Select.antt =====
-- The exchange of caching/src/cExchange.c seen from one node: its own score, and what `select_agent`
-- does with the fragment.
use mathlib.Core.List.{map}
use mathlib.Core.Path.{subst}
use mobile_cloud_caching.Prelude.{
  ℕ, ◌+◌, ◌-◌, ◌%◌, ◌<◌, ◌≤◌, ◌≡◌, ◌≢◌, refl, inl, inr, leb, ◌==◌, none, some, length, Bool-cases,
  Option-cases, arith,
}
use mobile_cloud_caching.Kernel.{Kernel, htonl}
use mobile_cloud_caching.Caching.Types.{CTask, of_add_cache}
use mobile_cloud_caching.Caching.Types.Const
use mobile_cloud_caching.Types.{Ptr}
use mobile_cloud_caching.Caching.State.{State, Event, ret}
use mobile_cloud_caching.Caching.Socket.Said.{Said, send_message-Says, in_block-Said}
use mobile_cloud_caching.Caching.Table.{fragment_from}
use mobile_cloud_caching.Caching.Table.Entries.{IsCache, Apart}
use mobile_cloud_caching.Caching.Exchange.{get_score, count_fragments, gen_add_cache, select_agent}
use mobile_cloud_caching.Caching.Exchange.Offers.{choose_agent}
use mobile_cloud_caching.Caching.Exchange.Agent.{
  Best, expire_offer, choose_agent-Best, choose_agent-expires,
}
use mobile_cloud_caching.Caching.Exchange.Sound.{Sound, IsCache-same, retrieve_frag-Sound}

-- A node's score for a fragment: nothing if it holds the fragment or enough of the file, and else
-- one more than the room that it has left.
pub data Scored (file frag : ℕ) (s : State) (score : ℕ) : Type 0 where
  holds : fragment_from s.ctable file frag ≢ none → score ≡ 0 → Scored file frag s score
  has_enough : s.kval - 1 ≤ count_fragments file s.ctable → score ≡ 0 → Scored file frag s score
  offers :
      fragment_from s.ctable file frag ≡ none
      → count_fragments file s.ctable < s.kval - 1
      → score + length s.ctable ≡ s.buf_size + 1
      → Scored file frag s score

-- On a well-formed cache table within its size `getScore` changes nothing and gives 0 if the node
-- holds the fragment or KVAL - 1 or more fragments of its file, and else the number of entries for
-- which there is room and one more.
pub get_score-Scored :
    (file frag : ℕ) (s : State)
    → IsCache s
    → s.buf_size < 2_147_483_648
    → length s.ctable ≤ s.buf_size
    → (score : ℕ) × (get_score file frag s ≡ some (score, s)) × Scored file frag s score
unfolding get_score
get_score-Scored file frag s v small within =
    elim (Option-cases (fragment_from s.ctable file frag)) [
      | inr (c, e) ↦ (0, rw (e, get_score), Scored.holds (λ n. cc) refl)
      | inl e ↦ elim (Bool-cases (leb (s.kval - 1) (count_fragments file s.ctable))) [
        | inl many ↦ (0, rw (e, many, get_score), Scored.has_enough (ground arith) refl)
        | inr few ↦ (
          (s.buf_size + 4_294_967_296 - s.ct_len + 1) % 4_294_967_296,
          rw (e, few, get_score),
          Scored.offers e (ground arith) (omega (arith, v.counted, small, within)),
        )
      ]
    ]

module _ ⦃k : Kernel⦄ where
  -- The message that asks a neighbour to keep a fragment that is at an address.
  abbrev pub asking : ℕ → ℕ → ℕ → ℕ → Event
  asking neighbour dst_ip file frag = Event.sent neighbour Const.net_diameter (
      of_add_cache (record {
        kind = Const.add_cache_message;
        file_id = htonl file;
        frag_id = htonl frag;
        src_ip = htonl neighbour;
        dst_ip = htonl dst_ip;
      }))

  gen_add_cache-Said :
      (neighbour dst_ip file frag : ℕ) (s : State)
      → (s' : State) × (gen_add_cache neighbour dst_ip file frag s ≡ some (ret 0, s'))
        × Said (asking neighbour dst_ip file frag) s s'
  unfolding gen_add_cache
  gen_add_cache-Said neighbour dst_ip file frag s =
      in_block-Said _ _ s (send_message-Says neighbour Const.net_diameter _ _)

  abbrev expired : CTask → State → State
  expired task s = record s { extable = map (expire_offer task.file_id task.frag_id) s.extable }

  -- What `select_agent` does with a fragment, by the address that is best.
  pub data Selected (task : CTask) (s s' : State) : Type 0 where
    asks :
        (score dst : ℕ)
        → get_score task.file_id task.frag_id s ≡ some (score, s)
        → Best task.file_id task.frag_id score s.g_my_ip s.extable dst
        → dst ≢ s.g_my_ip
        → Said (asking dst task.dst_ip task.file_id task.frag_id) (expired task s) s'
        → Selected task s s'
    retrieves :
        (score : ℕ)
        → get_score task.file_id task.frag_id s ≡ some (score, s)
        → Best task.file_id task.frag_id score s.g_my_ip s.extable s.g_my_ip
        → Sound task.file_id (expired task s) s'
        → Selected task s s'

  -- On a well-formed cache table within its size, whose next block is not one of its own,
  -- `select_agent` meets no oops, returns 0 and expires every offer for the fragment. If an offer
  -- is above the node's own score, its log differs at most by the message that asks a neighbour
  -- with the highest score of all to keep the fragment; if the best address is the node's own, the
  -- fragment is retrieved, and the table stays well formed, with every service centre's entry,
  -- within its size and within the limit on the file's fragments.
  pub select_agent-Selected :
      (task : CTask) (s : State)
      → IsCache s
      → s.buf_size < 2_147_483_648
      → length s.ctable ≤ s.buf_size
      → ((a : Ptr) → s.memory s.allocations ≡ some a → Apart a s.ctable)
      → (s' : State) × (select_agent task s ≡ some (ret 0, s')) × Selected task s s'
  unfolding select_agent
  select_agent-Selected task s v small within fresh =
      let own = get_score-Scored task.file_id task.frag_id s v small within in
      let best = choose_agent-Best task.file_id task.frag_id own.0 s.g_my_ip s.extable in
      let used = choose_agent-expires task.file_id task.frag_id s.extable own.0 s.g_my_ip in
      let dst = (choose_agent task.file_id task.frag_id own.0 s.g_my_ip s.extable).0 in
      elim (Bool-cases (dst == s.g_my_ip)) [
        | inr other ↦
            let said =
              gen_add_cache-Said dst task.dst_ip task.file_id task.frag_id (expired task s) in
            (
              said.0,
              rw (own.1, used, other, said.1),
              Selected.asks own.0 dst own.1 best (ground arith) said.2,
            )
        | inl self ↦
            let ran =
              retrieve_frag-Sound task.dst_ip task.file_id task.frag_id (expired task s)
                (IsCache-same s _ refl refl v) small fresh in
            (
              ran.1,
              rw (own.1, used, self, ran.2),
              Selected.retrieves own.0 own.1
                  (subst (Best task.file_id task.frag_id own.0 s.g_my_ip s.extable) (ground arith)
                    best)
                  ran.3,
            )
      ]
