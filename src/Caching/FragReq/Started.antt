-- ===== src/Caching/FragReq/Started.antt =====
-- What caching/src/cFragReq.c sends when the count of a request is at its threshold.
use mobile_cloud_caching.Prelude.{ℕ, ◌%◌, ◌≡◌, some}
use mobile_cloud_caching.Prelude.Words.{dec32}
use mobile_cloud_caching.Kernel.{Kernel, htonl}
use mobile_cloud_caching.Caching.Types.{CTask, FragReq, of_frag_req, of_exch_req}
use mobile_cloud_caching.Caching.Types.Const
use mobile_cloud_caching.Caching.State.{State, Event, ret}
use mobile_cloud_caching.Caching.Socket.Said.{
  Said, send_message-Says, local_broadcast-Says, in_block-Said,
}
use mobile_cloud_caching.Caching.Timer.Queued.{Queued, set_timer-Queued}
use mobile_cloud_caching.Caching.Exchange.{gen_exch_req}
use mobile_cloud_caching.Caching.FragReq.{gen_frreq_by_task, start_exchange}

module _ ⦃k : Kernel⦄ where
  -- The request as it goes on, and the question to the neighbours for their scores.
  abbrev pub forwarding : CTask → FragReq → Event
  forwarding task request = Event.sent (htonl request.dst_ip) (dec32 task.ttl % 256) (
      of_frag_req (record {
        kind = Const.frag_req_fwd_message;
        src_ip = htonl request.src_ip;
        dst_ip = htonl request.dst_ip;
        file_id = htonl request.file_id;
        frag_id = htonl request.frag_id;
      }))

  abbrev pub asking_scores : ℕ → ℕ → ℕ → State → Event
  asking_scores dst_ip file frag s = Event.sent s.g_broadcast_ip 1 (
      of_exch_req (record {
        kind = Const.exchange_req_message;
        src_ip = htonl s.g_my_ip;
        dst_ip = htonl dst_ip;
        file_id = htonl file;
        frag_id = htonl frag;
      }))

  -- An exchange is started: the neighbours are asked, and a timer waits for their scores.
  pub record Started (dst_ip file frag : ℕ) (s s' : State) : Type 0 where
    pub between : State
    pub asked : Said (asking_scores dst_ip file frag s) s between
    pub waits :
        Queued Const.task_add_cache_send Const.wait_exch_rep_time dst_ip file frag between s'

  pub gen_exch_req-Said :
      (dst_ip file frag : ℕ) (s : State)
      → (s' : State) × (gen_exch_req s.g_my_ip dst_ip file frag s ≡ some (ret 0, s'))
        × Said (asking_scores dst_ip file frag s) s s'
  unfolding gen_exch_req
  gen_exch_req-Said dst_ip file frag s = in_block-Said _ _ s (local_broadcast-Says 1 _ _)

  pub gen_frreq_by_task-Said :
      (task : CTask) (request : FragReq) (s : State)
      → (s' : State) × (gen_frreq_by_task task request s ≡ some (ret 0, s'))
        × Said (forwarding task request) s s'
  unfolding gen_frreq_by_task
  gen_frreq_by_task-Said task request s = in_block-Said _ _ s (send_message-Says _ _ _ _)

  pub start_exchange-Started :
      (dst_ip file frag : ℕ) (s : State)
      → (s' : State) × (start_exchange dst_ip file frag s ≡ some (tt, s'))
        × Started dst_ip file frag s s'
  unfolding start_exchange
  start_exchange-Started dst_ip file frag s =
      let (s₁, ran₁, said) = gen_exch_req-Said dst_ip file frag s in
      let (s₂, ran₂, queued) =
        set_timer-Queued Const.task_add_cache_send Const.wait_exch_rep_time dst_ip file frag s₁ in
      (s₂, rw ran₁ ran₂, record { between = s₁; asked = said; waits = queued })
