-- ===== src/Caching/Thread/Handled.antt =====
-- The daemon's thread: `cache` of caching/src/cThread.c takes a task and keeps the cache sound.
use mobile_cloud_caching.Prelude.Commands.{Gives, gives, bind}
use mobile_cloud_caching.Kernel.{Kernel}
use mobile_cloud_caching.Caching.Types.{
  CTask, FileReq, FileRep, FragReq, ExchReq, ExchRep, AddCache, of_file_req, of_file_rep,
  of_frag_req, of_exch_req, of_exch_rep, of_add_cache,
}
use mobile_cloud_caching.Caching.Types.Const
use mobile_cloud_caching.Caching.State.{State}
use mobile_cloud_caching.Caching.FileRep.Asked.{Ample}
use mobile_cloud_caching.Caching.FileRep.Choose.Ends.{Readable}
use mobile_cloud_caching.Caching.Thread.{handle}
use mobile_cloud_caching.Caching.Thread.Quiet.{Fits, recv_flreq-Quietly, recv_flrep-Quietly}
use mobile_cloud_caching.Caching.Thread.Stable.{Stable, IsDaemon}
use mobile_cloud_caching.Caching.Thread.Steps.{
  Quietly-Stably, recv_frreq_ori-Stably, recv_frreq_fwd-Stably, recv_exreq-Stably,
  recv_exrep-Stably, recv_addcache-Stably, select_agent-Stably, process_flrep-Stably,
  clean_up-Stably,
}

module _ ⦃k : Kernel⦄ where
  -- The tasks that the daemon makes: a message of the kind that the task says, or a timer's.
  pub data Proper (s : State) : CTask → Type 0 where
    file_request :
        (t : CTask) (m : FileReq)
        → Proper s (record t { kind = Const.task_file_req_process; payload = of_file_req m })
    file_reply :
        (t : CTask) (m : FileRep)
        → Fits m
        → Proper s (record t { kind = Const.task_file_rep_process; payload = of_file_rep m })
    passing_request :
        (t : CTask) (m : FragReq)
        → Proper s (record t { kind = Const.task_frag_req_update; payload = of_frag_req m })
    forwarded_request :
        (t : CTask) (m : FragReq)
        → Proper s (record t { kind = Const.task_frag_req_flush; payload = of_frag_req m })
    score_request :
        (t : CTask) (m : ExchReq)
        → Proper s (record t { kind = Const.task_exch_send; payload = of_exch_req m })
    score :
        (t : CTask) (m : ExchRep)
        → Proper s (record t { kind = Const.task_exch_update; payload = of_exch_rep m })
    copy_request :
        (t : CTask) (m : AddCache)
        → Proper s (record t { kind = Const.task_add_cache_process; payload = of_add_cache m })
    replies_due :
        (t : CTask)
        → Readable t.file_id s.rinfo
        → Proper s (record t { kind = Const.task_frag_req_send })
    scores_due : (t : CTask) → Proper s (record t { kind = Const.task_add_cache_send })
    cleaning : (t : CTask) → Proper s (record t { kind = Const.task_clean_up })

  -- Taken in a state whose cache table is well formed and within its size, where allocations
  -- succeed and the next block is not one of the table's own, every task that the daemon's thread
  -- knows, a message of its kind or a timer's, is handled without an oops; the table stays well
  -- formed and within its size, and keeps every service centre's entry, but for the count of its
  -- references. A file reply must fit the map of eight fragments, and the replies for a file whose
  -- time is over count no more fragments than their maps list.
  pub handle-Stable :
      (t : CTask) (s : State)
      → IsDaemon s
      → Ample s
      → Proper s t
      → Gives (λ _ s'. Stable s s') (handle t s)
  unfolding handle
  handle-Stable t s d memory (Proper.file_request t₀ m) =
      bind (Quietly-Stably s d (recv_flreq-Quietly (record t₀ { kind = 1 }) m s))
        λ _ s₁ st. gives st
  handle-Stable t s d memory (Proper.file_reply t₀ m fits) =
      bind (Quietly-Stably s d (recv_flrep-Quietly (record t₀ { kind = 2 }) m s fits))
        λ _ s₁ st. gives st
  handle-Stable t s d memory (Proper.passing_request t₀ m) =
      bind (recv_frreq_ori-Stably (record t₀ { kind = 3 }) m s d memory) λ _ s₁ st. gives st
  handle-Stable t s d memory (Proper.forwarded_request t₀ m) =
      bind (recv_frreq_fwd-Stably (record t₀ { kind = 4 }) m s d) λ _ s₁ st. gives st
  handle-Stable t s d memory (Proper.score_request t₀ m) =
      bind (recv_exreq-Stably (record t₀ { kind = 5 }) m s d) λ _ s₁ st. gives st
  handle-Stable t s d memory (Proper.score t₀ m) =
      bind (recv_exrep-Stably (record t₀ { kind = 6 }) m s d) λ _ s₁ st. gives st
  handle-Stable t s d memory (Proper.copy_request t₀ m) =
      bind (recv_addcache-Stably (record t₀ { kind = 7 }) m s d) λ _ s₁ st. gives st
  handle-Stable t s d memory (Proper.replies_due t₀ readable) =
      bind (process_flrep-Stably (record t₀ { kind = 8 }) s d memory readable) λ _ s₁ st. gives st
  handle-Stable t s d memory (Proper.scores_due t₀) =
      bind (select_agent-Stably (record t₀ { kind = 9 }) s d) λ _ s₁ st. gives st
  handle-Stable t s d memory (Proper.cleaning t₀) = clean_up-Stably s d
