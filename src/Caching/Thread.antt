-- ===== src/Caching/Thread.antt =====
-- caching/src/cThread.c: the daemon's thread, which takes the tasks in turn.
pub mod Quiet
pub mod Stable
pub mod Steps
pub mod Handled
use mobile_cloud_caching.Prelude.{ℕ, zero, suc, ◌==◌, Bool, true, false, none, some, if◌then◌else◌}
use mobile_cloud_caching.Prelude.Commands.{pure, ◌>>=◌, ◌>>◌}
use mobile_cloud_caching.Kernel.{Kernel}
use mobile_cloud_caching.Caching.Types.{CTask}
use mobile_cloud_caching.Caching.Types.Const
use mobile_cloud_caching.Caching.State.{Cmd}
use mobile_cloud_caching.Caching.Task.{get_task}
use mobile_cloud_caching.Caching.Flood.{flush_flood_id_queue}
use mobile_cloud_caching.Caching.FileReq.{recv_flreq}
use mobile_cloud_caching.Caching.FileRep.{recv_flrep, process_flrep}
use mobile_cloud_caching.Caching.FileRep.Replies.{flush_rinfo}
use mobile_cloud_caching.Caching.FragReq.{recv_frreq_ori, recv_frreq_fwd}
use mobile_cloud_caching.Caching.Exchange.{recv_exreq, recv_exrep, recv_addcache, select_agent}
use mobile_cloud_caching.Caching.Exchange.Offers.{flush_extable}

module _ ⦃k : Kernel⦄ where
  -- The `switch` on the type of the task.
  unfoldable pub handle : CTask → Cmd (Unit {0})
  handle t =
      if t.kind == Const.task_file_req_process
      then (do recv_flreq t; pure tt)
      else if t.kind == Const.task_file_rep_process
      then (do recv_flrep t; pure tt)
      else if t.kind == Const.task_frag_req_update
      then (do recv_frreq_ori t; pure tt)
      else if t.kind == Const.task_frag_req_flush
      then (do recv_frreq_fwd t; pure tt)
      else if t.kind == Const.task_exch_send
      then (do recv_exreq t; pure tt)
      else if t.kind == Const.task_exch_update
      then (do recv_exrep t; pure tt)
      else if t.kind == Const.task_add_cache_process
      then (do recv_addcache t; pure tt)
      else if t.kind == Const.task_frag_req_send
      then (do process_flrep t; pure tt)
      else if t.kind == Const.task_add_cache_send
      then (do select_agent t; pure tt)
      else if t.kind == Const.task_clean_up
      then (do flush_flood_id_queue; flush_rinfo; flush_extable)
      else pure tt

  -- `while ((tmp_task = get_task()) != NULL)`, on fuel: false means that the fuel ran out.
  unfoldable pub drain : ℕ → Cmd Bool
  drain zero = pure false
  drain (suc fuel) = do
    task ← get_task
    elim task [ none ↦ pure true | some t ↦ do handle t; drain fuel ]
