-- ===== src/Thread.antt =====
-- The thread of kaodv/src/aodv_thread.c: it takes the tasks one by one and hands each to its
-- handler. Sleeping, waking and the flags that end the thread are left out.
use mobile_cloud_caching.Prelude.{ℕ, zero, suc, ◌==◌, if◌then◌else◌, Bool, true, false, none, some}
use mobile_cloud_caching.Types.{AodvTask}
use mobile_cloud_caching.Types.TaskType
use mobile_cloud_caching.Kernel.{Kernel}
use mobile_cloud_caching.World.{Cmd, pure, ◌>>=◌, ◌>>◌}
use mobile_cloud_caching.Tasks.{get_task}
use mobile_cloud_caching.Route.{flush_aodv_route_table}
use mobile_cloud_caching.Flood.{flush_flood_id_queue}
use mobile_cloud_caching.Neigh.{delete_aodv_neigh}
use mobile_cloud_caching.Hello.{send_hello}
use mobile_cloud_caching.Rerr.{recv_rerr}
use mobile_cloud_caching.Rrep.{recv_rrep}
use mobile_cloud_caching.Rreq.{recv_rreq, resend_rreq}

module _ ⦃k : Kernel⦄ where
  -- The `switch` on the type of the task.
  unfoldable pub handle : AodvTask → Cmd (Unit {0})
  handle t =
      if t.kind == TaskType.rreq
      then (do recv_rreq t; pure tt)
      else if t.kind == TaskType.rrep
      then (do recv_rrep t; pure tt)
      else if t.kind == TaskType.rerr
      then (do recv_rerr t; pure tt)
      else if t.kind == TaskType.cleanup
      then (do flush_flood_id_queue; flush_aodv_route_table; pure tt)
      else if t.kind == TaskType.hello
      then (do send_hello; pure tt)
      else if t.kind == TaskType.neighbor
      then (do delete_aodv_neigh t.src_ip; pure tt)
      else if t.kind == TaskType.route_cleanup
      then (do flush_aodv_route_table; pure tt)
      else if t.kind == TaskType.resend_rreq
      then (do resend_rreq t; pure tt)
      else pure tt

  -- `while ((tmp_task = get_task ()) != NULL)`, on fuel: false means that the fuel ran out.
  unfoldable pub drain : ℕ → Cmd Bool
  drain zero = pure false
  drain (suc fuel) = do
    tmp_task ← get_task
    elim tmp_task [ none ↦ pure true | some t ↦ do handle t; drain fuel ]
