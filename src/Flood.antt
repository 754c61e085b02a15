-- ===== src/Flood.antt =====
-- kaodv/src/flood_id.c: the identifiers of the floods that the node has seen, the latest first.
pub mod Seen
use mobile_cloud_caching.Prelude.{
  ℕ, ◌+◌, ◌==◌, if◌then◌else◌, Bool, true, false, ◌&&◌, Option, none, some, List, [], ◌∷◌, length,
}
use mobile_cloud_caching.Types.{FloodId}
use mobile_cloud_caching.Types.Const
use mobile_cloud_caching.Types.TaskType
use mobile_cloud_caching.Kernel.{Kernel, time_before}
use mobile_cloud_caching.World.{
  World, Cmd, pure, ◌>>=◌, ◌>>◌, get, modify, Ret, ret, fail, enomem, getcurrtime,
}
use mobile_cloud_caching.World.Memory.{kmalloc}
use mobile_cloud_caching.Timers.{insert_timer, update_timer_queue}

unfoldable pub cleanup_flood_id_queue : Cmd (Unit {0})
cleanup_flood_id_queue = modify λ w. record w { flood_id_queue = [] }

unfoldable pub insert_flood_id : ℕ → ℕ → ℕ → ℕ → Cmd Ret
unfolding kmalloc
insert_flood_id src_ip dst_ip id lt = do
  block ← kmalloc
  elim block [
    | none ↦ pure (fail enomem)
    | some _ ↦ do
      let new_flood_id : FloodId = record {
        src_ip = src_ip;
        dst_ip = dst_ip;
        id = id;
        lifetime = lt;
      }
      modify λ w. record w { flood_id_queue = new_flood_id ∷ w.flood_id_queue }
      pure (ret 0)
  ]

module _ ⦃k : Kernel⦄ where
  -- The search ends at the first entry that has expired, whatever stands behind it.
  unfoldable pub find_flood_walk : ℕ → ℕ → ℕ → List FloodId → Option FloodId
  find_flood_walk src_ip id curr [] = none
  find_flood_walk src_ip id curr (f ∷ fs) =
      if time_before f.lifetime curr
      then none
      else if (src_ip == f.src_ip) && (id == f.id)
      then some f
      else find_flood_walk src_ip id curr fs

  unfoldable pub find_flood_id : ℕ → ℕ → Cmd (Option FloodId)
  unfolding find_flood_walk getcurrtime
  find_flood_id src_ip id = do
    curr ← getcurrtime
    w ← get
    pure (find_flood_walk src_ip id curr w.flood_id_queue)

  -- The entries that stay, and how many were freed.
  unfoldable pub flush_flood_walk : ℕ → List FloodId → List FloodId × ℕ
  flush_flood_walk curr_time [] = ([], 0)
  flush_flood_walk curr_time (f ∷ fs) =
      let rest = flush_flood_walk curr_time fs in
      if time_before f.lifetime curr_time then (rest.0, rest.1 + 1) else (f ∷ rest.0, rest.1)

  unfoldable pub flush_flood_id_queue : Cmd ℕ
  unfolding flush_flood_walk insert_timer update_timer_queue
  flush_flood_id_queue = do
    curr_time ← getcurrtime
    w ← get
    let flushed = flush_flood_walk curr_time w.flood_id_queue
    modify λ w. record w { flood_id_queue = flushed.0 }
    insert_timer TaskType.cleanup Const.hello_interval w.g_my_ip
    update_timer_queue
    pure flushed.1
