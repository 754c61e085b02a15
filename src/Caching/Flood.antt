-- ===== src/Caching/Flood.antt =====
-- caching/src/cFlood.c: the identifiers of the file requests that the node has seen, the latest first.
use mobile_cloud_caching.Prelude.{
  ℕ, ◌+◌, ◌==◌, if◌then◌else◌, ◌&&◌, Option, none, some, List, [], ◌∷◌,
}
use mobile_cloud_caching.Prelude.Commands.{pure, ◌>>=◌, ◌>>◌, get, modify}
use mobile_cloud_caching.Kernel.{Kernel, time_before}
use mobile_cloud_caching.Caching.Types.{CFloodId}
use mobile_cloud_caching.Caching.Types.Const
use mobile_cloud_caching.Caching.State.{Cmd, kmalloc, getcurrtime, Ret, ret, fail, enomem}
use mobile_cloud_caching.Caching.Timer.{insert_timer, update_timer_queue}

unfoldable pub cleanup_flood_id_queue : Cmd (Unit {0})
cleanup_flood_id_queue = modify λ s. record s { flood_id_queue = [] }

unfoldable pub insert_flood_id : ℕ → ℕ → ℕ → ℕ → Cmd Ret
unfolding kmalloc
insert_flood_id src_ip dst_ip id lt = do
  block ← kmalloc
  elim block [
    | none ↦ pure (fail enomem)
    | some _ ↦ do
      let new : CFloodId = record { src_ip = src_ip; dst_ip = dst_ip; id = id; lifetime = lt }
      modify λ s. record s { flood_id_queue = new ∷ s.flood_id_queue }
      pure (ret 0)
  ]

module _ ⦃k : Kernel⦄ where
  -- The walk stops at the first entry that has expired.
  unfoldable pub find_flood_walk : ℕ → ℕ → ℕ → List CFloodId → Option CFloodId
  find_flood_walk src_ip id curr [] = none
  find_flood_walk src_ip id curr (f ∷ fs) =
      if time_before f.lifetime curr
      then none
      else if (src_ip == f.src_ip) && (id == f.id)
      then some f
      else find_flood_walk src_ip id curr fs

  unfoldable pub find_flood_id : ℕ → ℕ → Cmd (Option CFloodId)
  unfolding find_flood_walk getcurrtime
  find_flood_id src_ip id = do
    curr ← getcurrtime
    s ← get
    pure (find_flood_walk src_ip id curr s.flood_id_queue)

  -- The entries that have not expired, and how many had.
  unfoldable pub flush_walk : ℕ → List CFloodId → List CFloodId × ℕ
  flush_walk curr [] = ([], 0)
  flush_walk curr (f ∷ fs) =
      let rest = flush_walk curr fs in
      if time_before f.lifetime curr then (rest.0, rest.1 + 1) else (f ∷ rest.0, rest.1)

  unfoldable pub flush_flood_id_queue : Cmd ℕ
  unfolding flush_walk getcurrtime
  flush_flood_id_queue = do
    curr_time ← getcurrtime
    s ← get
    let flushed = flush_walk curr_time s.flood_id_queue
    modify λ s'. record s' { flood_id_queue = flushed.0 }
    insert_timer Const.task_clean_up Const.flush_interval s.g_my_ip 0 0
    update_timer_queue
    pure flushed.1
