-- ===== src/Update.antt =====
-- `update_aodv_route` of kaodv/src/aodv_route.c: what a message says of a destination, entered into
-- the routing table if it is news.
pub mod Safe
pub mod Decide
use mobile_cloud_caching.Prelude.{
  ℕ, leb, ◌==◌, if◌then◌else◌, Bool, true, false, not, ◌&&◌, Option, none, some,
}
use mobile_cloud_caching.Prelude.Words.{add64}
use mobile_cloud_caching.Types.{Ptr, null, AodvRoute}
use mobile_cloud_caching.Types.Const
use mobile_cloud_caching.Kernel.{Kernel}
use mobile_cloud_caching.World.{
  World, Cmd, pure, when, ◌>>=◌, ◌>>◌, get, emit, Event, Ret, ret, fail, enomem, getcurrtime,
}
use mobile_cloud_caching.World.Memory.{load_route, set_route}
use mobile_cloud_caching.KernelRoute.{insert_kernel_route_entry, delete_kernel_route_entry}
use mobile_cloud_caching.Route.{find_aodv_route, create_aodv_route}
use mobile_cloud_caching.Neigh.{valid_aodv_neigh}
use mobile_cloud_caching.Utils.{seq_greater}

-- The two tests by which an entry that is there keeps its values.
unfoldable pub keeps_entry : AodvRoute → ℕ → ℕ → Bool
keeps_entry r metric seq =
    if seq_greater r.seq seq then true else r.route_valid && (seq == r.seq) && leb r.metric metric

module _ ⦃k : Kernel⦄ where
  -- The assignments and calls at the end, on the entry found or made.
  unfoldable pub install : Ptr → ℕ → ℕ → ℕ → ℕ → Ptr → Cmd Ret
  install tmp_route ip next_hop_ip metric seq dev = do
    set_route tmp_route (λ r. record r {
      seq = seq;
      next_hop = next_hop_ip;
      metric = metric;
      dev = dev;
      route_valid = true;
      route_seq_valid = true;
    })
    r ← load_route tmp_route
    delete_kernel_route_entry r.ip r.next_hop r.netmask
    insert_kernel_route_entry r.ip r.next_hop r.netmask r.dev
    emit (Event.ipq_sent ip)
    curr_time ← getcurrtime
    set_route tmp_route (λ r. record r { lifetime = add64 curr_time Const.active_route_timeout })
    pure (ret 0)

  unfoldable pub update_aodv_route : ℕ → ℕ → ℕ → ℕ → Ptr → Cmd Ret
  update_aodv_route ip next_hop_ip metric seq dev = do
    tmp_route ← find_aodv_route ip
    neigh ← valid_aodv_neigh next_hop_ip
    if not neigh
        then pure (ret 0)
        else if tmp_route == null
        then (do
          new_route ← create_aodv_route ip
          if new_route == null then pure (fail enomem) else do
            set_route new_route (λ r. record r { ip = ip })
            install new_route ip next_hop_ip metric seq dev)
        else do
          r ← load_route tmp_route
          if keeps_entry r metric seq
              then pure (ret 0)
              else install tmp_route ip next_hop_ip metric seq dev
