-- ===== src/Hello.antt =====
-- kaodv/src/hello.c: the hello messages by which neighbours know one another. AODV_SIGNAL and
-- LINK_LIMIT are not defined.
pub mod Rearm
use mobile_cloud_caching.Prelude.{ℕ, ◌+◌, ◌%◌, ◌==◌, if◌then◌else◌, true, false, Option, none, some}
use mobile_cloud_caching.Prelude.Words.{add64}
use mobile_cloud_caching.Types.{Ptr, null, Rrep, AodvTask, Message, of_rrep}
use mobile_cloud_caching.Types.Const
use mobile_cloud_caching.Types.TaskType
use mobile_cloud_caching.Kernel.{Kernel, htonl}
use mobile_cloud_caching.World.{
  World, Cmd, pure, ◌>>=◌, ◌>>◌, get, Ret, ret, fail, eperm, getcurrtime,
}
use mobile_cloud_caching.World.Memory.{kmalloc, load_route, load_neigh, set_neigh}
use mobile_cloud_caching.Timers.{insert_timer, delete_timer, update_timer_queue}
use mobile_cloud_caching.Neigh.{find_aodv_neigh, create_aodv_neigh, update_aodv_neigh}
use mobile_cloud_caching.Device.{local_broadcast}

module _ ⦃k : Kernel⦄ where
  -- The inner `none` is a call that ends without a `return`. The `a` bit and the metric are sent as
  -- they read.
  unfoldable pub send_hello : Cmd (Option Ret)
  send_hello = do
    block ← kmalloc
    elim block [
      | none ↦ pure (some (ret 0))
      | some b ↦ do
        w ← get
        g_my_route ← load_route w.g_my_route
        local_broadcast 1 (
            of_rrep (record {
              kind = TaskType.rrep;
              a = b.junk % 2 == 1;
              metric = b.junk % 256;
              dst_ip = g_my_route.ip;
              dst_seq = htonl g_my_route.seq;
              src_ip = g_my_route.ip;
              lifetime = htonl Const.my_route_timeout;
            }))
        insert_timer TaskType.hello Const.hello_interval w.g_my_ip
        update_timer_queue
        pure none
    ]

  -- The part of `recv_hello` that finds the neighbour or makes it; null is a failure.
  unfoldable pub hello_neigh : Rrep → AodvTask → Cmd Ptr
  hello_neigh tmp_rrep tmp_packet = do
    found ← find_aodv_neigh tmp_rrep.dst_ip
    if found == null
        then (do
          tmp_neigh ← create_aodv_neigh tmp_rrep.dst_ip
          if tmp_neigh == null then pure null else do
            set_neigh tmp_neigh
                (λ n. record n { hw_addr = tmp_packet.src_hw_addr; dev = tmp_packet.dev })
            pure tmp_neigh)
        else pure found

  unfoldable pub recv_hello : Rrep → AodvTask → Cmd Ret
  recv_hello tmp_rrep tmp_packet = do
    tmp_neigh ← hello_neigh tmp_rrep tmp_packet
    if tmp_neigh == null then pure (fail eperm) else do
      n ← load_neigh tmp_neigh
      delete_timer n.ip TaskType.neighbor
      insert_timer TaskType.neighbor 3100 n.ip
      update_timer_queue
      now ← getcurrtime
      set_neigh tmp_neigh (λ n. record n { lifetime = add64 (add64 tmp_rrep.lifetime now) 20 })
      update_aodv_neigh tmp_neigh tmp_rrep
      pure (ret 0)
