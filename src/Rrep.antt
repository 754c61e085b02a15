-- ===== src/Rrep.antt =====
-- kaodv/src/rrep.c: route replies, received, passed on towards the node that asked, and made.
pub mod Safe
use mobile_cloud_caching.Prelude.{
  ℕ, ◌+◌, ◌-◌, ◌%◌, ◌==◌, if◌then◌else◌, Bool, true, false, not, Option, none, some,
}
use mobile_cloud_caching.Prelude.Words.{inc8}
use mobile_cloud_caching.Types.{Ptr, null, AodvRoute, Rrep, AodvTask, Message, of_rrep}
use mobile_cloud_caching.Types.Const
use mobile_cloud_caching.Types.TaskType
use mobile_cloud_caching.Kernel.{Kernel, htonl, ntohl}
use mobile_cloud_caching.World.{
  World, Cmd, pure, oops, ◌>>=◌, ◌>>◌, get, modify, Ret, ret, fail, ehostunreach, getcurrtime,
}
use mobile_cloud_caching.World.Memory.{kmalloc, load_route}
use mobile_cloud_caching.Route.{find_aodv_route}
use mobile_cloud_caching.Timers.{delete_timer, update_timer_queue}
use mobile_cloud_caching.Neigh.{valid_aodv_neigh}
use mobile_cloud_caching.Update.{update_aodv_route}
use mobile_cloud_caching.Device.{send_message}
use mobile_cloud_caching.Hello.{recv_hello}

module _ ⦃k : Kernel⦄ where
  unfoldable pub convert_rrep_to_host : Rrep → Rrep
  convert_rrep_to_host r = record r { dst_seq = ntohl r.dst_seq; lifetime = ntohl r.lifetime }

  unfoldable pub convert_rrep_to_network : Rrep → Rrep
  convert_rrep_to_network r = record r { dst_seq = htonl r.dst_seq; lifetime = htonl r.lifetime }

  -- A reply from a node to itself is a hello message.
  unfoldable pub check_rrep : Rrep → AodvTask → Cmd Bool
  check_rrep tmp_rrep tmp_packet =
      if tmp_rrep.src_ip == tmp_rrep.dst_ip
      then (do
        modify λ w. record w { aodv_overhead = (w.aodv_overhead + 4_294_967_295) % 4_294_967_296 }
        recv_hello tmp_rrep tmp_packet
        pure false)
      else do
        neigh ← valid_aodv_neigh tmp_packet.src_ip
        if not neigh
            then pure false
            else do delete_timer tmp_rrep.dst_ip TaskType.resend_rreq; update_timer_queue; pure true

  unfoldable pub recv_rrep : AodvTask → Cmd Ret
  recv_rrep tmp_packet = elim tmp_packet.payload [
    | of_rrep message ↦ do
      let host = convert_rrep_to_host message
      checked ← check_rrep host tmp_packet
      if not checked then pure (ret 0) else do
        let tmp_rrep : Rrep = record host { metric = inc8 host.metric }
        update_aodv_route tmp_rrep.dst_ip tmp_packet.src_ip tmp_rrep.metric tmp_rrep.dst_seq
            tmp_packet.dev
        send_route ← find_aodv_route tmp_rrep.src_ip
        if send_route == null then pure (ret 0) else do
          r ← load_route send_route
          if r.self_route then pure (ret 0) else do
            send_message r.next_hop Const.net_diameter (of_rrep (convert_rrep_to_network tmp_rrep))
                null
            pure (ret 0)
    | _ ↦ oops
  ]

  -- The lifetime that a reply states for a route.
  unfoldable pub reply_lifetime : ℕ → AodvRoute → ℕ
  reply_lifetime now dst_route =
      (dst_route.lifetime + 18_446_744_073_709_551_616 - now) % 4_294_967_296

  -- The inner `none` is a call that ends without a `return`. The `a` bit is sent as it reads.
  unfoldable pub send_rrep : AodvRoute → AodvRoute → Cmd (Option Ret)
  send_rrep src_route dst_route = do
    block ← kmalloc
    elim block [
      | none ↦ pure (some (ret 0))
      | some b ↦ do
        lifetime ←
            if dst_route.self_route
            then pure Const.my_route_timeout
            else do now ← getcurrtime; pure (reply_lifetime now dst_route)
        send_message src_route.next_hop Const.net_diameter
            (of_rrep (record {
              kind = TaskType.rrep;
              a = b.junk % 2 == 1;
              metric = dst_route.metric;
              dst_ip = dst_route.ip;
              dst_seq = htonl dst_route.seq;
              src_ip = src_route.ip;
              lifetime = htonl lifetime;
            }))
            null
        pure none
    ]

  unfoldable pub gen_rrep : ℕ → ℕ → Cmd Ret
  gen_rrep src_ip dst_ip = do
    src ← find_aodv_route src_ip
    if src == null then pure (fail ehostunreach) else do
      dst ← find_aodv_route dst_ip
      if dst == null then pure (fail ehostunreach) else do
        src_route ← load_route src
        dst_route ← load_route dst
        send_rrep src_route dst_route
        pure (ret 0)
