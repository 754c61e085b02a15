-- ===== src/Rreq.antt =====
-- kaodv/src/rreq.c: route requests, received, answered or passed on, made and repeated.
pub mod Safe
pub mod Once
pub mod Pending
use mobile_cloud_caching.Prelude.{
  ℕ, ◌+◌, ◌-◌, ◌%◌, leb, ◌==◌, if◌then◌else◌, Bool, true, false, not, ◌&&◌, Option, none, some,
}
use mobile_cloud_caching.Prelude.Words.{inc8, inc32, add64}
use mobile_cloud_caching.Types.{Ptr, null, AodvRoute, Rreq, AodvTask, Message, of_rreq}
use mobile_cloud_caching.Types.Const
use mobile_cloud_caching.Types.TaskType
use mobile_cloud_caching.Kernel.{Kernel, htonl, ntohl}
use mobile_cloud_caching.World.{
  World, Cmd, pure, oops, when, ◌>>=◌, ◌>>◌, get, modify, emit, Event, Ret, ret, fail, enomem,
  ehostunreach, etimedout, getcurrtime,
}
use mobile_cloud_caching.World.Memory.{kmalloc, load_route, set_route}
use mobile_cloud_caching.Utils.{seq_less_or_equal, aodv_subnet_test}
use mobile_cloud_caching.Route.{find_aodv_route, create_aodv_route}
use mobile_cloud_caching.Flood.{find_flood_id, insert_flood_id}
use mobile_cloud_caching.Timers.{find_timer, insert_rreq_timer, update_timer_queue}
use mobile_cloud_caching.Neigh.{valid_aodv_neigh}
use mobile_cloud_caching.Update.{update_aodv_route}
use mobile_cloud_caching.Device.{local_broadcast}
use mobile_cloud_caching.Rrep.{gen_rrep}

module _ ⦃k : Kernel⦄ where
  unfoldable pub convert_rreq_to_host : Rreq → Rreq
  convert_rreq_to_host r = record r {
    rreq_id = ntohl r.rreq_id;
    dst_seq = ntohl r.dst_seq;
    src_seq = ntohl r.src_seq;
  }

  unfoldable pub convert_rreq_to_network : Rreq → Rreq
  convert_rreq_to_network r = record r {
    rreq_id = htonl r.rreq_id;
    dst_seq = htonl r.dst_seq;
    src_seq = htonl r.src_seq;
  }

  -- Whether the request is new and comes from a valid neighbour.
  unfoldable pub check_rreq : Rreq → ℕ → Cmd Bool
  check_rreq tmp_rreq last_hop_ip = do
    seen ← find_flood_id tmp_rreq.src_ip tmp_rreq.rreq_id
    elim seen [
      | some _ ↦ pure false
      | none ↦ do find_aodv_route tmp_rreq.src_ip; valid_aodv_neigh last_hop_ip
    ]

  -- The fields that `reply_to_rreq` gives a route that it makes for the requested destination.
  unfoldable pub outside_route : AodvRoute → ℕ → AodvRoute → AodvRoute
  outside_route g_my_route dst_ip r = record r {
    seq = g_my_route.seq;
    next_hop = dst_ip;
    metric = 1;
    dev = g_my_route.dev;
  }

  -- The fields that it then gives the route, new or found.
  unfoldable pub revive : ℕ → AodvRoute → AodvRoute
  revive now r = record r {
    lifetime = add64 now Const.active_route_timeout;
    route_valid = true;
    route_seq_valid = true;
  }

  unfoldable pub make_outside_route : ℕ → Cmd Ptr
  make_outside_route dst_ip = do
    dst_route ← create_aodv_route dst_ip
    w ← get
    g_my_route ← load_route w.g_my_route
    set_route dst_route (outside_route g_my_route dst_ip)
    pure dst_route

  unfoldable pub revive_route : Ptr → Cmd (Unit {0})
  revive_route dst_route = do now ← getcurrtime; set_route dst_route (revive now)

  -- The branch of `reply_to_rreq` for a destination outside the AODV subnet.
  unfoldable pub reply_outside : Rreq → Ptr → Cmd Bool
  reply_outside tmp_rreq dst_route = do
    w ← get
    if w.g_aodv_gateway
        then (do
          p ← if dst_route == null then make_outside_route tmp_rreq.dst_ip else pure dst_route
          revive_route p
          pure true)
        else if dst_route == null
        then pure false
        else do
          r ← load_route dst_route
          if r.netmask == w.g_broadcast_ip
              then pure false
              else do p ← make_outside_route tmp_rreq.dst_ip; revive_route p; pure true

  -- The branch for a destination inside: only the destination itself answers.
  unfoldable pub reply_inside : Rreq → Ptr → Cmd Bool
  reply_inside tmp_rreq dst_route = if dst_route == null then pure false else do
    r ← load_route dst_route
    if r.self_route
        then (do
          when (seq_less_or_equal r.seq tmp_rreq.dst_seq)
              (set_route dst_route (λ r. record r { seq = inc32 tmp_rreq.dst_seq }))
          pure true)
        else pure false

  unfoldable pub reply_to_rreq : Rreq → Cmd Bool
  reply_to_rreq tmp_rreq = do
    dst_route ← find_aodv_route tmp_rreq.dst_ip
    w ← get
    if aodv_subnet_test w.aodv_dev_list tmp_rreq.dst_ip
        then reply_inside tmp_rreq dst_route
        else reply_outside tmp_rreq dst_route

  unfoldable pub forward_rreq : Rreq → ℕ → Cmd Ret
  forward_rreq tmp_rreq ttl = do
    local_broadcast ((ttl + 255) % 256) (of_rreq (convert_rreq_to_network tmp_rreq))
    pure (ret 0)

  -- The part of `recv_rreq` behind the checks.
  unfoldable pub accept_rreq : AodvTask → Rreq → ℕ → Cmd Ret
  accept_rreq tmp_packet host current_time = do
    let tmp_rreq : Rreq = record host { metric = inc8 host.metric }
    update_aodv_route tmp_rreq.src_ip tmp_packet.src_ip tmp_rreq.metric tmp_rreq.src_seq
        tmp_packet.dev
    insert_flood_id tmp_rreq.src_ip tmp_rreq.dst_ip tmp_rreq.rreq_id
        (add64 current_time Const.path_discovery_time)
    reply ← reply_to_rreq tmp_rreq
    if reply
        then (do gen_rrep tmp_rreq.src_ip tmp_rreq.dst_ip; pure (ret 0))
        else do forward_rreq tmp_rreq tmp_packet.ttl; pure (ret 0)

  unfoldable pub recv_rreq : AodvTask → Cmd Ret
  recv_rreq tmp_packet = elim tmp_packet.payload [
    | of_rreq message ↦ do
      let host = convert_rreq_to_host message
      current_time ← getcurrtime
      if leb tmp_packet.ttl 1 then pure (fail etimedout) else do
        checked ← check_rreq host tmp_packet.src_ip
        if not checked then pure (ret 1) else accept_rreq tmp_packet host current_time
    | _ ↦ oops
  ]

  -- The request that `gen_rreq` and `resend_rreq` fill in; they differ in the `d` bit. The metric is
  -- a byte.
  unfoldable pub own_rreq : Bool → Bool → ℕ → ℕ → ℕ → AodvRoute → Rreq
  own_rreq d u dst_seq src_ip dst_ip own = record {
    kind = 1;
    u = u;
    d = d;
    g = true;
    r = false;
    j = false;
    metric = htonl 0 % 256;
    rreq_id = htonl own.rreq_id;
    dst_ip = dst_ip;
    dst_seq = htonl dst_seq;
    src_ip = src_ip;
    src_seq = htonl own.seq;
  }

  -- What both do once they have a block: the `retries` are those of the timer that repeats the
  -- request.
  unfoldable pub issue_rreq : Bool → ℕ → ℕ → ℕ → Cmd Ret
  issue_rreq d src_ip dst_ip retries = do
    dst ← find_aodv_route dst_ip
    dst_seq ← if dst == null then pure none else do r ← load_route dst; pure (some r.seq)
    src ← find_aodv_route src_ip
    if src == null then pure (fail ehostunreach) else do
      set_route src (λ r. record r { rreq_id = inc32 r.rreq_id; seq = inc32 r.seq })
      own ← load_route src
      let out_rreq : Rreq = elim dst_seq [
        | none ↦ own_rreq d true 0 src_ip dst_ip own
        | some seq ↦ own_rreq d false seq src_ip dst_ip own
      ]
      now ← getcurrtime
      inserted ← insert_flood_id src_ip dst_ip own.rreq_id (add64 now Const.path_discovery_time)
      elim inserted [
        | fail _ ↦ pure (fail enomem)
        | ret _ ↦ do
          insert_rreq_timer src_ip dst_ip retries
          update_timer_queue
          local_broadcast Const.net_diameter (of_rreq out_rreq)
          pure (ret 0)
      ]

  unfoldable pub resend_rreq : AodvTask → Cmd Ret
  resend_rreq tmp_packet =
      if leb tmp_packet.retries 0
      then (do emit (Event.ipq_dropped tmp_packet.dst_ip); pure (ret 0))
      else do
        block ← kmalloc
        elim block [
          | none ↦ pure (ret 0)
          | some _ ↦
              issue_rreq false tmp_packet.src_ip tmp_packet.dst_ip ((tmp_packet.retries - 1) % 256)
        ]

  -- The block is allocated twice, and the first is lost.
  unfoldable pub gen_rreq : ℕ → ℕ → Cmd Ret
  gen_rreq src_ip dst_ip = do
    timer ← find_timer dst_ip TaskType.resend_rreq
    if not (timer == null) then pure (ret 0) else do
      first ← kmalloc
      elim first [
        | none ↦ pure (ret 0)
        | some _ ↦ do
          second ← kmalloc
          elim second [
            | none ↦ pure (fail enomem)
            | some _ ↦ issue_rreq true src_ip dst_ip Const.rreq_retries
          ]
      ]
