-- ===== src/Packets.antt =====
-- The netfilter hooks of kaodv/src/packet_in.c and kaodv/src/packet_out.c.
pub mod Arrive
pub mod Leave
use mobile_cloud_caching.Prelude.{
  ℕ, ◌+◌, ◌-◌, ◌*◌, ◌%◌, ◌==◌, if◌then◌else◌, Bool, true, false, not, ◌&&◌, Option, none, some,
}
use mobile_cloud_caching.Prelude.Words.{add64}
use mobile_cloud_caching.Types.{null, Message, of_rerr}
use mobile_cloud_caching.Types.Const
use mobile_cloud_caching.Types.TaskType
use mobile_cloud_caching.Kernel.{Kernel}
use mobile_cloud_caching.World.{World, Cmd, pure, oops, when, ◌>>=◌, ◌>>◌, get, modify, getcurrtime}
use mobile_cloud_caching.World.Memory.{load_route, set_route}
use mobile_cloud_caching.Utils.{aodv_subnet_test}
use mobile_cloud_caching.Route.{find_aodv_route}
use mobile_cloud_caching.Tasks.{Packet, start_point, insert_task}
use mobile_cloud_caching.Rreq.{gen_rreq}

pub data Verdict : Type 0 where
  nf_accept nf_drop nf_queue : Verdict

-- The sizes of the messages, in bytes: `rreq`, `rrep`, `rerr`, `aodv_dst`, `rrep_ack`.

abbrev pub sizeof_rreq : ℕ
sizeof_rreq = 24

abbrev pub sizeof_rrep : ℕ
sizeof_rrep = 20

abbrev pub sizeof_rerr : ℕ
sizeof_rerr = 4

abbrev pub sizeof_dst : ℕ
sizeof_dst = 8

abbrev pub sizeof_ack : ℕ
sizeof_ack = 1

abbrev pub count_overhead : Cmd (Unit {0})
count_overhead = modify λ w. record w { aodv_overhead = (w.aodv_overhead + 1) % 4_294_967_296 }

-- The number of destinations that a route error counts.
abbrev pub dst_count_of : Message → ℕ
dst_count_of (of_rerr r) = r.dst_count
dst_count_of _ = 0

unfoldable pub valid_aodv_packet : ℕ → ℕ → Message → Cmd Bool
valid_aodv_packet numbytes kind message =
    if kind == 1
    then if numbytes == sizeof_rreq then (do count_overhead; pure true) else pure false
    else if kind == 2
    then if numbytes == sizeof_rrep then (do count_overhead; pure true) else pure false
    else if kind == 3
    then pure (numbytes == sizeof_rerr + sizeof_dst * dst_count_of message)
    else if kind == 4
    then pure (numbytes == sizeof_ack)
    else pure false

-- The type is the first byte of the message.
unfoldable pub packet_in : ℕ → Packet → Cmd Verdict
packet_in aodv_type packet = do
  valid ← valid_aodv_packet (packet.len - start_point) aodv_type packet.message
  if not valid
      then pure Verdict.nf_drop
      else do insert_task aodv_type packet; pure Verdict.nf_accept

module _ ⦃k : Kernel⦄ where
  -- The part of `output_handler` that asks for a route or keeps one alive.
  unfoldable pub route_out : ℕ → Cmd Verdict
  route_out daddr = do
    tmp_route ← find_aodv_route daddr
    w ← get
    if tmp_route == null then (do gen_rreq w.g_my_ip daddr; pure Verdict.nf_queue) else do
      r ← load_route tmp_route
      if not r.route_valid then (do gen_rreq w.g_my_ip daddr; pure Verdict.nf_queue) else do
        when (not r.self_route) do
          now ← getcurrtime
          set_route tmp_route (λ r. record r { lifetime = add64 now Const.active_route_timeout })
        pure Verdict.nf_accept

  unfoldable pub output_handler : ℕ → Cmd Verdict
  output_handler daddr = do
    w ← get
    if daddr == w.g_broadcast_ip
        then pure Verdict.nf_accept
        else if w.g_aodv_gateway && not (aodv_subnet_test w.aodv_dev_list daddr)
        then pure Verdict.nf_accept
        else route_out daddr
