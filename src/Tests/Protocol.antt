-- ===== src/Tests/Protocol.antt =====
-- Requests, replies, errors and updates on a node with two neighbours' worth of routes.
use mobile_cloud_caching.Prelude.{◌∷◌, [], ℕ, ◌+◌, ◌≡◌, refl, some, arith, true, inl}
use mobile_cloud_caching.World.{World, ret, getcurrtime, to_millis, ask}
use mobile_cloud_caching.World.Memory.{kmalloc, load_route, set_route, load_neigh}
use mobile_cloud_caching.KernelRoute.{
  create_kernel_route_entry, insert_kernel_route_entry, delete_kernel_route_entry,
}
use mobile_cloud_caching.Utils.{seq_greater, aodv_subnet_test}
use mobile_cloud_caching.Route.{find_aodv_route, find_loop, compare_aodv_route, expire}
use mobile_cloud_caching.Flood.{find_flood_walk, find_flood_id, insert_flood_id}
use mobile_cloud_caching.Neigh.{valid_aodv_neigh, find_aodv_neigh, find_neigh_walk}
use mobile_cloud_caching.Update.{update_aodv_route, keeps_entry, install}
use mobile_cloud_caching.Device.{local_broadcast, broadcast_loop}
use mobile_cloud_caching.Rreq.{
  recv_rreq, accept_rreq, check_rreq, convert_rreq_to_host, convert_rreq_to_network, reply_to_rreq,
  reply_inside, reply_outside, forward_rreq,
}
use mobile_cloud_caching.Rreq.Once.{
  carrying, recv_rreq-once, recv_rreq-Received, Received, entry_of,
}
use mobile_cloud_caching.Types.{nothing}
use mobile_cloud_caching.World.Gives.{Gives}
use mobile_cloud_caching.World.Points.{PointsTo}
use mobile_cloud_caching.Tasks.{create_task, blank_task}
use mobile_cloud_caching.Timers.{
  find_timer, find_walk, is_timer, insert_rreq_timer, queue_timer, link_timer, rreq_delay,
  update_timer_queue, delay_parts,
}
use mobile_cloud_caching.Rreq.{gen_rreq, issue_rreq, own_rreq}
use mobile_cloud_caching.Rreq.Pending.{IsPending, gen_rreq-once}
use mobile_cloud_caching.Rerr.{gen_rerr}
use mobile_cloud_caching.Rerr.Report.{Reported, gen_rerr-Reported}
use mobile_cloud_caching.Neigh.{drop_neigh_route}
use mobile_cloud_caching.Neigh.Lost.{Dropped, drop_neigh_route-Dropped}
use mobile_cloud_caching.Update.Decide.{renewed, update_aodv_route-newer, update_aodv_route-stale}
use mobile_cloud_caching.Hello.{send_hello}
use mobile_cloud_caching.Hello.Rearm.{IsArmed, send_hello-IsArmed}
use mobile_cloud_caching.Device.Log.{Sent, local_broadcast-Sent}
use mobile_cloud_caching.Packets.{output_handler}
use mobile_cloud_caching.Packets.Leave.{Left, output_handler-Left}
use mobile_cloud_caching.Rerr.{recv_rerr}
use mobile_cloud_caching.Rerr.Ended.{Distinct}
use mobile_cloud_caching.Rerr.Heard.{Heard, reporting, recv_rerr-Heard}
use mobile_cloud_caching.Types.{Rerr}
use mobile_cloud_caching.Prelude.{◌∷◌, [], false}
use mobile_cloud_caching.Tests.Data.{
  far_route, neighbour_route, machine, node, node-Healthy, request, request_task, after,
}

abbrev forwarded : World
forwarded = after (recv_rreq (carrying request (request_task 5)) node)

forwarded_run :
    (recv_rreq (carrying request (request_task 5)) node ≡ some (ret 0, forwarded))
    × (to_millis (forwarded.clock (forwarded.readings + 1)) ≡ 100_011)
unfolding recv_rreq accept_rreq check_rreq convert_rreq_to_host find_flood_id find_flood_walk
    getcurrtime to_millis find_aodv_route find_loop compare_aodv_route expire valid_aodv_neigh
    find_aodv_neigh find_neigh_walk load_neigh update_aodv_route keeps_entry seq_greater install
    set_route load_route delete_kernel_route_entry insert_kernel_route_entry
    create_kernel_route_entry insert_flood_id kmalloc reply_to_rreq aodv_subnet_test reply_inside
    reply_outside forward_rreq convert_rreq_to_network local_broadcast ask broadcast_loop
forwarded_run = (refl, refl)

node_time : to_millis (node.clock node.readings) ≡ 100_000
unfolding to_millis
node_time = refl

-- The second copy comes 11 milliseconds after the first.
recv_rreq-once_example :
    recv_rreq (carrying request (request_task 3)) forwarded
    ≡ some (ret 1, record forwarded { readings = forwarded.readings + 1 + 1 })
recv_rreq-once_example =
    recv_rreq-once (request_task 5) (request_task 3) request request node forwarded node-Healthy
      forwarded_run.0 refl refl (omega arith) (omega (arith, node_time, forwarded_run.1))
      (omega (arith, node_time, forwarded_run.1)) (omega (arith, node_time, forwarded_run.1))

recv_rreq-Received_example :
    Gives
      (Received 5 (entry_of request (to_millis (node.clock node.readings))) node)
      (recv_rreq (carrying request (request_task 5)) node)
recv_rreq-Received_example = recv_rreq-Received (request_task 5) request node node-Healthy

abbrev asking : World
asking = after (gen_rreq 1 9 node)

asking_run : gen_rreq 1 9 node ≡ some (ret 0, asking)
unfolding gen_rreq find_timer find_walk is_timer kmalloc issue_rreq find_aodv_route find_loop
    compare_aodv_route expire getcurrtime to_millis load_route set_route insert_flood_id
    insert_rreq_timer create_task blank_task queue_timer link_timer rreq_delay update_timer_queue
    delay_parts local_broadcast ask broadcast_loop own_rreq
asking_run = refl

gen_rreq-once_example : IsPending 9 asking × (gen_rreq 4 9 asking ≡ some (ret 0, asking))
gen_rreq-once_example =
    gen_rreq-once 1 4 9 node asking node-Healthy (omega arith, (omega arith, tt)) asking_run

gen_rerr-Reported_example : Gives (λ a w'. (a ≡ ret 0) × Reported 2 node w') (gen_rerr 2 node)
gen_rerr-Reported_example = gen_rerr-Reported 2 node node-Healthy

-- After one reading, and after two.
abbrev node_1 : World
node_1 = record node { readings = 1 }

abbrev node_2 : World
node_2 = record node { readings = 2 }

find_3 : find_aodv_route 3 node ≡ some (3, node_1)
unfolding find_aodv_route find_loop compare_aodv_route getcurrtime to_millis expire
find_3 = refl

valid_2 : valid_aodv_neigh 2 node_1 ≡ some (true, node_2)
unfolding valid_aodv_neigh find_aodv_neigh find_neigh_walk load_neigh getcurrtime to_millis
valid_2 = refl

-- A reply with a better number for the way to node 3.
update_aodv_route-newer_example :
    Gives
      (λ a w'. (a ≡ ret 0) × ((lifetime : ℕ) × PointsTo 3 (renewed far_route 2 4 6 7 lifetime) w'))
      (update_aodv_route 3 2 4 6 7 node)
update_aodv_route-newer_example =
    update_aodv_route-newer 3 2 4 6 7 1 3 far_route node node_1 node_2 find_3
      (λ e. absurd (omega (arith, e))) valid_2 (inl refl) (omega arith) (omega arith) (omega arith)
      refl

-- One with the same number and a better metric.
update_aodv_route-stale_example : update_aodv_route 3 2 0 5 7 node ≡ some (ret 0, node_2)
update_aodv_route-stale_example =
    update_aodv_route-stale 3 2 0 5 7 0 3 far_route node node_1 node_2 find_3
      (λ e. absurd (omega (arith, e))) valid_2 (inl refl) (omega arith) (omega arith) refl

find_2 : find_aodv_route 2 node ≡ some (2, node_1)
unfolding find_aodv_route find_loop compare_aodv_route getcurrtime to_millis expire
find_2 = refl

drop_neigh_route-Dropped_example : Gives (λ _ w'. Dropped 2 2 node_1 w') (drop_neigh_route 2 node)
drop_neigh_route-Dropped_example =
    drop_neigh_route-Dropped 2 2 neighbour_route node node_1
      (record {
        memory = node-Healthy.memory;
        device = node-Healthy.device;
        sockets = node-Healthy.sockets;
        own_route = node-Healthy.own_route;
      })
      find_2 (λ e. absurd (omega (arith, e))) refl refl refl

send_hello-IsArmed_example : Gives (λ _ w'. IsArmed w') (send_hello node)
send_hello-IsArmed_example = send_hello-IsArmed node node-Healthy (omega arith, (omega arith, tt))

local_broadcast-Sent_example :
    Gives (λ _ w'. Sent 4_294_967_295 1 nothing node w') (local_broadcast 1 nothing node)
local_broadcast-Sent_example =
    local_broadcast-Sent 1 nothing node node-Healthy.device node-Healthy.sockets

output_handler-Left_example : Gives (Left 9 node) (output_handler 9 node)
output_handler-Left_example =
    output_handler-Left 9 node node-Healthy (omega arith, (omega arith, tt))

-- Node 2 has lost node 3.
abbrev lost : Rerr
lost = record { kind = 3; n = false; dst_count = 1; dsts = record { ip = 3; seq = 7 } ∷ [] }

routes-Distinct : Distinct node.aodv_route_table
routes-Distinct = (
  (
    λ e. absurd (omega (arith, e)),
    (λ e. absurd (omega (arith, e)), (λ e. absurd (omega (arith, e)), tt)),
  ),
  (
    (λ e. absurd (omega (arith, e)), (λ e. absurd (omega (arith, e)), tt)),
    ((λ e. absurd (omega (arith, e)), tt), (tt, tt)),
  ),
)

recv_rerr-Heard_example :
    Gives (λ a w'. (a ≡ ret 0) × Heard node w') (recv_rerr (reporting lost (request_task 10)) node)
recv_rerr-Heard_example =
    recv_rerr-Heard (request_task 10) lost node node-Healthy routes-Distinct (omega arith)
