-- ===== src/Tests/Tables.antt =====
-- Tables, queues and numbers of a small node.
use mobile_cloud_caching.Prelude.{
  ◌-◌, ◌^◌, ◌≡◌, refl, Option, none, some, List, [], ◌∷◌, keep, arith, if◌then◌else◌, ◌==◌,
}
use mobile_cloud_caching.Types.{AodvTask, AodvNeigh, null, nothing}
use mobile_cloud_caching.Types.TaskType
use mobile_cloud_caching.World.{TaskQueue, to_millis}
use mobile_cloud_caching.World.Gives.{Gives}
use mobile_cloud_caching.World.Frame.{SameTables}
use mobile_cloud_caching.Utils.{calculate_netmask}
use mobile_cloud_caching.Utils.Netmask.{calculate_netmask_lem}
use mobile_cloud_caching.Route.{find_aodv_route, flush_aodv_route_table}
use mobile_cloud_caching.Route.Order as RouteOrder
use mobile_cloud_caching.Route.Find.{Found, find_aodv_route-Found}
use mobile_cloud_caching.Route.Host.{Looked, find_aodv_route-Looked}
use mobile_cloud_caching.Route.Flush.{Flushed, flush_aodv_route_table-Flushed}
use mobile_cloud_caching.Timers.{timer_queue_signal}
use mobile_cloud_caching.Timers.Signal.{Signalled, timer_queue_signal-Signalled}
use mobile_cloud_caching.Flood.{find_flood_walk}
use mobile_cloud_caching.Flood.Seen.{first_entry, is_alive, find_flood_walk-first_entry}
use mobile_cloud_caching.Tasks.{take_task, cleanup, last_addr, split_last, Packet}
use mobile_cloud_caching.Tasks.Fifo.{IsQueue, Taken, take_task-Taken, cleanup-take_task}
use mobile_cloud_caching.Neigh.{create_neigh_walk, delete_neigh_walk, find_neigh_walk}
use mobile_cloud_caching.Neigh.Order.{create_neigh_walk-find, delete_neigh_walk-find}
use mobile_cloud_caching.Neigh.Order as NeighOrder
use mobile_cloud_caching.Packets.{packet_in}
use mobile_cloud_caching.Packets.Arrive.{Arrived, packet_in-Arrived}
use mobile_cloud_caching.Tests.Data.{machine, node, node-Healthy, timer, neighbour, request_task}

-- The routing table.
routes-IsSorted : RouteOrder.IsSorted node.aodv_route_table
routes-IsSorted = (
  (omega arith, (omega arith, (omega arith, tt))),
  ((omega arith, (omega arith, tt)), ((omega arith, tt), (tt, tt))),
)

find_aodv_route-Found_example : Gives (Found 3 node) (find_aodv_route 3 node)
find_aodv_route-Found_example = find_aodv_route-Found 3 node routes-IsSorted

find_aodv_route-Looked_example :
    Gives (λ p w'. Looked 6 node p × Found 6 node p w') (find_aodv_route 6 node)
find_aodv_route-Looked_example =
    find_aodv_route-Looked 6 node (omega arith) routes-IsSorted
      ((refl, omega arith), ((refl, omega arith), ((refl, omega arith), ((refl, omega arith), tt))))
      (omega arith, (omega arith, (omega arith, (omega arith, tt))))

flush_aodv_route_table-Flushed_example :
    Gives
      (λ _ w'.
        Flushed (to_millis (node.clock node.readings)) node.aodv_route_table w'.aodv_route_table
        × (SameTables (record node { aodv_route_table = w'.aodv_route_table }) w'))
      (flush_aodv_route_table node)
flush_aodv_route_table-Flushed_example = flush_aodv_route_table-Flushed node

-- The timers.
timer_queue_signal-Signalled_example :
    Gives
      (λ _ w'.
        Signalled (to_millis (node.clock node.readings)) node.timer_queue node w'.timer_queue w')
      (timer_queue_signal node)
unfolding to_millis last_addr
timer_queue_signal-Signalled_example =
    timer_queue_signal-Signalled 90_000 node (omega arith) (omega arith)
      ((omega arith, omega arith), ((omega arith, omega arith), tt))
      (omega arith, (omega arith, tt)) ((omega arith, tt), (tt, tt))
      (record { allocated = tt; end = refl })

-- The floods.
find_flood_walk-first_entry_example :
    find_flood_walk 4 1 100_000 node.flood_id_queue
    ≡ first_entry 4 1 (keep (is_alive 100_000) node.flood_id_queue)
find_flood_walk-first_entry_example =
    find_flood_walk-first_entry 4 1 90_000 100_000 (omega arith) (omega arith) node.flood_id_queue
      ((omega arith, omega arith), ((omega arith, omega arith), tt)) ((omega arith, tt), (tt, tt))

-- The task queue.
abbrev two_tasks : TaskQueue
two_tasks = record {
  items = request_task 4 ∷ timer 9 TaskType.hello 1 0 ∷ [];
  task_end = 9;
  behind = [];
}

two_tasks-IsQueue : IsQueue two_tasks
unfolding last_addr
two_tasks-IsQueue = record { allocated = (omega arith, (omega arith, tt)); end = refl }

take_task-Taken_example :
    (r : Option AodvTask) × (q' : TaskQueue) × (take_task two_tasks ≡ some (r, q'))
    × Taken two_tasks r q'
take_task-Taken_example = take_task-Taken two_tasks two_tasks-IsQueue

abbrev one_task : TaskQueue
one_task = record { items = request_task 4 ∷ []; task_end = 8; behind = 9 ∷ [] }

taken_run : take_task two_tasks ≡ some (some (timer 9 TaskType.hello 1 0), one_task)
unfolding take_task split_last last_addr
taken_run = refl

cleanup-take_task_example : cleanup one_task ≡ none
cleanup-take_task_example =
    cleanup-take_task (request_task 4) (timer 9 TaskType.hello 1 0) [] two_tasks refl
      (λ e. absurd (omega (arith, e))) taken_run

abbrev hello_packet : Packet
hello_packet = record {
  saddr = 2;
  daddr = 4_294_967_295;
  ttl = 1;
  dev = 7;
  len = 48;
  h_source = [];
  message = nothing;
}

packet_in-Arrived_example : Gives (Arrived 2 hello_packet node) (packet_in 2 hello_packet node)
unfolding last_addr
packet_in-Arrived_example =
    packet_in-Arrived 2 hello_packet node node-Healthy.memory
      (record { allocated = tt; end = refl })

-- The neighbours.
abbrev neighbours : List AodvNeigh
neighbours = neighbour 5 2 ∷ neighbour 6 8 ∷ []

create_neigh_walk-find_example :
    NeighOrder.IsSorted (neighbour 5 2 ∷ neighbour 7 4 ∷ neighbour 6 8 ∷ [])
    × (find_neigh_walk 8 (neighbour 5 2 ∷ neighbour 7 4 ∷ neighbour 6 8 ∷ [])
        ≡ (if 4 == 8 then 7 else find_neigh_walk 8 neighbours))
unfolding create_neigh_walk
create_neigh_walk-find_example =
    create_neigh_walk-find 8 (neighbour 7 4) neighbours
      (neighbour 5 2 ∷ neighbour 7 4 ∷ neighbour 6 8 ∷ []) ((omega arith, tt), (tt, tt)) refl

delete_neigh_walk-find_example :
    NeighOrder.IsSorted (neighbour 6 8 ∷ [])
    × (find_neigh_walk 8 (neighbour 6 8 ∷ [])
        ≡ (if 2 == 8 then null else find_neigh_walk 8 neighbours))
unfolding delete_neigh_walk
delete_neigh_walk-find_example =
    delete_neigh_walk-find 8 2 neighbours (neighbour 6 8 ∷ []) ((omega arith, tt), (tt, tt)) refl

-- Numbers.
calculate_netmask_lem_example : calculate_netmask 24 ≡ 4_294_967_296 - 2 ^ (33 - 24)
calculate_netmask_lem_example = calculate_netmask_lem 24 (omega arith)
