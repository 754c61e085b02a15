-- ===== src/Tests/Data.antt =====
-- A machine on which the theorems are tried: big-endian, with a `long` of 32 bits. And routes, tasks
-- and entries for it.
use mobile_cloud_caching.Prelude.{
  ℕ, ◌+◌, ◌-◌, ◌%◌, ◌<◌, ◌≡◌, ◌≢◌, ◌*◌, inl, refl, ltb, leb, not, Bool, true, false, Option, none,
  some, [], ◌∷◌, arith,
}
use mobile_cloud_caching.Types.{
  AodvRoute, AodvTask, FloodId, AodvNeigh, AodvDev, null, nothing, Ptr, Rreq, of_rreq,
}
use mobile_cloud_caching.Kernel.{Kernel}
use mobile_cloud_caching.Types.TaskType
use mobile_cloud_caching.World.{World}
use mobile_cloud_caching.World.Healthy.{Healthy}

-- The sign bit of `b - a` in 32 bits.
abbrev pub after32 : ℕ → ℕ → Bool
after32 a b =
    leb 2_147_483_648 ((b % 4_294_967_296 + 4_294_967_296 - a % 4_294_967_296) % 4_294_967_296)

pub after32-window :
    (a b : ℕ) → a < b + 2_147_483_648 → b < a + 2_147_483_648 → after32 a b ≡ ltb b a
after32-window a b h l = ground arith

instance abbrev pub machine : Kernel
machine = record {
  time_after = after32;
  time_after_window = after32-window;
  time_after_eq = λ a b. not (after32 b a);
  time_after_eq_not = λ a b. refl;
  htonl = λ x. x;
  ntohl = λ x. x;
  ntohl-htonl = λ x h. refl;
  htonl-ntohl = λ x h. refl;
}

-- A host route, with the rest of its fields as they are for a neighbour that is alive.
abbrev pub host : Ptr → ℕ → ℕ → ℕ → AodvRoute
host p ip next_hop lifetime = record {
  addr = p;
  ip = ip;
  netmask = 4_294_967_295;
  seq = 5;
  old_seq = 0;
  metric = 1;
  next_hop = next_hop;
  rreq_id = 0;
  lifetime = lifetime;
  dev = 7;
  route_valid = true;
  route_seq_valid = true;
  self_route = false;
}

-- The node's own route, a neighbour's, one through the neighbour, and one that is past its time.
abbrev pub own_route : AodvRoute
own_route = record (host 1 1 1 900_000) { self_route = true }

abbrev pub neighbour_route : AodvRoute
neighbour_route = host 2 2 2 900_000

abbrev pub far_route : AodvRoute
far_route = host 3 3 2 900_000

abbrev pub old_route : AodvRoute
old_route = host 4 6 2 50_000

abbrev pub timer : Ptr → ℕ → ℕ → ℕ → AodvTask
timer p kind id time = record {
  addr = p;
  kind = kind;
  id = id;
  time = time;
  dst_ip = id;
  src_ip = id;
  dev = null;
  ttl = 0;
  retries = 0;
  src_hw_addr = [];
  data_len = 0;
  payload = nothing;
}

abbrev pub neighbour : Ptr → ℕ → AodvNeigh
neighbour p ip = record {
  addr = p;
  ip = ip;
  seq = 0;
  lifetime = 900_000;
  hw_addr = [];
  dev = 7;
  route_entry = null;
  link = 0;
  valid_link = true;
}

abbrev pub flood : ℕ → ℕ → ℕ → FloodId
flood src_ip id lifetime = record { src_ip = src_ip; dst_ip = 5; id = id; lifetime = lifetime }

abbrev pub device : AodvDev
device = record { dev = 7; route_entry = 1; ip = 1; netmask = 4_294_967_040; sock = 9 }

-- A node with memory whose clock moves by a millisecond with each reading, from 100,000 on.
abbrev pub node : World
node = record {
  clock = λ n. record { tv_sec = 100; tv_usec = n * 1000 };
  readings = 0;
  memory = λ n. some 0;
  allocations = 20;
  accepts = λ n. true;
  requests = 0;
  ifa_address = λ d. some 1;
  aodv_route_table = own_route ∷ neighbour_route ∷ far_route ∷ old_route ∷ [];
  loose_routes = [];
  aodv_neigh_list = neighbour 5 2 ∷ [];
  timer_queue = timer 6 TaskType.hello 1 99_999 ∷ timer 7 TaskType.neighbor 2 103_000 ∷ [];
  task_queue = record { items = []; task_end = null; behind = [] };
  flood_id_queue = flood 4 1 101_000 ∷ flood 3 6 99_000 ∷ [];
  aodv_dev_list = device ∷ [];
  g_my_route = 1;
  g_my_ip = 1;
  g_broadcast_ip = 4_294_967_295;
  g_aodv_gateway = false;
  aodv_overhead = 0;
  log = [];
}

some-ne : {A : Type 0} (a : A) → some a ≢ none
some-ne a e = absurd (ground (arith, e))

pub node-Healthy : Healthy node
node-Healthy = record {
  memory = λ n. some-ne 0;
  device = λ e. absurd (ground (arith, e));
  sockets = (λ e. absurd (omega (arith, e)), tt);
  own_route = inl (inl refl);
}

-- A request by node 3 for a node that nobody here knows, passed on by the neighbour.
abbrev pub request : Rreq
request = record {
  kind = 1;
  u = false;
  d = false;
  g = true;
  r = false;
  j = false;
  metric = 1;
  rreq_id = 7;
  dst_ip = 9;
  dst_seq = 0;
  src_ip = 3;
  src_seq = 6;
}

abbrev pub request_task : ℕ → AodvTask
request_task ttl = record (timer 8 TaskType.rreq 0 100_000) {
  dst_ip = 4_294_967_295;
  src_ip = 2;
  dev = 7;
  ttl = ttl;
  payload = of_rreq request;
}

-- The world that a command leaves.
abbrev pub after : {A : Type 0} → Option (A × World) → World
after none = node
after (some (a, w)) = w
