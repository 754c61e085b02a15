-- ===== src/Types/Const.antt =====
-- The protocol's constants of kaodv/src/aodv.h, in milliseconds where they are times.
use mobile_cloud_caching.Prelude.{ℕ, ◌*◌}

abbrev pub active_route_timeout : ℕ
active_route_timeout = 3000

abbrev pub allowed_hello_loss : ℕ
allowed_hello_loss = 2

abbrev pub hello_interval : ℕ
hello_interval = 1000

abbrev pub delete_period : ℕ
delete_period = allowed_hello_loss * hello_interval

abbrev pub my_route_timeout : ℕ
my_route_timeout = active_route_timeout

abbrev pub net_diameter : ℕ
net_diameter = 10

abbrev pub node_traversal_time : ℕ
node_traversal_time = 40

abbrev pub net_traversal_time : ℕ
net_traversal_time = 2 * node_traversal_time * net_diameter

abbrev pub path_discovery_time : ℕ
path_discovery_time = 2 * net_traversal_time

abbrev pub rreq_retries : ℕ
rreq_retries = 2
