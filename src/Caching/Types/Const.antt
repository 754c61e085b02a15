-- ===== src/Caching/Types/Const.antt =====
-- The constants of caching/src/cache.h: times in milliseconds, the types of messages and of tasks.
use mobile_cloud_caching.Prelude.{ℕ}

abbrev pub flush_interval : ℕ
flush_interval = 3000

abbrev pub wait_file_rep_time : ℕ
wait_file_rep_time = 10000

abbrev pub wait_exch_rep_time : ℕ
wait_exch_rep_time = 2000

abbrev pub file_request_lifetime : ℕ
file_request_lifetime = 5000

abbrev pub net_diameter : ℕ
net_diameter = 10

abbrev pub file_req_message : ℕ
file_req_message = 1

abbrev pub file_rep_message : ℕ
file_rep_message = 2

abbrev pub frag_req_ori_message : ℕ
frag_req_ori_message = 3

abbrev pub frag_req_fwd_message : ℕ
frag_req_fwd_message = 4

abbrev pub exchange_req_message : ℕ
exchange_req_message = 5

abbrev pub exchange_rep_message : ℕ
exchange_rep_message = 6

abbrev pub add_cache_message : ℕ
add_cache_message = 7

abbrev pub task_file_req_process : ℕ
task_file_req_process = 1

abbrev pub task_file_rep_process : ℕ
task_file_rep_process = 2

abbrev pub task_frag_req_update : ℕ
task_frag_req_update = 3

abbrev pub task_frag_req_flush : ℕ
task_frag_req_flush = 4

abbrev pub task_exch_send : ℕ
task_exch_send = 5

abbrev pub task_exch_update : ℕ
task_exch_update = 6

abbrev pub task_add_cache_process : ℕ
task_add_cache_process = 7

abbrev pub task_frag_req_send : ℕ
task_frag_req_send = 8

abbrev pub task_add_cache_send : ℕ
task_add_cache_send = 9

abbrev pub task_clean_up : ℕ
task_clean_up = 10
