-- ===== src/Tests/Caching.antt =====
-- A node of the caching daemon with a full cache, a request that was counted once, and two offers.
use mobile_cloud_caching.Prelude.{ℕ, ◌+◌, ◌≡◌, refl, true, none, some, List, [], ◌∷◌, length, arith}
use mobile_cloud_caching.Types.{Ptr}
use mobile_cloud_caching.Tests.Data.{machine}
use mobile_cloud_caching.Caching.Types.{CacheTable, ExchTable, FileRepInfo, FragReq, CTask, nothing}
use mobile_cloud_caching.Caching.State.{State, Ret}
use mobile_cloud_caching.Caching.Table.Entries.{IsCache, Apart}
use mobile_cloud_caching.Caching.ReqList.{request_from}
use mobile_cloud_caching.Caching.Exchange.{retrieve_frag, select_agent, get_score}
use mobile_cloud_caching.Caching.Exchange.Keep.{Retrieval, retrieve_frag-Retrieval}
use mobile_cloud_caching.Caching.Exchange.Sound.{Sound, retrieve_frag-Sound}
use mobile_cloud_caching.Caching.Exchange.Select.{
  Scored, Selected, get_score-Scored, select_agent-Selected,
}
use mobile_cloud_caching.Caching.FragReq.{recv_frreq_ori, convert_frreq_to_host}
use mobile_cloud_caching.Caching.FragReq.Counted.{
  Counted, frag_task, recv_frreq_ori-Counted, recv_frreq_ori-oops,
}
use mobile_cloud_caching.Prelude.Commands.{Gives}
use mobile_cloud_caching.Caching.Thread.{handle}
use mobile_cloud_caching.Caching.Thread.Stable.{Stable, IsDaemon}
use mobile_cloud_caching.Caching.Thread.Handled.{Proper, handle-Stable}
use mobile_cloud_caching.Caching.FileRep.Choose.{Chosen, choose}
use mobile_cloud_caching.Caching.FileRep.Choose.Ends.{Outcome, start, choose-Ends}

abbrev cached : Ptr → ℕ → ℕ → ℕ → ℕ → CacheTable
cached addr file frag refs center = record {
  addr = addr;
  file_id = file;
  frag_id = frag;
  refs = refs;
  is_service_center = center;
}

abbrev offer : Ptr → ℕ → ℕ → ExchTable
offer addr neighbour score = record {
  addr = addr;
  file_id = 6;
  frag_id = 2;
  dst_ip = 9;
  neigh_ip = neighbour;
  score = score;
  expired = 0;
}

abbrev pub daemon : State
daemon = record {
  clock = λ n. record { tv_sec = 100 + n; tv_usec = 0 };
  readings = 0;
  memory = λ n. some (500 + n);
  allocations = 0;
  accepts = λ n. true;
  requests = 0;
  g_my_ip = 1;
  g_broadcast_ip = 4_294_967_295;
  g_act = true;
  kval = 3;
  threshold = 4;
  buf_size = 3;
  ctable = cached 11 6 1 5 1 ∷ cached 12 7 1 4 0 ∷ cached 13 7 2 2 0 ∷ [];
  ct_len = 3;
  crlist = record { addr = 21; file_id = 6; frag_id = 2; count = 1 } ∷ [];
  extable = offer 31 4 1 ∷ offer 32 5 2 ∷ [];
  rinfo = [];
  timer_queue = [];
  task_queue = record { items = []; task_end = 0; behind = [] };
  flood_id_queue = [];
  c_energy = 0;
  c_success = 0;
  c_prefetch = 0;
  f_overhead = 0;
  c_overhead = 0;
  metrics = record {
    rt_header = 0;
    rt_hello_c = 0;
    rt_hello = 0;
    rt_tc = 0;
    aodv_hello = 0;
    aodv_else = 0;
  };
  log = [];
}

abbrev daemon-IsCache : IsCache daemon
daemon-IsCache = record {
  counted = refl;
  distinct = ((omega arith, (omega arith, tt)), ((omega arith, tt), (tt, tt)));
  small = omega arith;
}

next_fresh : (a : Ptr) → daemon.memory daemon.allocations ≡ some a → Apart a daemon.ctable
next_fresh a e =
    let here : 500 ≡ a = cc in
    (omega (arith, here), (omega (arith, here), (omega (arith, here), tt)))

abbrev pub task : CTask
task = record {
  addr = 41;
  kind = 3;
  time = 0;
  dst_ip = 9;
  src_ip = 4;
  file_id = 6;
  frag_id = 2;
  ttl = 5;
  data_len = 20;
  payload = nothing;
}

abbrev request : ℕ → FragReq
request frag = record { kind = 3; src_ip = 4; dst_ip = 9; file_id = 6; frag_id = frag }

request_3_new :
    request_from daemon.crlist
      (convert_frreq_to_host (request 3)).file_id
      (convert_frreq_to_host (request 3)).frag_id
    ≡ none
unfolding request_from convert_frreq_to_host
request_3_new = refl

retrieve_frag-Retrieval_example :
    (r : Ret) × (s' : State) × (retrieve_frag 9 6 2 daemon ≡ some (r, s'))
    × Retrieval 6 2 daemon s' r
retrieve_frag-Retrieval_example = retrieve_frag-Retrieval 9 6 2 daemon daemon-IsCache (omega arith)

retrieve_frag-Sound_example :
    (r : Ret) × (s' : State) × (retrieve_frag 9 6 2 daemon ≡ some (r, s')) × Sound 6 daemon s'
retrieve_frag-Sound_example =
    retrieve_frag-Sound 9 6 2 daemon daemon-IsCache (omega arith) next_fresh

get_score-Scored_example :
    (score : ℕ) × (get_score 6 2 daemon ≡ some (score, daemon)) × Scored 6 2 daemon score
get_score-Scored_example = get_score-Scored 6 2 daemon daemon-IsCache (omega arith) (omega arith)

select_agent-Selected_example :
    (s' : State) × (select_agent task daemon ≡ some (Ret.ret 0, s')) × Selected task daemon s'
select_agent-Selected_example =
    select_agent-Selected task daemon daemon-IsCache (omega arith) (omega arith) next_fresh

recv_frreq_ori-Counted_example :
    (s' : State) × (recv_frreq_ori (frag_task task (request 2)) daemon ≡ some (Ret.ret 0, s'))
    × Counted (frag_task task (request 2)) (convert_frreq_to_host (request 2)) daemon s'
recv_frreq_ori-Counted_example =
    recv_frreq_ori-Counted task (request 2) daemon (omega arith) refl (tt, tt) (λ e. cc)

recv_frreq_ori-oops_example :
    recv_frreq_ori (frag_task task (request 3)) (record daemon { memory = λ n. none }) ≡ none
recv_frreq_ori-oops_example =
    recv_frreq_ori-oops task (request 3) (record daemon { memory = λ n. none }) (omega arith) refl
      request_3_new refl

abbrev pub reply : Ptr → ℕ → ℕ → List ℕ → FileRepInfo
reply addr dst dist map = record {
  addr = addr;
  file_id = 6;
  dst_ip = dst;
  dist = dist;
  map = map;
  frag_count = length map;
  expired = 0;
}

abbrev pub replies : List FileRepInfo
replies = reply 51 7 2 (1 ∷ 2 ∷ []) ∷ reply 52 8 1 (2 ∷ 3 ∷ []) ∷ []

choose-Ends_example :
    (c : Chosen) × (choose (length replies + 1) 3 6 (start 3 (1 ∷ [])) replies ≡ some c)
    × Outcome 6 3 (1 ∷ []) replies c
choose-Ends_example =
    choose-Ends 6 3 (1 ∷ []) replies (omega arith) ((λ r. omega arith), ((λ r. omega arith), tt))

daemon-IsDaemon : IsDaemon daemon
daemon-IsDaemon = record {
  cache = daemon-IsCache;
  limit = omega arith;
  within = omega arith;
  fresh = next_fresh;
}

handle-Stable_example : Gives (λ _ s'. Stable daemon s') (handle (record task { kind = 9 }) daemon)
handle-Stable_example =
    handle-Stable (record task { kind = 9 }) daemon daemon-IsDaemon (λ n e. cc)
      (Proper.scores_due task)
