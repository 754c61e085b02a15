-- ===== src/Caching/Exchange.antt =====
-- caching/src/cExchange.c: the exchange of scores by which neighbours agree on who keeps a copy of a
-- fragment, and the copy that is kept.
pub mod Offers
pub mod Victim
pub mod Keep
pub mod Sound
pub mod Agent
pub mod Select
use mobile_cloud_caching.Prelude.{
  ℕ, ◌+◌, ◌-◌, ◌%◌, ltb, leb, ◌==◌, ◌&&◌, not, Bool, true, false, Option, none, some, List, [], ◌∷◌,
  if◌then◌else◌,
}
use mobile_cloud_caching.Prelude.Words.{inc32, ge_int}
use mobile_cloud_caching.Prelude.Commands.{Command, pure, oops, ◌>>=◌, ◌>>◌, get, modify}
use mobile_cloud_caching.Types.{Ptr}
use mobile_cloud_caching.Kernel.{Kernel, htonl, ntohl}
use mobile_cloud_caching.Caching.Types.{
  CacheTable, CTask, ExchReq, ExchRep, AddCache, Message, nothing, of_exch_req, of_exch_rep,
  of_add_cache,
}
use mobile_cloud_caching.Caching.Types.Const
use mobile_cloud_caching.Caching.State.{State, Cmd, kmalloc, Ret, ret}
use mobile_cloud_caching.Caching.Socket.{local_broadcast, send_message, in_block}
use mobile_cloud_caching.Caching.Table.{
  find_cache_by_fl, find_cache_by_fr, fragment_from, remove_cache, create_cache,
}
use Offers.{choose_agent, create_extable}

-- The loop of `getScore` from an entry on: how many fragments of a file the table holds.
unfoldable pub count_fragments : ℕ → List CacheTable → ℕ
count_fragments file [] = 0
count_fragments file (c ∷ cs) =
    let rest = count_fragments file cs in if c.file_id == file then rest + 1 else rest

-- The score is an `int` that is returned as an unsigned word.
unfoldable pub get_score : ℕ → ℕ → Cmd ℕ
get_score file frag s = elim (fragment_from s.ctable file frag) [
  | some _ ↦ some (0, s)
  | none ↦
      if leb (s.kval - 1) (count_fragments file s.ctable)
      then some (0, s)
      else some ((s.buf_size + 4_294_967_296 - s.ct_len + 1) % 4_294_967_296, s)
]

-- The loop of `retrieve_frag` from an entry on, which stops at a limit.
unfoldable pub count_to : ℕ → ℕ → ℕ → List CacheTable → ℕ
count_to limit file count [] = count
count_to limit file count (c ∷ cs) =
    let counted = count_to limit file (count + 1) cs in
    let passed = count_to limit file count cs in
    if c.file_id == file then (if ltb count limit then counted else count) else passed

-- From the first entry on that is no service centre's.
unfoldable pub skip_centers : List CacheTable → List CacheTable
skip_centers [] = []
skip_centers (c ∷ cs) = if c.is_service_center == 1 then skip_centers cs else c ∷ cs

-- The first of the least used entries: the candidate, then the entries behind it.
unfoldable pub least_used : CacheTable → List CacheTable → CacheTable
least_used min [] = min
least_used min (c ∷ cs) =
    least_used (if ltb c.refs min.refs && (c.is_service_center == 0) then c else min) cs

-- With a full table one entry goes, if there is one that may.
unfoldable pub make_room : ℕ → ℕ → List CacheTable → Cmd Ret
make_room file frag [] = pure (ret 1)
make_room file frag (c ∷ cs) = do
  remove_cache (least_used c cs)
  create_cache file frag 0
  pure (ret 0)

unfoldable pub retrieve_frag : ℕ → ℕ → ℕ → Cmd Ret
unfolding make_room
retrieve_frag dst_ip file frag = do
  s ← get
  if leb (s.kval - 1) (count_to s.kval file 0 s.ctable) then pure (ret 1) else do
    modify λ s'. record s' { c_prefetch = inc32 s'.c_prefetch }
    if ge_int s.ct_len s.buf_size
        then make_room file frag (skip_centers s.ctable)
        else do create_cache file frag 0; pure (ret 0)

-- It is not implemented, and no code calls it.
unfoldable pub remove_file : Cmd Ret
remove_file = pure (ret 0)

module _ ⦃k : Kernel⦄ where
  unfoldable pub convert_exreq_to_host : ExchReq → ExchReq
  convert_exreq_to_host m = record m {
    src_ip = ntohl m.src_ip;
    dst_ip = ntohl m.dst_ip;
    file_id = ntohl m.file_id;
    frag_id = ntohl m.frag_id;
  }

  unfoldable pub convert_exrep_to_host : ExchRep → ExchRep
  convert_exrep_to_host m = record m {
    src_ip = ntohl m.src_ip;
    dst_ip = ntohl m.dst_ip;
    file_id = ntohl m.file_id;
    frag_id = ntohl m.frag_id;
    score = ntohl m.score;
  }

  unfoldable pub convert_addcache_to_host : AddCache → AddCache
  convert_addcache_to_host m = record m {
    src_ip = ntohl m.src_ip;
    dst_ip = ntohl m.dst_ip;
    file_id = ntohl m.file_id;
    frag_id = ntohl m.frag_id;
  }

  unfoldable pub gen_exch_req : ℕ → ℕ → ℕ → ℕ → Cmd Ret
  gen_exch_req src_ip dst_ip file_id frag_id = in_block (
      local_broadcast 1 (
        of_exch_req (record {
          kind = Const.exchange_req_message;
          src_ip = htonl src_ip;
          dst_ip = htonl dst_ip;
          file_id = htonl file_id;
          frag_id = htonl frag_id;
        })))

  unfoldable pub gen_exch_rep : ℕ → ℕ → ℕ → ℕ → ℕ → ℕ → Cmd Ret
  gen_exch_rep src_ip dst_ip neigh_ip file_id frag_id score = in_block (
      send_message neigh_ip Const.net_diameter (
        of_exch_rep (record {
          kind = Const.exchange_rep_message;
          file_id = htonl file_id;
          frag_id = htonl frag_id;
          src_ip = htonl src_ip;
          dst_ip = htonl dst_ip;
          score = htonl score;
        })))

  unfoldable pub gen_add_cache : ℕ → ℕ → ℕ → ℕ → Cmd Ret
  gen_add_cache src_ip dst_ip file_id frag_id = in_block (
      send_message src_ip Const.net_diameter (
        of_add_cache (record {
          kind = Const.add_cache_message;
          file_id = htonl file_id;
          frag_id = htonl frag_id;
          src_ip = htonl src_ip;
          dst_ip = htonl dst_ip;
        })))

  -- A message of another kind is read as memory that is not its own.
  unfoldable pub recv_exreq : CTask → Cmd Ret
  recv_exreq task = elim task.payload [
    | of_exch_req m ↦ do
      let request = convert_exreq_to_host m
      score ← get_score request.file_id request.frag_id
      s ← get
      gen_exch_rep s.g_my_ip request.dst_ip request.src_ip request.file_id request.frag_id score
      pure (ret 0)
    | _ ↦ oops
  ]

  unfoldable pub recv_exrep : CTask → Cmd Ret
  recv_exrep task = elim task.payload [
    | of_exch_rep m ↦ do create_extable (convert_exrep_to_host m); pure (ret 0)
    | _ ↦ oops
  ]

  unfoldable pub recv_addcache : CTask → Cmd Ret
  recv_addcache task = elim task.payload [
    | of_add_cache m ↦ do
      let request = convert_addcache_to_host m
      retrieve_frag request.dst_ip request.file_id request.frag_id
      pure (ret 0)
    | _ ↦ oops
  ]

  unfoldable pub select_agent : CTask → Cmd Ret
  select_agent task = do
    own_score ← get_score task.file_id task.frag_id
    s ← get
    let chosen = choose_agent task.file_id task.frag_id own_score s.g_my_ip s.extable
    modify λ s'. record s' { extable = chosen.1 }
    if chosen.0 == s.g_my_ip
        then (do retrieve_frag task.dst_ip task.file_id task.frag_id; pure (ret 0))
        else do gen_add_cache chosen.0 task.dst_ip task.file_id task.frag_id; pure (ret 0)
