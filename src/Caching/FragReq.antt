-- ===== src/Caching/FragReq.antt =====
-- caching/src/cFragReq.c: requests for fragments on their way, and the count that starts an exchange.
pub mod Started
pub mod Counted
use mobile_cloud_caching.Prelude.{
  ℕ, zero, suc, ◌+◌, ◌-◌, ◌*◌, ◌/◌, ◌%◌, ◌<◌, ◌≤◌, ◌≡◌, ◌≢◌, refl, sym, ap, ◌∙◌, ◌⊎◌, inl, inr, ltb,
  leb, ltb→lt, leb→le, ◌==◌, ◌&&◌, ◌||◌, not, Bool, true, false, Option, none, some, List, [], ◌∷◌,
  ◌++◌, length, keep, keep-pass, keep-skip, All, All-append, Bool-cases, Option-cases,
  if◌then◌else◌, arith,
}
use mobile_cloud_caching.Prelude.Commands.{pure, oops, ◌>>=◌, ◌>>◌, get, modify, when}
use mobile_cloud_caching.Prelude.Words.{dec32}
use mobile_cloud_caching.Kernel.{Kernel, htonl, ntohl}
use mobile_cloud_caching.Caching.Types.{CTask, FragReq, ReqList, Message, of_frag_req}
use mobile_cloud_caching.Caching.Types.Const
use mobile_cloud_caching.Caching.State.{State, Cmd, kmalloc, Ret, ret}
use mobile_cloud_caching.Caching.Socket.{send_message, in_block}
use mobile_cloud_caching.Caching.Table.{update_ref}
use mobile_cloud_caching.Caching.ReqList.{
  find_creq, reach_threshold, update_count, flush_count, create_creq,
}
use mobile_cloud_caching.Caching.Timer.{insert_timer, update_timer_queue}
use mobile_cloud_caching.Caching.Exchange.{gen_exch_req}

-- It is a stub.
unfoldable pub data_transmit : ℕ → ℕ → ℕ → ℕ → Cmd Ret
data_transmit src_ip dst_ip file_id frag_id = pure (ret 0)

module _ ⦃k : Kernel⦄ where
  unfoldable pub convert_frreq_to_host : FragReq → FragReq
  convert_frreq_to_host m = record m {
    src_ip = ntohl m.src_ip;
    dst_ip = ntohl m.dst_ip;
    file_id = ntohl m.file_id;
    frag_id = ntohl m.frag_id;
  }

  unfoldable pub convert_frreq_to_network : FragReq → FragReq
  convert_frreq_to_network m = record m {
    src_ip = htonl m.src_ip;
    dst_ip = htonl m.dst_ip;
    file_id = htonl m.file_id;
    frag_id = htonl m.frag_id;
  }

  unfoldable pub gen_frreq : ℕ → ℕ → ℕ → ℕ → Cmd Ret
  gen_frreq src_ip dst_ip file_id frag_id = in_block (
      send_message dst_ip Const.net_diameter (
        of_frag_req (record {
          kind = Const.frag_req_ori_message;
          src_ip = htonl src_ip;
          dst_ip = htonl dst_ip;
          file_id = htonl file_id;
          frag_id = htonl frag_id;
        })))

  -- The request in the task was converted in place. The time to live is an 8-bit argument.
  unfoldable pub gen_frreq_by_task : CTask → FragReq → Cmd Ret
  gen_frreq_by_task task base = in_block (
      send_message (htonl base.dst_ip) (dec32 task.ttl % 256) (
        of_frag_req (record {
          kind = Const.frag_req_fwd_message;
          src_ip = htonl base.src_ip;
          dst_ip = htonl base.dst_ip;
          file_id = htonl base.file_id;
          frag_id = htonl base.frag_id;
        })))

  -- With the count at its threshold: it starts anew, and the neighbours are asked for their scores.
  unfoldable pub start_exchange : ℕ → ℕ → ℕ → Cmd (Unit {0})
  start_exchange dst_ip file frag = do
    s ← get
    gen_exch_req s.g_my_ip dst_ip file frag
    insert_timer Const.task_add_cache_send Const.wait_exch_rep_time dst_ip file frag
    update_timer_queue

  -- The part of `recv_frreq_ori` for a request that only passes by. With the count at its threshold,
  -- the request goes on as a message of the other kind.
  unfoldable pub count_request : CTask → FragReq → Cmd (Unit {0})
  count_request task request = do
    found ← find_creq request.file_id request.frag_id
    elim found [
      | none ↦ do made ← create_creq request.file_id request.frag_id; update_count made; pure tt
      | some r ↦ do
        reached ← reach_threshold (some r)
        if reached == 1
            then (do
              flush_count (some r)
              gen_frreq_by_task task request
              start_exchange task.dst_ip request.file_id request.frag_id)
            else do update_count (some r); pure tt
    ]

  -- A message of another kind is read as memory that is not its own.
  unfoldable pub recv_frreq_ori : CTask → Cmd Ret
  recv_frreq_ori task = elim task.payload [
    | of_frag_req m ↦ do
      let request = convert_frreq_to_host m
      s ← get
      if task.dst_ip == s.g_my_ip
          then (do
            when s.g_act (update_ref request.file_id request.frag_id >> pure tt)
            data_transmit s.g_my_ip request.src_ip request.file_id request.frag_id
            pure (ret 1))
          else do when s.g_act (count_request task request); pure (ret 0)
    | _ ↦ oops
  ]

  unfoldable pub recv_frreq_fwd : CTask → Cmd Ret
  recv_frreq_fwd task = elim task.payload [
    | of_frag_req m ↦ do
      let request = convert_frreq_to_host m
      s ← get
      if task.dst_ip == s.g_my_ip
          then (do
            update_ref request.file_id request.frag_id
            data_transmit s.g_my_ip request.src_ip request.file_id request.frag_id
            pure (ret 1))
          else do
            found ← find_creq request.file_id request.frag_id
            elim found [ none ↦ pure (ret 0) | some r ↦ do flush_count (some r); pure (ret 0) ]
    | _ ↦ oops
  ]
