-- ===== src/Caching/FileReq.antt =====
-- caching/src/cFileReq.c: requests for files, which flood the network, each answered once.
pub mod Heard
pub mod Once
use mobile_cloud_caching.Prelude.{ℕ, ◌%◌, leb, none, some, if◌then◌else◌}
use mobile_cloud_caching.Prelude.Commands.{pure, oops, ◌>>=◌, ◌>>◌, get}
use mobile_cloud_caching.Prelude.Words.{inc32, add64, dec32}
use mobile_cloud_caching.Kernel.{Kernel, htonl, ntohl}
use mobile_cloud_caching.Caching.Types.{CTask, FileReq, of_file_req}
use mobile_cloud_caching.Caching.Types.Const
use mobile_cloud_caching.Caching.State.{Cmd, getcurrtime, Ret, ret, fail, etimedout}
use mobile_cloud_caching.Caching.Socket.{local_broadcast}
use mobile_cloud_caching.Caching.Flood.{find_flood_id, insert_flood_id}
use mobile_cloud_caching.Caching.FileRep.{gen_flrep}

module _ ⦃k : Kernel⦄ where
  unfoldable pub convert_flreq_to_host : FileReq → FileReq
  convert_flreq_to_host m = record m {
    src_ip = ntohl m.src_ip;
    dst_ip = ntohl m.dst_ip;
    file_id = ntohl m.file_id;
    seq = ntohl m.seq;
    metric = ntohl m.metric;
  }

  unfoldable pub convert_flreq_to_network : FileReq → FileReq
  convert_flreq_to_network m = record m {
    src_ip = htonl m.src_ip;
    dst_ip = htonl m.dst_ip;
    file_id = htonl m.file_id;
    seq = htonl m.seq;
    metric = htonl m.metric;
  }

  -- The time to live is an 8-bit argument.
  unfoldable pub forward_flreq : FileReq → ℕ → Cmd Ret
  forward_flreq m ttl = do
    local_broadcast (dec32 ttl % 256) (of_file_req (convert_flreq_to_network m))
    pure (ret 0)

  -- The answer to a request that was not seen before, and its way on.
  unfoldable pub accept_flreq : FileReq → ℕ → ℕ → Cmd Ret
  accept_flreq m current_time ttl = do
    let request : FileReq = record m { metric = inc32 m.metric }
    insert_flood_id request.src_ip request.dst_ip request.seq
        (add64 current_time Const.file_request_lifetime)
    s ← get
    gen_flrep s.g_my_ip request.src_ip request.file_id request.metric
    forward_flreq request ttl
    pure (ret 0)

  unfoldable pub recv_flreq : CTask → Cmd Ret
  recv_flreq task = elim task.payload [
    | of_file_req m ↦ do
      let request = convert_flreq_to_host m
      current_time ← getcurrtime
      if leb task.ttl 1 then pure (fail etimedout) else do
        seen ← find_flood_id request.src_ip request.seq
        elim seen [ some _ ↦ pure (ret 1) | none ↦ accept_flreq request current_time task.ttl ]
    | _ ↦ oops
  ]
