-- ===== src/Caching/FileRep.antt =====
-- caching/src/cFileRep.c: replies with the fragments that a node holds, and the requests for
-- fragments that follow from the replies.
pub mod Replies
pub mod Choose
pub mod Asked
pub mod Processed
use mathlib.Core.List.{map}
use mobile_cloud_caching.Prelude.{
  ℕ, zero, suc, ◌+◌, ◌-◌, ◌*◌, ◌/◌, ◌%◌, ◌<◌, ◌≤◌, ◌≡◌, ◌≢◌, refl, sym, ap, ◌∙◌, ◌⊎◌, inl, inr, ltb,
  leb, ltb→lt, leb→le, ◌==◌, ◌&&◌, ◌||◌, not, Bool, true, false, Option, none, some, List, [], ◌∷◌,
  ◌++◌, length, keep, keep-pass, keep-skip, All, All-append, Bool-cases, Option-cases,
  if◌then◌else◌, arith,
}
use mobile_cloud_caching.Prelude.Commands.{pure, oops, ◌>>=◌, ◌>>◌, get, modify, when}
use mobile_cloud_caching.Prelude.Words.{inc32}
use mobile_cloud_caching.Kernel.{Kernel, htonl, ntohl}
use mobile_cloud_caching.Caching.Types.{
  CTask, CacheTable, FileRepInfo, FileRep, Message, of_file_rep,
}
use mobile_cloud_caching.Caching.Types.Const
use mobile_cloud_caching.Caching.State.{State, Cmd, kmalloc, Ret, ret}
use mobile_cloud_caching.Caching.Socket.{send_message, in_block}
use mobile_cloud_caching.Caching.Table.{update_ref}
use mobile_cloud_caching.Caching.ReqList.{
  find_creq, reach_threshold, update_count, flush_count, create_creq,
}
use mobile_cloud_caching.Caching.Timer.{insert_timer, update_timer_queue}
use mobile_cloud_caching.Caching.FragReq.{gen_frreq, start_exchange}
use Replies.{is_reply, find_rinfo, create_rinfo}
use Choose.{Search, Chosen, complete, too_few, choose}

-- The fragments of a file in the table from an entry on, as far as there is room in `buf`.
unfoldable pub held : ℕ → ℕ → List CacheTable → List ℕ
held file room [] = []
held file zero (c ∷ cs) = []
held file (suc room) (c ∷ cs) =
    let taken = c.frag_id ∷ held file room cs in
    let passed = held file (suc room) cs in if c.file_id == file then taken else passed

-- Each of them counts as used.
unfoldable pub use_all : ℕ → List ℕ → Cmd (Unit {0})
use_all file [] = pure tt
use_all file (f ∷ fs) = do update_ref file f; use_all file fs

-- The last loop of `process_flrep`: all that is left of a file's replies expires.
unfoldable pub expire_file : ℕ → List FileRepInfo → List FileRepInfo
expire_file file = map (λ r. if is_reply file r then record r { expired = 1 } else r)

module _ ⦃k : Kernel⦄ where
  unfoldable pub recv_flrep : CTask → Cmd (Option Ret)
  recv_flrep task = do
    s ← get
    if task.dst_ip == s.g_my_ip
        then elim task.payload [
          | of_file_rep m ↦ do
            elim (find_rinfo s.rinfo m.file_id) [
              | [] ↦ do
                insert_timer Const.task_frag_req_send Const.wait_file_rep_time s.g_my_ip m.file_id 0
                update_timer_queue
              | _ ∷ _ ↦ pure tt
            ]
            create_rinfo m
            pure none
          | _ ↦ oops
        ]
        else pure (some (ret 1))

  -- The count is kept in 8 bits.
  unfoldable pub gen_flrep : ℕ → ℕ → ℕ → ℕ → Cmd Ret
  gen_flrep src_ip dst_ip file_id dist = do
    s ← get
    let buf = held file_id s.kval s.ctable
    if length buf == 0
        then pure (ret 1)
        else in_block (
            send_message dst_ip Const.net_diameter (
              of_file_rep (record {
                kind = Const.file_rep_message;
                frag_count = length buf % 256;
                src_ip = htonl src_ip;
                dst_ip = htonl dst_ip;
                file_id = htonl file_id;
                dist = htonl dist;
                frags = map (λ f. htonl f) buf;
              })))

  -- The count of a request that this node makes.
  unfoldable pub count_own : ℕ → ℕ → ℕ → Cmd (Unit {0})
  count_own dst_ip file frag = do
    found ← find_creq file frag
    elim found [
      | none ↦ do made ← create_creq file frag; update_count made; pure tt
      | some r ↦ do
        reached ← reach_threshold (some r)
        if reached == 1
            then (do flush_count (some r); start_exchange dst_ip file frag)
            else do update_count (some r); pure tt
    ]

  unfoldable pub request_all : ℕ → List (ℕ × ℕ) → Cmd (Unit {0})
  request_all file [] = pure tt
  request_all file ((dst_ip, frag) ∷ picks) = do
    s ← get
    gen_frreq s.g_my_ip dst_ip file frag
    when s.g_act (count_own dst_ip file frag)
    request_all file picks

  unfoldable pub process_flrep : CTask → Cmd Ret
  process_flrep task = do
    s ← get
    let buf = held task.file_id s.kval s.ctable
    when s.g_act (use_all task.file_id buf)
    let start : Search = record {
      buf = buf;
      count = length buf;
      need = s.kval - length buf;
      picks = [];
      energy = 0;
    }
    elim (choose (length s.rinfo + 1) s.kval task.file_id start s.rinfo) [
      | none ↦ oops
      | some (too_few rs) ↦ do modify λ s'. record s' { rinfo = rs }; pure (ret 1)
      | some (complete t rs) ↦ do
        modify λ s'. record s' {
          rinfo = rs;
          c_energy = (s'.c_energy + t.energy) % 4_294_967_296;
          c_success = inc32 s'.c_success;
        }
        request_all task.file_id t.picks
        modify λ s'. record s' { rinfo = expire_file task.file_id s'.rinfo }
        pure (ret 0)
    ]
