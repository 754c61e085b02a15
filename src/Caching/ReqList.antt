-- ===== src/Caching/ReqList.antt =====
-- caching/src/cReqList.c: how often each fragment was asked for through this node.
pub mod Entries
use mobile_cloud_caching.Prelude.{
  ℕ, ◌==◌, ltb, ◌&&◌, Bool, Option, none, some, List, [], ◌∷◌, if◌then◌else◌,
}
use mobile_cloud_caching.Prelude.Words.{inc32, dec32}
use mobile_cloud_caching.Prelude.Commands.{pure, oops, ◌>>=◌, ◌>>◌, modify}
use mobile_cloud_caching.Types.{Ptr}
use mobile_cloud_caching.Caching.Types.{ReqList}
use mobile_cloud_caching.Caching.State.{Cmd, kmalloc}

abbrev pub is_request : ℕ → ℕ → ReqList → Bool
is_request file frag r = (r.file_id == file) && (r.frag_id == frag)

unfoldable pub request_from : List ReqList → ℕ → ℕ → Option ReqList
request_from [] file frag = none
request_from (r ∷ rs) file frag =
    if is_request file frag r then some r else request_from rs file frag

unfoldable pub find_creq : ℕ → ℕ → Cmd (Option ReqList)
unfolding request_from
find_creq file frag s = some (request_from s.crlist file frag, s)

-- The count is unsigned, and so is the comparison with `THRESHOLD - 1`.
unfoldable pub reach_threshold : Option ReqList → Cmd ℕ
reach_threshold none s = some (0, s)
reach_threshold (some r) s = some (if ltb r.count (dec32 s.threshold) then 0 else 1, s)

-- A write to the entry at an address.
unfoldable pub count_at : Ptr → (ℕ → ℕ) → List ReqList → List ReqList
count_at a f [] = []
count_at a f (r ∷ rs) =
    if r.addr == a then record r { count = f r.count } ∷ rs else r ∷ count_at a f rs

-- Of a null pointer it reads the count.
unfoldable pub update_count : Option ReqList → Cmd ℕ
unfolding count_at
update_count none = oops
update_count (some r) = do modify λ s. record s { crlist = count_at r.addr inc32 s.crlist }; pure 1

unfoldable pub flush_count : Option ReqList → Cmd ℕ
unfolding count_at
flush_count none = pure 1
flush_count (some r) = do
  modify λ s. record s { crlist = count_at r.addr (λ _. 0) s.crlist }
  pure 1

unfoldable pub unlink : Ptr → List ReqList → List ReqList
unlink a [] = []
unlink a (r ∷ rs) = if r.addr == a then rs else r ∷ unlink a rs

unfoldable pub remove_creq : ReqList → Cmd (Unit {0})
unfolding unlink
remove_creq dead = modify λ s. record s { crlist = unlink dead.addr s.crlist }

unfoldable pub delete_creq : ℕ → ℕ → Cmd ℕ
unfolding find_creq remove_creq
delete_creq file frag = do
  found ← find_creq file frag
  elim found [ none ↦ pure 0 | some r ↦ do remove_creq r; pure 1 ]

unfoldable pub cleanup_req_list : Cmd ℕ
cleanup_req_list = do modify λ s. record s { crlist = [] }; pure 0

unfoldable pub insert_creq : ReqList → Cmd (Unit {0})
insert_creq new = modify λ s. record s { crlist = new ∷ s.crlist }

unfoldable pub create_creq : ℕ → ℕ → Cmd (Option ReqList)
unfolding kmalloc insert_creq
create_creq file frag = do
  block ← kmalloc
  elim block [
    | none ↦ pure none
    | some addr ↦ do
      let new : ReqList = record { addr = addr; file_id = file; frag_id = frag; count = 0 }
      insert_creq new
      pure (some new)
  ]
