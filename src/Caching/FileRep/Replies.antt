-- ===== src/Caching/FileRep/Replies.antt =====
-- The table of file replies in caching/src/cFileRep.c, the latest first.
pub mod Created
use mobile_cloud_caching.Prelude.{
  ℕ, zero, suc, ltb, ◌==◌, ◌&&◌, not, Bool, Option, none, some, List, [], ◌∷◌, if◌then◌else◌,
}
use mobile_cloud_caching.Prelude.Commands.{pure, oops, ◌>>=◌, ◌>>◌, get, modify}
use mobile_cloud_caching.Types.{Ptr}
use mobile_cloud_caching.Kernel.{Kernel, ntohl}
use mobile_cloud_caching.Caching.Types.{FileRepInfo, FileRep}
use mobile_cloud_caching.Caching.State.{Cmd, kmalloc}

-- An entry that stands for a file: the test of `find_rinfo`.
abbrev pub is_reply : ℕ → FileRepInfo → Bool
is_reply file r = not (r.expired == 1) && (r.file_id == file)

-- From the first such entry on.
unfoldable pub find_rinfo : List FileRepInfo → ℕ → List FileRepInfo
find_rinfo [] file = []
find_rinfo (r ∷ rs) file = if is_reply file r then r ∷ rs else find_rinfo rs file

unfoldable pub unlink : Ptr → List FileRepInfo → List FileRepInfo
unlink a [] = []
unlink a (r ∷ rs) = if r.addr == a then rs else r ∷ unlink a rs

unfoldable pub remove_rinfo : FileRepInfo → Cmd (Unit {0})
unfolding unlink
remove_rinfo dead = modify λ s. record s { rinfo = unlink dead.addr s.rinfo }

-- The walk of `flush_rinfo` over the entries from one on.
unfoldable pub flush_loop : List FileRepInfo → Cmd (Unit {0})
flush_loop [] = pure tt
flush_loop (r ∷ rs) =
    let rest = flush_loop rs in if r.expired == 1 then (remove_rinfo r >> rest) else rest

unfoldable pub flush_rinfo : Cmd (Unit {0})
flush_rinfo = do s ← get; flush_loop s.rinfo

unfoldable pub cleanup_rinfo : Cmd (Unit {0})
cleanup_rinfo = modify λ s. record s { rinfo = [] }

unfoldable pub insert_rinfo : FileRepInfo → Cmd (Unit {0})
insert_rinfo new = modify λ s. record s { rinfo = new ∷ s.rinfo }

-- An `int` as the number of rounds of a loop from 0 up to it.
abbrev pub rounds : ℕ → ℕ
rounds n = if ltb n 2_147_483_648 then n else 0

module _ ⦃k : Kernel⦄ where
  -- The copy of the words behind the message into a map with room for some: none if it runs over
  -- the end of the one or the other.
  unfoldable pub copy_words : ℕ → ℕ → List ℕ → Option (List ℕ)
  copy_words zero room frags = some []
  copy_words (suc n) zero frags = none
  copy_words (suc n) (suc room) [] = none
  copy_words (suc n) (suc room) (f ∷ fs) = elim (copy_words n room fs) [
    | none ↦ none
    | some words ↦ some (ntohl f ∷ words)
  ]

  -- The map has eight words.
  unfoldable pub create_rinfo : FileRep → Cmd (Option FileRepInfo)
  unfolding kmalloc insert_rinfo
  create_rinfo m = do
    block ← kmalloc
    elim block [
      | none ↦ pure none
      | some addr ↦ elim (copy_words (rounds (ntohl m.frag_count)) 8 m.frags) [
        | none ↦ oops
        | some words ↦ do
          let new : FileRepInfo = record {
            addr = addr;
            file_id = ntohl m.file_id;
            dst_ip = ntohl m.src_ip;
            dist = ntohl m.dist;
            map = words;
            frag_count = ntohl m.frag_count;
            expired = 0;
          }
          insert_rinfo new
          pure (some new)
      ]
    ]
