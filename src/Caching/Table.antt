-- ===== src/Caching/Table.antt =====
-- caching/src/cacheTable.c: the fragments that this node holds, the latest first. A pointer into the
-- list is the list from there on.
pub mod Entries
use mobile_cloud_caching.Prelude.{
  ℕ, ◌==◌, ◌&&◌, Bool, Option, none, some, List, [], ◌∷◌, if◌then◌else◌,
}
use mobile_cloud_caching.Prelude.Words.{inc32, dec32}
use mobile_cloud_caching.Prelude.Commands.{pure, ◌>>=◌, ◌>>◌, get, modify}
use mobile_cloud_caching.Types.{Ptr}
use mobile_cloud_caching.Caching.Types.{CacheTable}
use mobile_cloud_caching.Caching.State.{Cmd, kmalloc, Ret, ret}

-- From the first entry of a file on.
unfoldable pub find_cache_by_fl : List CacheTable → ℕ → List CacheTable
find_cache_by_fl [] file = []
find_cache_by_fl (c ∷ cs) file = if c.file_id == file then c ∷ cs else find_cache_by_fl cs file

abbrev pub is_fragment : ℕ → ℕ → CacheTable → Bool
is_fragment file frag c = (c.file_id == file) && (c.frag_id == frag)

-- The walk of `find_cache_by_fr` from an entry on.
unfoldable pub fragment_from : List CacheTable → ℕ → ℕ → Option CacheTable
fragment_from [] file frag = none
fragment_from (c ∷ cs) file frag =
    if is_fragment file frag c then some c else fragment_from cs file frag

unfoldable pub find_cache_by_fr : ℕ → ℕ → Cmd (Option CacheTable)
unfolding fragment_from
find_cache_by_fr file frag s = some (fragment_from s.ctable file frag, s)

-- A write to the entry at an address.
unfoldable pub at_address : Ptr → (CacheTable → CacheTable) → List CacheTable → List CacheTable
at_address a f [] = []
at_address a f (c ∷ cs) = if c.addr == a then f c ∷ cs else c ∷ at_address a f cs

unfoldable pub update_ref : ℕ → ℕ → Cmd Ret
unfolding find_cache_by_fr at_address
update_ref file frag = do
  found ← find_cache_by_fr file frag
  elim found [
    | none ↦ pure (ret 1)
    | some c ↦ do
      modify λ s. record s {
        ctable = at_address c.addr (λ e. record e { refs = inc32 e.refs }) s.ctable;
      }
      pure (ret 0)
  ]

-- The list without the entry at an address.
unfoldable pub unlink : Ptr → List CacheTable → List CacheTable
unlink a [] = []
unlink a (c ∷ cs) = if c.addr == a then cs else c ∷ unlink a cs

unfoldable pub remove_cache : CacheTable → Cmd (Unit {0})
unfolding unlink
remove_cache dead =
    modify λ s. record s { ctable = unlink dead.addr s.ctable; ct_len = dec32 s.ct_len }

unfoldable pub delete_cache : ℕ → ℕ → Cmd Ret
unfolding find_cache_by_fr remove_cache
delete_cache file frag = do
  found ← find_cache_by_fr file frag
  elim found [
    | none ↦ pure (ret 0)
    | some c ↦ if c.is_service_center == 0 then (remove_cache c >> pure (ret 1)) else pure (ret 0)
  ]

-- The walk of `cleanup_cache_table` over the entries from one on.
unfoldable pub cleanup_loop : List CacheTable → Cmd (Unit {0})
unfolding remove_cache
cleanup_loop [] = pure tt
cleanup_loop (c ∷ cs) =
    let rest = cleanup_loop cs in
    if c.is_service_center == 0 then (remove_cache c >> rest) else rest

unfoldable pub cleanup_cache_table : Cmd Ret
unfolding cleanup_loop
cleanup_cache_table = do s ← get; cleanup_loop s.ctable; pure (ret 0)

unfoldable pub insert_cache : CacheTable → Cmd (Unit {0})
insert_cache new = modify λ s. record s { ctable = new ∷ s.ctable; ct_len = inc32 s.ct_len }

unfoldable pub create_cache : ℕ → ℕ → ℕ → Cmd (Option CacheTable)
unfolding kmalloc insert_cache
create_cache file frag flag = do
  block ← kmalloc
  elim block [
    | none ↦ pure none
    | some addr ↦ do
      let new : CacheTable = record {
        addr = addr;
        file_id = file;
        frag_id = frag;
        refs = 0;
        is_service_center = flag;
      }
      insert_cache new
      pure (some new)
  ]
