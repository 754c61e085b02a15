-- ===== src/Caching/Exchange/Offers.antt =====
-- The table of the neighbours' scores in caching/src/cExchange.c, the latest first.
use mobile_cloud_caching.Prelude.{
  ℕ, ltb, ◌==◌, ◌&&◌, not, Bool, Option, none, some, List, [], ◌∷◌, if◌then◌else◌,
}
use mobile_cloud_caching.Prelude.Commands.{pure, ◌>>=◌, ◌>>◌, get, modify}
use mobile_cloud_caching.Types.{Ptr}
use mobile_cloud_caching.Caching.Types.{ExchTable, ExchRep}
use mobile_cloud_caching.Caching.State.{Cmd, kmalloc}

-- An entry that stands for a fragment: the test of `find_extable`.
abbrev pub is_offer : ℕ → ℕ → ExchTable → Bool
is_offer file frag e = not (e.expired == 1) && ((e.file_id == file) && (e.frag_id == frag))

-- From the first such entry on.
unfoldable pub find_extable : List ExchTable → ℕ → ℕ → List ExchTable
find_extable [] file frag = []
find_extable (e ∷ es) file frag = if is_offer file frag e then e ∷ es else find_extable es file frag

-- The loop of `select_agent` over `find_extable` from an entry on, with the score and the address
-- that are best so far: the address in the end, and the entries with those for the fragment expired.
unfoldable pub choose_agent : ℕ → ℕ → ℕ → ℕ → List ExchTable → ℕ × List ExchTable
choose_agent file frag max_score dst_ip [] = (dst_ip, [])
choose_agent file frag max_score dst_ip (e ∷ es) =
    let offer = is_offer file frag e in
    let better = offer && ltb max_score e.score in
    let rest =
      choose_agent file frag (if better then e.score else max_score)
        (if better then e.neigh_ip else dst_ip) es in
    (rest.0, (if offer then record e { expired = 1 } else e) ∷ rest.1)

unfoldable pub unlink : Ptr → List ExchTable → List ExchTable
unlink a [] = []
unlink a (e ∷ es) = if e.addr == a then es else e ∷ unlink a es

unfoldable pub remove_extable : ExchTable → Cmd (Unit {0})
unfolding unlink
remove_extable dead = modify λ s. record s { extable = unlink dead.addr s.extable }

-- The walk of `flush_extable` over the entries from one on.
unfoldable pub flush_loop : List ExchTable → Cmd (Unit {0})
unfolding remove_extable
flush_loop [] = pure tt
flush_loop (e ∷ es) =
    let rest = flush_loop es in if e.expired == 1 then (remove_extable e >> rest) else rest

unfoldable pub flush_extable : Cmd (Unit {0})
unfolding flush_loop
flush_extable = do s ← get; flush_loop s.extable

unfoldable pub cleanup_extable : Cmd (Unit {0})
cleanup_extable = modify λ s. record s { extable = [] }

unfoldable pub insert_extable : ExchTable → Cmd (Unit {0})
insert_extable new = modify λ s. record s { extable = new ∷ s.extable }

unfoldable pub create_extable : ExchRep → Cmd (Option ExchTable)
unfolding kmalloc insert_extable
create_extable m = do
  block ← kmalloc
  elim block [
    | none ↦ pure none
    | some addr ↦ do
      let new : ExchTable = record {
        addr = addr;
        file_id = m.file_id;
        frag_id = m.frag_id;
        dst_ip = m.dst_ip;
        neigh_ip = m.src_ip;
        score = m.score;
        expired = 0;
      }
      insert_extable new
      pure (some new)
  ]
