-- ===== src/Caching/Exchange/Victim.antt =====
-- Which entry `retrieve_frag` of caching/src/cExchange.c takes out to make room, and its count of a
-- file's fragments.
use mathlib.Core.List.{append_assoc}
use mathlib.Core.Path.{subst}
use mobile_cloud_caching.Prelude.{
  ℕ, ◌+◌, ◌-◌, ◌≤◌, ◌≡◌, refl, ap, ltb, leb, ◌==◌, ◌&&◌, ◌⊎◌, inl, inr, false, List, [], ◌∷◌, ◌++◌,
  All, All-append, sym, ◌∙◌, Bool-cases, arith,
}
use mobile_cloud_caching.Caching.Types.{CacheTable}
use mobile_cloud_caching.Caching.Table.{unlink}
use mobile_cloud_caching.Caching.Table.Entries.{is_center, Distinct, unlink-Distinct}
use mobile_cloud_caching.Caching.Exchange.{count_fragments, count_to, skip_centers, least_used}

-- The loop stops at its limit.
count_to-below :
    (limit file count : ℕ) (cs : List CacheTable)
    → count ≤ limit
    → (count_to limit file count cs ≡ count + count_fragments file cs)
      ⊎ ((count_to limit file count cs ≡ limit) × (limit ≤ count + count_fragments file cs))
unfolding count_to count_fragments
count_to-below limit file count [] h = inl (omega arith)
count_to-below limit file count (c ∷ cs) h = ground (
  arith,
  count_to-below limit file count cs h,
  λ (below : count + 1 ≤ limit). count_to-below limit file (count + 1) cs below,
)

-- So it finds enough fragments exactly if there are enough.
pub enough_iff :
    (limit file : ℕ) (cs : List CacheTable)
    → leb (limit - 1) (count_to limit file 0 cs) ≡ leb (limit - 1) (count_fragments file cs)
enough_iff limit file cs = ground (arith, count_to-below limit file 0 cs)

-- What `retrieve_frag` takes out to make room: an entry that is no service centre's, and that is
-- used no more often than any other that is not.
pub record Evicts (old kept : List CacheTable) : Type 0 where
  pub before : List CacheTable
  pub victim : CacheTable
  pub after : List CacheTable
  pub split : old ≡ before ++ victim ∷ after
  pub kept_list : kept ≡ before ++ after
  pub spares_centers : is_center victim ≡ false
  pub least : All (λ c. c.is_service_center ≡ 0 → victim.refs ≤ c.refs) old

-- The candidate among the first entry and those behind it.
record Least (c : CacheTable) (cs : List CacheTable) (v : CacheTable) : Type 0 where
  before : List CacheTable
  after : List CacheTable
  split : c ∷ cs ≡ before ++ v ∷ after
  spares : is_center c ≡ false → is_center v ≡ false
  no_more : v.refs ≤ c.refs
  least : All (λ d. d.is_service_center ≡ 0 → v.refs ≤ d.refs) cs

-- An entry of a list with one more behind its first stands in the longer list too.
module _ (c d : CacheTable) (ds : List CacheTable) (v : CacheTable) (after : List CacheTable) where
  abbrev Stands : Type 0
  Stands =
      (before' : List CacheTable) × (after' : List CacheTable) × (c ∷ d ∷ ds
        ≡ before' ++ v ∷ after')

  stands_behind : (before : List CacheTable) → c ∷ ds ≡ before ++ v ∷ after → Stands
  stands_behind [] e = ([], d ∷ ds, ground arith)
  stands_behind (b ∷ bs) e = (c ∷ d ∷ bs, after, ground arith)

least_used-Least : (c : CacheTable) (cs : List CacheTable) → Least c cs (least_used c cs)
unfolding least_used
least_used-Least c [] = record {
  before = [];
  after = [];
  split = refl;
  spares = λ e. e;
  no_more = omega arith;
  least = tt;
}
least_used-Least c (d ∷ ds) = elim (Bool-cases (ltb d.refs c.refs && (d.is_service_center == 0))) [
  | inl less ↦
      let l = least_used-Least d ds in
      rw less (record {
        before = c ∷ l.before;
        after = l.after;
        split = ap (◌∷◌ c) l.split;
        spares = λ _. l.spares (ground arith);
        no_more = ground (arith, l.no_more);
        least = (λ _. l.no_more, l.least);
      })
  | inr more ↦
      let l = least_used-Least c ds in
      let place = stands_behind c d ds (least_used c ds) l.after l.before l.split in
      rw more (record {
        before = place.0;
        after = place.1;
        split = place.2;
        spares = l.spares;
        no_more = l.no_more;
        least = (λ center. ground (arith, l.no_more), l.least);
      })
]

-- The entries in front of the first that is no service centre's.
record Skips (cs : List CacheTable) (c : CacheTable) (rest : List CacheTable) : Type 0 where
  front : List CacheTable
  split : cs ≡ front ++ c ∷ rest
  centers : All (λ d. d.is_service_center ≡ 1) front
  spares : is_center c ≡ false

pub skip_centers-none :
    (cs : List CacheTable) → skip_centers cs ≡ [] → All (λ c. c.is_service_center ≡ 1) cs
unfolding skip_centers
skip_centers-none [] e = tt
skip_centers-none (c ∷ cs) e = elim (Bool-cases (is_center c)) [
  | inl center ↦ (ground arith, skip_centers-none cs (ground arith))
  | inr other ↦ absurd (ground arith)
]

skip_centers-Skips :
    (cs : List CacheTable) (c : CacheTable) (rest : List CacheTable)
    → skip_centers cs ≡ c ∷ rest
    → Skips cs c rest
unfolding skip_centers
skip_centers-Skips [] c rest e = cc
skip_centers-Skips (d ∷ ds) c rest e = elim (Bool-cases (is_center d)) [
  | inl center ↦
      let s = skip_centers-Skips ds c rest (ground arith) in
      record {
        front = d ∷ s.front;
        split = ap (◌∷◌ d) s.split;
        centers = (ground arith, s.centers);
        spares = s.spares;
      }
  | inr other ↦ record { front = []; split = ground arith; centers = tt; spares = ground arith }
]

All-centers :
    (n : ℕ) (cs : List CacheTable)
    → All (λ d. d.is_service_center ≡ 1) cs
    → All (λ d. d.is_service_center ≡ 0 → n ≤ d.refs) cs
All-centers n [] all = tt
All-centers n (c ∷ cs) all = (λ e. absurd (ground arith), All-centers n cs all.1)

-- The entry that `retrieve_frag` takes out, if there is one.
pub evicts :
    (cs : List CacheTable) (c : CacheTable) (rest : List CacheTable)
    → skip_centers cs ≡ c ∷ rest
    → Distinct cs
    → Evicts cs (unlink (least_used c rest).addr cs)
evicts cs c rest e distinct =
    let s = skip_centers-Skips cs c rest e in
    let l = least_used-Least c rest in
    let v = least_used c rest in
    let before = s.front ++ l.before in
    let whole : cs ≡ before ++ v ∷ l.after =
      s.split ∙ ap (◌++◌ s.front) l.split ∙ sym (append_assoc s.front l.before (v ∷ l.after)) in
    let P : CacheTable → Type 0 = λ d. d.is_service_center ≡ 0 → v.refs ≤ d.refs in
    record {
      before = before;
      victim = v;
      after = l.after;
      split = whole;
      kept_list =
          ap (unlink v.addr) whole
          ∙ unlink-Distinct v l.after before (subst Distinct whole distinct);
      spares_centers = l.spares s.spares;
      least = subst (All P) (sym s.split) (
          All-append P s.front (c ∷ rest) (All-centers v.refs s.front s.centers)
            (λ _. l.no_more, l.least));
    }
