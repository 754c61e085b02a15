-- ===== src/Caching/Thread/Stable.antt =====
-- What every task of the daemon's thread keeps of the cache table.
use mathlib.Core.List.{map}
use mathlib.Core.Path.{subst}
use mobile_cloud_caching.Prelude.{
  ℕ, ◌<◌, ◌≤◌, ◌≡◌, refl, sym, ap, ◌∙◌, some, List, [], ◌∷◌, length, keep, keep-pass, keep-skip,
  Bool-cases, inl, inr, arith,
}
use mobile_cloud_caching.Types.{Ptr}
use mobile_cloud_caching.Caching.Types.{CacheTable}
use mobile_cloud_caching.Caching.State.{State}
use mobile_cloud_caching.Caching.Table.Entries.{IsCache, Distinct, Apart, is_center}
use mobile_cloud_caching.Caching.Exchange.Sound.{Sound}
use mobile_cloud_caching.Caching.FileRep.Processed.{unreferenced, Uses}
use mobile_cloud_caching.Caching.Thread.Quiet.{Quiet}

-- The table stays well formed and within its size, and keeps every service centre's entry but for
-- the count of its references.
pub record Stable (s s' : State) : Type 0 where
  pub cache : IsCache s'
  pub within : length s'.ctable ≤ s'.buf_size
  pub centers :
      map unreferenced (keep is_center s'.ctable) ≡ map unreferenced (keep is_center s.ctable)

Apart-to : (a : Ptr) (cs : List CacheTable) → Apart a cs → Apart a (map unreferenced cs)
Apart-to a [] h = tt
Apart-to a (c ∷ cs) h = (h.0, Apart-to a cs h.1)

Apart-from : (a : Ptr) (cs : List CacheTable) → Apart a (map unreferenced cs) → Apart a cs
Apart-from a [] h = tt
Apart-from a (c ∷ cs) h = (h.0, Apart-from a cs h.1)

Distinct-to : (cs : List CacheTable) → Distinct cs → Distinct (map unreferenced cs)
Distinct-to [] h = tt
Distinct-to (c ∷ cs) h = (Apart-to c.addr cs h.0, Distinct-to cs h.1)

Distinct-from : (cs : List CacheTable) → Distinct (map unreferenced cs) → Distinct cs
Distinct-from [] h = tt
Distinct-from (c ∷ cs) h = (Apart-from c.addr cs h.0, Distinct-from cs h.1)

length-entries : (cs : List CacheTable) → length (map unreferenced cs) ≡ length cs
length-entries [] = refl
length-entries (c ∷ cs) = omega (arith, length-entries cs)

keep-entries :
    (cs : List CacheTable)
    → keep is_center (map unreferenced cs) ≡ map unreferenced (keep is_center cs)
keep-entries [] = refl
keep-entries (c ∷ cs) = elim (Bool-cases (is_center c)) [
  | inl hit ↦
      rw
        (
          keep-pass is_center c cs hit,
          keep-pass is_center (unreferenced c) (map unreferenced cs) hit,
        )
        (ap (λ x. unreferenced c ∷ x) (keep-entries cs))
  | inr miss ↦
      rw
        (
          keep-skip is_center c cs miss,
          keep-skip is_center (unreferenced c) (map unreferenced cs) miss,
        )
        (keep-entries cs)
]

-- The conditions on a state in which a task is taken: a table that is well formed and within its
-- size, and a next block, if there is memory for one, that is none of the table's own.
pub record IsDaemon (s : State) : Type 0 where
  pub cache : IsCache s
  pub limit : s.buf_size < 2_147_483_648
  pub within : length s.ctable ≤ s.buf_size
  pub fresh : (a : Ptr) → s.memory s.allocations ≡ some a → Apart a s.ctable

pub Uses-Stable : (s s' : State) → IsDaemon s → Uses s s' → Stable s s'
Uses-Stable s s' d u =
    let count : s'.ct_len ≡ s.ct_len = ap (λ (x : State). x.ct_len) u.frame in
    let size : s'.buf_size ≡ s.buf_size = ap (λ (x : State). x.buf_size) u.frame in
    let lengths : length s'.ctable ≡ length s.ctable =
      sym (length-entries s'.ctable) ∙ ap length u.entries ∙ length-entries s.ctable in
    record {
      cache = record {
        counted = omega (arith, count, lengths, d.cache.counted);
        distinct =
            Distinct-from s'.ctable
              (subst Distinct (sym u.entries) (Distinct-to s.ctable d.cache.distinct));
        small = omega (arith, lengths, d.cache.small);
      };
      within = omega (arith, lengths, size, d.within);
      centers =
          sym (keep-entries s'.ctable) ∙ ap (keep is_center) u.entries ∙ keep-entries s.ctable;
    }

pub Stable-Quiet : (s s₁ s' : State) → Stable s s₁ → Quiet s₁ s' → Stable s s'
Stable-Quiet s s₁ s' st q =
    let table : s'.ctable ≡ s₁.ctable = ap (λ (x : State). x.ctable) q in
    let count : s'.ct_len ≡ s₁.ct_len = ap (λ (x : State). x.ct_len) q in
    let size : s'.buf_size ≡ s₁.buf_size = ap (λ (x : State). x.buf_size) q in
    record {
      cache = record {
        counted = count ∙ st.cache.counted ∙ sym (ap length table);
        distinct = subst Distinct (sym table) st.cache.distinct;
        small = omega (arith, st.cache.small, ap length table);
      };
      within = omega (arith, st.within, size, ap length table);
      centers = rw table st.centers;
    }

pub Quiet-Stable : (s s' : State) → IsDaemon s → Quiet s s' → Stable s s'
Quiet-Stable s s' d q =
    Stable-Quiet s s s' (record { cache = d.cache; within = d.within; centers = refl }) q

pub Sound-Stable : (file : ℕ) (s s' : State) → IsDaemon s → Sound file s s' → Stable s s'
Sound-Stable file s s' d so =
    let size : s'.buf_size ≡ s.buf_size = ap (λ (x : State). x.buf_size) so.frame in
    record {
      cache = so.cache;
      within = omega (arith, so.within d.within, size);
      centers = ap (map unreferenced) so.centers;
    }
