-- ===== src/Caching/Exchange/Sound.antt =====
-- What `retrieve_frag` of caching/src/cExchange.c keeps true of the cache table.
use mathlib.Core.Path.{subst}
use mobile_cloud_caching.Prelude.{
  ◌≢◌, ℕ, ◌-◌, ◌<◌, ◌≤◌, ◌≡◌, refl, sym, ap, ◌∙◌, inl, inr, Option, none, some, List, [], ◌∷◌, ◌++◌,
  length, keep, arith,
}
use mobile_cloud_caching.Types.{Ptr}
use mobile_cloud_caching.Caching.Types.{CacheTable}
use mobile_cloud_caching.Caching.State.{State, Ret}
use mobile_cloud_caching.Caching.Table.Entries.{
  Apart, Distinct, is_center, IsCache, length-without, keep-without, Distinct-without, All-without,
}
use mobile_cloud_caching.Caching.Exchange.{count_fragments, retrieve_frag}
use mobile_cloud_caching.Caching.Exchange.Keep.{Room, stored, Retrieval, retrieve_frag-Retrieval}

-- What holds of the entries that stay.
record Stays (file : ℕ) (s : State) (kept : List CacheTable) : Type 0 where
  distinct : Distinct kept
  apart : (a : Ptr) → Apart a s.ctable → Apart a kept
  below : length s.ctable ≤ s.buf_size → length kept < s.buf_size
  small : length kept < 2_147_483_647
  centers : keep is_center kept ≡ keep is_center s.ctable
  fewer : count_fragments file kept ≤ count_fragments file s.ctable

count_fragments-without :
    (file : ℕ) (c : CacheTable) (before after : List CacheTable)
    → count_fragments file (before ++ after) ≤ count_fragments file (before ++ c ∷ after)
unfolding count_fragments
count_fragments-without file c [] after = ground arith
count_fragments-without file c (b ∷ bs) after =
    ground (arith, count_fragments-without file c bs after)

Room-Stays :
    (file : ℕ) (s : State) (kept : List CacheTable)
    → IsCache s
    → s.buf_size < 2_147_483_648
    → Room s kept
    → Stays file s kept
Room-Stays file s kept v small (inl (same, room)) = record {
  distinct = subst Distinct (sym same) v.distinct;
  apart = λ a apart. subst (Apart a) (sym same) apart;
  below = λ _. omega (arith, ap length same);
  small = omega (arith, ap length same);
  centers = ap (keep is_center) same;
  fewer = rw same (omega arith);
}
Room-Stays file s kept v small (inr (out, full)) =
    let before = out.before in
    let victim = out.victim in
    let after = out.after in
    let one = length-without victim after before in
    record {
      distinct =
          subst Distinct (sym out.kept_list)
            (Distinct-without victim after before (subst Distinct out.split v.distinct));
      apart = λ a apart.
          subst (Apart a) (sym out.kept_list)
            (All-without victim after (λ e. e.addr ≢ a) before (subst (Apart a) out.split apart));
      below = λ h. omega (arith, one, ap length out.split, ap length out.kept_list);
      small = omega (arith, v.small, one, ap length out.split, ap length out.kept_list);
      centers =
          ap (keep is_center) out.kept_list
          ∙ sym (keep-without victim after is_center before out.spares_centers)
          ∙ sym (ap (keep is_center) out.split);
      fewer = rw (out.kept_list, out.split) (count_fragments-without file victim before after);
    }

-- What `retrieve_frag` keeps true: the count is the length of the table and the addresses are
-- distinct; the service centres' entries are all there, in their order; a table within its size
-- stays within it; a file with fewer fragments than the limit gets no more than that; and nothing
-- else changes but the counts of prefetches and allocations.
pub record Sound (file : ℕ) (s s' : State) : Type 0 where
  pub frame : s' ≡ record s {
    ctable = s'.ctable;
    ct_len = s'.ct_len;
    c_prefetch = s'.c_prefetch;
    allocations = s'.allocations;
  }
  pub cache : IsCache s'
  pub centers : keep is_center s'.ctable ≡ keep is_center s.ctable
  pub within : length s.ctable ≤ s.buf_size → length s'.ctable ≤ s.buf_size
  pub share :
      count_fragments file s.ctable ≤ s.kval - 1 → count_fragments file s'.ctable ≤ s.kval - 1

pub IsCache-same :
    (s s' : State) → s'.ctable ≡ s.ctable → s'.ct_len ≡ s.ct_len → IsCache s → IsCache s'
IsCache-same s s' table len v = record {
  counted = len ∙ v.counted ∙ sym (ap length table);
  distinct = subst Distinct (sym table) v.distinct;
  small = omega (arith, v.small, ap length table);
}

same-Sound : (file n : ℕ) (s : State) → IsCache s → Sound file s (record s { c_prefetch = n })
same-Sound file n s v = record {
  frame = refl;
  cache = IsCache-same s _ refl refl v;
  centers = refl;
  within = λ h. h;
  share = λ h. h;
}

-- The table with the new entry, whether there was memory for it or not.
stored-Sound :
    (file frag : ℕ) (kept : List CacheTable) (s : State) (block : Option Ptr)
    → Stays file s kept
    → count_fragments file s.ctable < s.kval - 1
    → ((a : Ptr) → block ≡ some a → Apart a s.ctable)
    → s.memory s.allocations ≡ block
    → Sound file s (stored file frag kept s)
unfolding count_fragments
stored-Sound file frag kept s none st few fresh e = record {
  frame = refl;
  cache = record {
    counted = refl;
    distinct = rw e st.distinct;
    small = rw e (omega (arith, st.small));
  };
  centers = rw e st.centers;
  within = λ h. rw e (omega (arith, st.below h));
  share = λ h. rw e (omega (arith, st.fewer));
}
stored-Sound file frag kept s (some a) st few fresh e = record {
  frame = refl;
  cache = record {
    counted = refl;
    distinct = rw e (st.apart a (fresh a refl), st.distinct);
    small = rw e (omega (arith, st.small));
  };
  centers = rw e st.centers;
  within = λ h. rw e (omega (arith, st.below h));
  share = λ h. rw e (ground (arith, st.fewer));
}

-- On a well-formed cache table whose next block is not one of its own, `retrieve_frag` meets no
-- oops, changes only the table, its count, the prefetch counter and the allocations, and keeps the
-- count and the addresses right, every service centre's entry, the limit on the table's size and
-- the limit on the file's fragments.
pub retrieve_frag-Sound :
    (dst_ip file frag : ℕ) (s : State)
    → IsCache s
    → s.buf_size < 2_147_483_648
    → ((a : Ptr) → s.memory s.allocations ≡ some a → Apart a s.ctable)
    → (r : Ret) × (s' : State) × (retrieve_frag dst_ip file frag s ≡ some (r, s')) × Sound file s s'
retrieve_frag-Sound dst_ip file frag s v small fresh =
    let run = retrieve_frag-Retrieval dst_ip file frag s v small in
    (run.0, run.1, run.2, retrieved run.0 run.1 run.3)
  where
    retrieved : (r : Ret) (s' : State) → Retrieval file frag s s' r → Sound file s s'
    retrieved _ s' (Retrieval.enough many e) =
        subst (Sound file s) (sym e) (same-Sound file s.c_prefetch s v)
    retrieved _ s' (Retrieval.all_centers few full all e) =
        subst (Sound file s) (sym e) (same-Sound file _ s v)
    retrieved _ s' (Retrieval.keeps kept few room e) =
        subst (Sound file s) (sym e)
          (stored-Sound file frag kept s _ (Room-Stays file s kept v small room) few fresh refl)
