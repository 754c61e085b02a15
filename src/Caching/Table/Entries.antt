-- ===== src/Caching/Table/Entries.antt =====
-- The entries of the cache table of caching/src/cacheTable.c: their addresses, and what it is to
-- take one out.
use mobile_cloud_caching.Prelude.{
  suc, ◌<◌, ◌≡◌, ◌≢◌, refl, ap, ◌==◌, inl, inr, Bool, false, List, [], ◌∷◌, ◌++◌, length, All, keep,
  keep-pass, keep-skip, Bool-cases, arith,
}
use mobile_cloud_caching.Types.{Ptr}
use mobile_cloud_caching.Caching.Types.{CacheTable}
use mobile_cloud_caching.Caching.State.{State}
use mobile_cloud_caching.Caching.Table.{unlink}

-- No entry stands at the address, and no two entries at one address.
abbrev pub Apart : Ptr → List CacheTable → Type 0
Apart a = All (λ c. c.addr ≢ a)

abbrev pub Distinct : List CacheTable → Type 0
Distinct [] = Unit {0}
Distinct (c ∷ cs) = Apart c.addr cs × Distinct cs

abbrev pub is_center : CacheTable → Bool
is_center c = c.is_service_center == 1

-- The count that the code keeps is the length of the table, and no two entries share an address.
pub record IsCache (s : State) : Type 0 where
  pub counted : s.ct_len ≡ length s.ctable
  pub distinct : Distinct s.ctable
  pub small : length s.ctable < 2_147_483_648

module _ (c : CacheTable) (after : List CacheTable) where
  pub All-without :
      (P : CacheTable → Type 0) (before : List CacheTable)
      → All P (before ++ c ∷ after)
      → All P (before ++ after)
  All-without P [] all = all.1
  All-without P (b ∷ bs) all = (all.0, All-without P bs all.1)

  pub All-at :
      (P : CacheTable → Type 0) (before : List CacheTable) → All P (before ++ c ∷ after) → P c
  All-at P [] all = all.0
  All-at P (b ∷ bs) all = All-at P bs all.1

  pub Distinct-without :
      (before : List CacheTable) → Distinct (before ++ c ∷ after) → Distinct (before ++ after)
  Distinct-without [] d = d.1
  Distinct-without (b ∷ bs) d = (All-without (λ e. e.addr ≢ b.addr) bs d.0, Distinct-without bs d.1)

  -- With distinct addresses the entry at an address is the one that was meant.
  pub unlink-Distinct :
      (before : List CacheTable)
      → Distinct (before ++ c ∷ after)
      → unlink c.addr (before ++ c ∷ after) ≡ before ++ after
  unfolding unlink
  unlink-Distinct [] d = ground arith
  unlink-Distinct (b ∷ bs) d =
      let other = All-at (λ e. e.addr ≢ b.addr) bs d.0 in
      ground (arith, unlink-Distinct bs d.1, other)

  pub length-without :
      (before : List CacheTable) → length (before ++ c ∷ after) ≡ suc (length (before ++ after))
  length-without [] = refl
  length-without (b ∷ bs) = ap suc (length-without bs)

  pub keep-without :
      (test : CacheTable → Bool) (before : List CacheTable)
      → test c ≡ false
      → keep test (before ++ c ∷ after) ≡ keep test (before ++ after)
  keep-without test [] fails = keep-skip test c after fails
  keep-without test (b ∷ bs) fails = elim (Bool-cases (test b)) [
    | inl hit ↦
        rw (keep-pass test b (bs ++ c ∷ after) hit, keep-pass test b (bs ++ after) hit)
          (ap (◌∷◌ b) (keep-without test bs fails))
    | inr miss ↦
        rw (keep-skip test b (bs ++ c ∷ after) miss, keep-skip test b (bs ++ after) miss)
          (keep-without test bs fails)
  ]
