-- ===== src/Caching/Exchange/Keep.antt =====
-- `retrieve_frag` of caching/src/cExchange.c: when a copy is kept, and where it is put.
use mobile_cloud_caching.Prelude.{
  [], refl, true, false, ◌∙◌, Bool-cases, ap, ℕ, ◌+◌, ◌-◌, ◌<◌, ◌≤◌, ◌≡◌, leb, ◌⊎◌, inl, inr,
  Option, none, some, List, ◌∷◌, length, All, Option-cases, arith,
}
use mobile_cloud_caching.Prelude.Words.{dec32, inc32, ge_int}
use mobile_cloud_caching.Types.{Ptr}
use mobile_cloud_caching.Caching.Types.{CacheTable}
use mobile_cloud_caching.Caching.State.{State, Ret, ret}
use mobile_cloud_caching.Caching.Table.{create_cache, remove_cache, unlink}
use mobile_cloud_caching.Caching.Table.Entries.{length-without, IsCache}
use mobile_cloud_caching.Caching.Exchange.{
  make_room, least_used, count_to, skip_centers, retrieve_frag, count_fragments,
}
use mobile_cloud_caching.Caching.Exchange.Victim.{evicts, skip_centers-none, enough_iff, Evicts}

-- The table with a fragment's new entry in front, if there was memory for it.
abbrev pub added : Option Ptr → ℕ → ℕ → List CacheTable → List CacheTable
added none file frag cs = cs
added (some addr) file frag cs =
    record { addr = addr; file_id = file; frag_id = frag; refs = 0; is_service_center = 0 } ∷ cs

-- The entries that stay: all of them below the limit, and all but one at it.
abbrev pub Room : State → List CacheTable → Type 0
Room s kept =
    ((kept ≡ s.ctable) × (length s.ctable < s.buf_size))
    ⊎ (Evicts s.ctable kept × (s.buf_size ≤ length s.ctable))

-- The state after a fragment is kept.
abbrev pub stored : ℕ → ℕ → List CacheTable → State → State
stored file frag kept s =
    let table = added (s.memory s.allocations) file frag kept in
    record s {
      c_prefetch = inc32 s.c_prefetch;
      allocations = s.allocations + 1;
      ctable = table;
      ct_len = length table;
    }

-- The ways out of `retrieve_frag`.
pub data Retrieval (file frag : ℕ) (s s' : State) : Ret → Type 0 where
  enough : s.kval - 1 ≤ count_fragments file s.ctable → s' ≡ s → Retrieval file frag s s' (ret 1)
  all_centers :
      count_fragments file s.ctable < s.kval - 1
      → s.buf_size ≤ length s.ctable
      → All (λ c. c.is_service_center ≡ 1) s.ctable
      → s' ≡ record s { c_prefetch = inc32 s.c_prefetch }
      → Retrieval file frag s s' (ret 1)
  keeps :
      (kept : List CacheTable)
      → count_fragments file s.ctable < s.kval - 1
      → Room s kept
      → s' ≡ stored file frag kept s
      → Retrieval file frag s s' (ret 0)

abbrev added_len : Option Ptr → ℕ → ℕ
added_len none n = n
added_len (some addr) n = inc32 n

abbrev created : ℕ → ℕ → State → State
created file frag s = record s {
  allocations = s.allocations + 1;
  ctable = added (s.memory s.allocations) file frag s.ctable;
  ct_len = added_len (s.memory s.allocations) s.ct_len;
}

create_cache_lem :
    (file frag : ℕ) (s : State)
    → (o : Option CacheTable) × (create_cache file frag 0 s ≡ some (o, created file frag s))
unfolding create_cache
create_cache_lem file frag s = elim (Option-cases (s.memory s.allocations)) [
  | inl e ↦ (none, rw e)
  | inr (addr, e) ↦ (
    some (record { addr = addr; file_id = file; frag_id = frag; refs = 0; is_service_center = 0 }),
    rw e,
  )
]

added_len-length :
    (block : Option Ptr) (file frag n : ℕ) (cs : List CacheTable)
    → n ≡ length cs
    → n < 2_147_483_648
    → added_len block n ≡ length (added block file frag cs)
added_len-length none file frag n cs e small = e
added_len-length (some addr) file frag n cs e small = omega (arith, small)

full_iff :
    (s : State)
    → IsCache s
    → s.buf_size < 2_147_483_648
    → ge_int s.ct_len s.buf_size ≡ leb s.buf_size (length s.ctable)
full_iff s v small = ground (arith, v.counted, v.small)

-- The count that the code keeps, when a fragment goes into a table whose count was right.
created-stored :
    (file frag n : ℕ) (kept : List CacheTable) (s : State)
    → n ≡ length kept
    → n < 2_147_483_648
    → created file frag (record s { c_prefetch = inc32 s.c_prefetch; ctable = kept; ct_len = n })
      ≡ stored file frag kept s
created-stored file frag n kept s e small =
    ap (λ (l : ℕ). record (stored file frag kept s) { ct_len = l })
      (added_len-length (s.memory s.allocations) file frag n kept e small)

Evicts-length :
    {old kept : List CacheTable} (n : ℕ)
    → Evicts old kept
    → n ≡ length old
    → n < 2_147_483_648
    → (dec32 n ≡ length kept) × (dec32 n < 2_147_483_648)
Evicts-length n v e small =
    let whole = ap length v.split in
    let less = ap length v.kept_list in
    let one = length-without v.victim v.after v.before in
    (omega (arith, whole, less, one), omega arith)

abbrev Runs : ℕ → ℕ → ℕ → State → Type 0
Runs dst_ip file frag s =
    (r : Ret) × (s' : State) × (retrieve_frag dst_ip file frag s ≡ some (r, s'))
    × Retrieval file frag s s' r

-- With too few fragments of the file and a full table.
retrieve_full :
    (dst_ip file frag : ℕ) (s : State) (cs : List CacheTable)
    → IsCache s
    → leb (s.kval - 1) (count_to s.kval file 0 s.ctable) ≡ false
    → count_fragments file s.ctable < s.kval - 1
    → ge_int s.ct_len s.buf_size ≡ true
    → s.buf_size ≤ length s.ctable
    → skip_centers s.ctable ≡ cs
    → Runs dst_ip file frag s
unfolding retrieve_frag make_room remove_cache
retrieve_full dst_ip file frag s [] v few less full at_limit e = (
  ret 1,
  record s { c_prefetch = inc32 s.c_prefetch },
  rw (few, full, e),
  Retrieval.all_centers less at_limit (skip_centers-none s.ctable e) refl,
)
retrieve_full dst_ip file frag s (c ∷ cs) v few less full at_limit e =
    let out = evicts s.ctable c cs e v.distinct in
    let kept = unlink (least_used c cs).addr s.ctable in
    let short = Evicts-length s.ct_len out v.counted (omega (arith, v.counted, v.small)) in
    let made =
      create_cache_lem file frag
        (record s { c_prefetch = inc32 s.c_prefetch; ctable = kept; ct_len = dec32 s.ct_len }) in
    (
      ret 0,
      created file frag
          (record s { c_prefetch = inc32 s.c_prefetch; ctable = kept; ct_len = dec32 s.ct_len }),
      rw (few, full, e, made.1, make_room),
      Retrieval.keeps kept less (inr (out, at_limit))
          (created-stored file frag (dec32 s.ct_len) kept s short.0 short.1),
    )

-- On a well-formed cache table `retrieve_frag` meets no oops. With KVAL - 1 or more fragments of
-- the file it returns 1 and changes nothing; with fewer, on a full table of service centres only,
-- it returns 1 and counts a prefetch; and else it returns 0, counts a prefetch and adds a new entry
-- for the fragment, if there is memory, to the whole table, or, if that is full, to the table
-- without one entry that is no service centre and whose references are no more than those of any
-- other that is none.
pub retrieve_frag-Retrieval :
    (dst_ip file frag : ℕ) (s : State)
    → IsCache s
    → s.buf_size < 2_147_483_648
    → (r : Ret) × (s' : State) × (retrieve_frag dst_ip file frag s ≡ some (r, s'))
      × Retrieval file frag s s' r
unfolding retrieve_frag
retrieve_frag-Retrieval dst_ip file frag s v small =
    let same = enough_iff s.kval file s.ctable in
    let limit = full_iff s v small in
    elim (Bool-cases (leb (s.kval - 1) (count_fragments file s.ctable))) [
      | inl many ↦ (ret 1, s, rw (same, many), Retrieval.enough (ground arith) refl)
      | inr few ↦ elim (Bool-cases (leb s.buf_size (length s.ctable))) [
        | inl full ↦
            retrieve_full dst_ip file frag s (skip_centers s.ctable) v (same ∙ few) (ground arith)
              (limit ∙ full) (ground arith) refl
        | inr room ↦
            let made = create_cache_lem file frag (record s { c_prefetch = inc32 s.c_prefetch }) in
            (
              ret 0,
              created file frag (record s { c_prefetch = inc32 s.c_prefetch }),
              rw (same, few, limit, room, made.1),
              Retrieval.keeps s.ctable (ground arith) (inl (refl, ground arith)) (
                  created-stored file frag s.ct_len s.ctable s v.counted
                    (omega (arith, v.counted, v.small))),
            )
      ]
    ]
