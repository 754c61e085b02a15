-- ===== src/Caching/FileRep/Choose/Ends.antt =====
-- The choice of fragments in `process_flrep` of caching/src/cFileRep.c ends, and how.
use mathlib.Core.Path.{subst}
use native.Mathlib.Nat.{zero-add}
use mobile_cloud_caching.Prelude.{
  ℕ, zero, suc, ◌+◌, ◌-◌, ◌<◌, ◌≤◌, ◌≡◌, refl, ap, ◌⊎◌, inl, inr, ltb, ltb→lt, Bool, true, some,
  List, [], ◌∷◌, length, length-append, keep, keep-pass, keep-skip, All, Bool-cases, arith,
}
use mobile_cloud_caching.Caching.Types.{FileRepInfo}
use mobile_cloud_caching.Caching.FileRep.Replies.{is_reply}
use mobile_cloud_caching.Caching.FileRep.Choose.{
  Search, Chosen, complete, too_few, has, expire_nth, take_map, choose,
}
use mobile_cloud_caching.Caching.FileRep.Choose.Nearest.{
  At, UsedUp, Nearest, nearest-Nearest, standing, standing-expire_nth,
}
use mobile_cloud_caching.Caching.FileRep.Choose.Picks.{
  frags, Offers, Picked, Covers, Covers-mono, Grows, take_map-Took,
}

-- Every reply that stands for the file has as many words as it counts.
abbrev pub Readable : ℕ → List FileRepInfo → Type 0
Readable file = All (λ r. is_reply file r ≡ true → r.frag_count ≤ length r.map)

-- All that the replies for the file list is held or picked.
abbrev pub AllCovered : ℕ → List ℕ → List FileRepInfo → Type 0
AllCovered file buf = All (λ r. is_reply file r ≡ true → Covers buf r.frag_count r.map)

-- An entry as it was at the start, and now: it is as it was, or it was gone through.
record Kept (buf : List ℕ) (r₀ r : FileRepInfo) : Type 0 where
  file_id : r.file_id ≡ r₀.file_id
  dst_ip : r.dst_ip ≡ r₀.dst_ip
  map : r.map ≡ r₀.map
  count : r.frag_count ≡ r₀.frag_count
  state : (r ≡ r₀) ⊎ Covers buf r₀.frag_count r₀.map

abbrev Progress : List ℕ → List FileRepInfo → List FileRepInfo → Type 0
Progress buf [] [] = Unit {0}
Progress buf [] (r ∷ rs) = ⊥
Progress buf (r₀ ∷ rs₀) [] = ⊥
Progress buf (r₀ ∷ rs₀) (r ∷ rs) = Kept buf r₀ r × Progress buf rs₀ rs

Progress-start : (buf : List ℕ) (rs : List FileRepInfo) → Progress buf rs rs
Progress-start buf [] = tt
Progress-start buf (r ∷ rs) = (
  record { file_id = refl; dst_ip = refl; map = refl; count = refl; state = inl refl },
  Progress-start buf rs,
)

Kept-mono :
    (buf buf' : List ℕ) (r₀ r : FileRepInfo) → Grows buf buf' → Kept buf r₀ r → Kept buf' r₀ r
Kept-mono buf buf' r₀ r g k = record {
  file_id = k.file_id;
  dst_ip = k.dst_ip;
  map = k.map;
  count = k.count;
  state = elim (k.state) [
    | inl same ↦ inl same
    | inr covers ↦ inr (Covers-mono buf buf' r₀.frag_count r₀.map g covers)
  ];
}

Progress-mono :
    (buf buf' : List ℕ) (rs₀ rs : List FileRepInfo)
    → Grows buf buf'
    → Progress buf rs₀ rs
    → Progress buf' rs₀ rs
Progress-mono buf buf' [] [] g p = tt
Progress-mono buf buf' [] (r ∷ rs) g p = p
Progress-mono buf buf' (r₀ ∷ rs₀) [] g p = p
Progress-mono buf buf' (r₀ ∷ rs₀) (r ∷ rs) g p =
    (Kept-mono buf buf' r₀ r g p.0, Progress-mono buf buf' rs₀ rs g p.1)

-- A reply that was gone through expires.
Progress-expire_nth :
    (buf : List ℕ) (n : ℕ) (m : FileRepInfo) (rs₀ rs : List FileRepInfo)
    → At n m rs
    → Covers buf m.frag_count m.map
    → Progress buf rs₀ rs
    → Progress buf rs₀ (expire_nth n rs)
unfolding expire_nth
Progress-expire_nth buf n m [] [] at c p = p
Progress-expire_nth buf n m [] (r ∷ rs) at c p = absurd p
Progress-expire_nth buf n m (r₀ ∷ rs₀) [] at c p = p
Progress-expire_nth buf zero m (r₀ ∷ rs₀) (r ∷ rs) at c p = (
  record {
    file_id = p.0.file_id;
    dst_ip = p.0.dst_ip;
    map = p.0.map;
    count = p.0.count;
    state = inr (rw (← p.0.count, ← p.0.map, at) c);
  },
  p.1,
)
Progress-expire_nth buf (suc n) m (r₀ ∷ rs₀) (r ∷ rs) at c p =
    (p.0, Progress-expire_nth buf n m rs₀ rs at c p.1)

-- What an entry lists was on offer at the start.
offered-At :
    (file : ℕ) (buf : List ℕ) (n x : ℕ) (m : FileRepInfo) (rs₀ rs : List FileRepInfo)
    → Progress buf rs₀ rs
    → At n m rs
    → is_reply file m ≡ true
    → has x m.map ≡ true
    → Offers file m.dst_ip x rs₀
offered-At file buf n x m [] [] p at stands h = absurd at
offered-At file buf n x m [] (r ∷ rs) p at stands h = absurd p
offered-At file buf n x m (r₀ ∷ rs₀) [] p at stands h = absurd p
offered-At file buf zero x m (r₀ ∷ rs₀) (r ∷ rs) p at stands h =
    inl (ground (arith, at, p.0.file_id), ground (arith, at, p.0.dst_ip), rw (← p.0.map, at) h)
offered-At file buf (suc n) x m (r₀ ∷ rs₀) (r ∷ rs) p at stands h =
    inr (offered-At file buf n x m rs₀ rs p.1 at stands h)

-- If none stands now, those that stood were gone through.
covered_all :
    (file : ℕ) (buf : List ℕ) (rs₀ rs : List FileRepInfo)
    → Progress buf rs₀ rs
    → UsedUp file rs
    → AllCovered file buf rs₀
covered_all file buf [] rs p used = tt
covered_all file buf (r₀ ∷ rs₀) [] p used = absurd p
covered_all file buf (r₀ ∷ rs₀) (r ∷ rs) p used = (
  λ stands. elim (p.0.state) [ inl same ↦ absurd (ground arith) | inr covers ↦ covers ],
  covered_all file buf rs₀ rs p.1 used.1,
)

Readable-expire_nth :
    (file n : ℕ) (rs : List FileRepInfo) → Readable file rs → Readable file (expire_nth n rs)
unfolding expire_nth
Readable-expire_nth file n [] r = tt
Readable-expire_nth file zero (x ∷ rs) r = (λ stands. cc, r.1)
Readable-expire_nth file (suc n) (x ∷ rs) r = (r.0, Readable-expire_nth file n rs r.1)

Readable-At :
    (file n : ℕ) (m : FileRepInfo) (rs : List FileRepInfo)
    → Readable file rs
    → At n m rs
    → is_reply file m ≡ true
    → m.frag_count ≤ length m.map
Readable-At file n m [] r at stands = absurd at
Readable-At file zero m (x ∷ rs) r at stands =
    subst (λ y. is_reply file y ≡ true → y.frag_count ≤ length y.map) at r.0 stands
Readable-At file (suc n) m (x ∷ rs) r at stands = Readable-At file n m rs r.1 at stands

All-map : {P Q : ℕ → Type 0} (xs : List ℕ) → ((x : ℕ) → P x → Q x) → All P xs → All Q xs
All-map [] f all = tt
All-map (x ∷ xs) f all = (f x all.0, All-map xs f all.1)

All-has : (xs : List ℕ) → All (λ x. has x xs ≡ true) xs
unfolding has
All-has [] = tt
All-has (x ∷ xs) = (ground arith, All-map xs (λ y h. ground arith) (All-has xs))

-- How the choice ends: with as many fragments as were missing, none of them held or picked twice,
-- each of them on offer; or with too few, when all that the replies list is held or picked.
pub data Outcome (file kval : ℕ) (held : List ℕ) (rs₀ : List FileRepInfo) : Chosen → Type 0 where
  enough :
      (t : Search) (rs : List FileRepInfo)
      → Picked file kval held rs₀ t
      → t.need ≡ 0
      → Outcome file kval held rs₀ (complete t rs)
  short :
      (t : Search) (rs : List FileRepInfo)
      → Picked file kval held rs₀ t
      → 0 < t.need
      → AllCovered file t.buf rs₀
      → UsedUp file rs
      → Outcome file kval held rs₀ (too_few rs)

module _ (file kval : ℕ) (held : List ℕ) (rs₀ : List FileRepInfo) where
  abbrev Result : ℕ → Search → List FileRepInfo → Type 0
  Result fuel t rs =
      (c : Chosen) × (choose fuel kval file t rs ≡ some c) × Outcome file kval held rs₀ c

  choose_done :
      (fuel : ℕ) (t : Search) (rs : List FileRepInfo)
      → 0 < fuel
      → Picked file kval held rs₀ t
      → t.need ≡ 0
      → Result fuel t rs
  unfolding choose
  choose_done zero t rs some_fuel p done = absurd (omega arith)
  choose_done (suc fuel) t rs some_fuel p done =
      (complete t rs, rw done, Outcome.enough t rs p done)

  -- One round with a reply found.
  choose_round :
      (fuel n : ℕ) (m : FileRepInfo) (t : Search) (rs : List FileRepInfo)
      → standing file rs < suc fuel
      → Picked file kval held rs₀ t
      → Progress t.buf rs₀ rs
      → Readable file rs
      → At n m rs
      → is_reply file m ≡ true
      → ((t' : Search) (rs' : List FileRepInfo)
          → standing file rs' < fuel
          → Picked file kval held rs₀ t'
          → Progress t'.buf rs₀ rs'
          → Readable file rs'
          → Result fuel t' rs')
      → (t' : Search) × (take_map kval m.dst_ip m.dist m.frag_count m.map t ≡ some t')
        × Result fuel t' (expire_nth n rs)
  choose_round fuel n m t rs bound p prog read at stands rec =
      let all =
        All-map m.map (λ x h. offered-At file t.buf n x m rs₀ rs prog at stands h)
          (All-has m.map) in
      let (t', ran, took) =
        take_map-Took file kval held rs₀ m.dst_ip m.dist m.frag_count m.map t
          (Readable-At file n m rs read at stands) p all in
      let fewer = standing-expire_nth file n m rs at stands in
      (
        t',
        ran,
        elim (took.ended) [
          | inl done ↦ choose_done fuel t' _ (omega (arith, fewer)) took.picked done
          | inr covers ↦
              rec t' (expire_nth n rs) (omega (arith, fewer)) took.picked
                (Progress-expire_nth t'.buf n m rs₀ rs at covers
                  (Progress-mono t.buf t'.buf rs₀ rs took.grows prog))
                (Readable-expire_nth file n rs read)
        ],
      )

  choose-Outcome :
      (fuel : ℕ) (t : Search) (rs : List FileRepInfo)
      → standing file rs < fuel
      → Picked file kval held rs₀ t
      → Progress t.buf rs₀ rs
      → Readable file rs
      → Result fuel t rs
  unfolding choose
  choose-Outcome zero t rs bound p prog read = absurd (omega arith)
  choose-Outcome (suc fuel) t rs bound p prog read = elim (Bool-cases (ltb 0 t.need)) [
    | inr done ↦ (complete t rs, rw done, Outcome.enough t rs p (ground arith))
    | inl more ↦ elim (nearest-Nearest file 0 rs) [
      | Nearest.missing e used ↦ (
        too_few rs,
        rw (more, e),
        Outcome.short t rs p (ltb→lt _ _ more) (covered_all file t.buf rs₀ rs prog used) used,
      )
      | Nearest.found n m e at stands none_nearer ↦
          let (t', ran, r) =
            choose_round fuel n m t rs bound p prog read at stands (choose-Outcome fuel) in
          (r.0, rw (more, e, ran, zero-add) r.1, r.2)
    ]
  ]

length-frags : (picks : List (ℕ × ℕ)) → length (frags picks) ≡ length picks
length-frags [] = refl
length-frags ((dst, x) ∷ picks) = ap suc (length-frags picks)

-- The search as `process_flrep` starts it.
abbrev pub start : ℕ → List ℕ → Search
start kval held = record {
  buf = held;
  count = length held;
  need = kval - length held;
  picks = [];
  energy = 0;
}

length-keep : {A : Type 0} (test : A → Bool) (xs : List A) → length (keep test xs) ≤ length xs
length-keep test [] = omega arith
length-keep test (x ∷ xs) = elim (Bool-cases (test x)) [
  | inl hit ↦ rw (keep-pass test x xs hit) (omega (arith, length-keep test xs))
  | inr miss ↦ rw (keep-skip test x xs miss) (omega (arith, length-keep test xs))
]

-- If no more than KVAL fragments are held, and no reply for the file counts more fragments than its
-- map lists, then the choice of fragments in `process_flrep` ends within one round for each reply
-- and one more. Either as many fragments are picked as were missing, each new, not held, and listed
-- in the map of a reply for the file from the address it is to be asked of; or all the replies for
-- the file are used up, what they list is all held or picked, and fragments are still missing.
pub choose-Ends :
    (file kval : ℕ) (held : List ℕ) (rs : List FileRepInfo)
    → length held ≤ kval
    → Readable file rs
    → (c : Chosen) × (choose (length rs + 1) kval file (start kval held) rs ≡ some c)
      × Outcome file kval held rs c
choose-Ends file kval held rs room read =
    choose-Outcome file kval held rs (length rs + 1) (start kval held) rs
      (omega (arith, length-keep (is_reply file) rs))
      (record { buffer = refl; counted = refl; missing = omega arith; fresh = tt; offered = tt })
      (Progress-start held rs) read

-- With enough fragments, the picks are as many as were missing.
pub Picked-length :
    {file kval : ℕ} {held : List ℕ} {rs : List FileRepInfo} {t : Search}
    → Picked file kval held rs t
    → t.need ≡ 0
    → length t.picks + length held ≡ kval
Picked-length {held = held} {t = t} p done = omega (
  arith,
  p.counted,
  p.missing,
  ap length p.buffer,
  length-append (frags t.picks) held,
  length-frags t.picks,
)
