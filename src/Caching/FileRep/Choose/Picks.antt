-- ===== src/Caching/FileRep/Choose/Picks.antt =====
-- The fragments that `process_flrep` of caching/src/cFileRep.c picks from one reply.
use mobile_cloud_caching.Prelude.{
  ℕ, zero, suc, ◌+◌, ◌<◌, ◌≤◌, ◌≡◌, refl, ap, ◌⊎◌, inl, inr, ltb, ltb→lt, true, false, some, List,
  [], ◌∷◌, ◌++◌, length, All, Bool-cases, arith,
}
use mobile_cloud_caching.Caching.Types.{FileRepInfo}
use mobile_cloud_caching.Caching.FileRep.Choose.{Search, has, take_frag, take_map}

abbrev pub frags : List (ℕ × ℕ) → List ℕ
frags [] = []
frags ((dst, x) ∷ picks) = x ∷ frags picks

-- No fragment is picked that is held or was picked before.
abbrev pub Fresh : List ℕ → List (ℕ × ℕ) → Type 0
Fresh held [] = Unit {0}
Fresh held ((dst, x) ∷ picks) = (has x (frags picks ++ held) ≡ false) × Fresh held picks

-- Some reply for the file comes from the address and lists the fragment.
abbrev pub Offers : ℕ → ℕ → ℕ → List FileRepInfo → Type 0
Offers file dst x [] = ⊥
Offers file dst x (r ∷ rs) =
    ((r.file_id ≡ file) × (r.dst_ip ≡ dst) × (has x r.map ≡ true)) ⊎ Offers file dst x rs

abbrev pub AllOffered : ℕ → List FileRepInfo → List (ℕ × ℕ) → Type 0
AllOffered file rs [] = Unit {0}
AllOffered file rs ((dst, x) ∷ picks) = Offers file dst x rs × AllOffered file rs picks

-- The arrays and counters agree, and the picks are sound, for the fragments held at the start.
pub record Picked (file kval : ℕ) (held : List ℕ) (rs : List FileRepInfo) (t : Search)
    : Type 0 where
  pub buffer : t.buf ≡ frags t.picks ++ held
  pub counted : t.count ≡ length t.buf
  pub missing : t.count + t.need ≡ kval
  pub fresh : Fresh held t.picks
  pub offered : AllOffered file rs t.picks

-- The first words of a map are all held or picked.
abbrev pub Covers : List ℕ → ℕ → List ℕ → Type 0
Covers buf zero words = Unit {0}
Covers buf (suc n) [] = Unit {0}
Covers buf (suc n) (x ∷ words) = (has x buf ≡ true) × Covers buf n words

abbrev pub Grows : List ℕ → List ℕ → Type 0
Grows buf buf' = (x : ℕ) → has x buf ≡ true → has x buf' ≡ true

pub Covers-mono :
    (buf buf' : List ℕ) (n : ℕ) (words : List ℕ)
    → Grows buf buf'
    → Covers buf n words
    → Covers buf' n words
Covers-mono buf buf' zero words g c = tt
Covers-mono buf buf' (suc n) [] g c = tt
Covers-mono buf buf' (suc n) (x ∷ words) g c = (g x c.0, Covers-mono buf buf' n words g c.1)

module _ (file kval : ℕ) (held : List ℕ) (rs : List FileRepInfo) (dst dist : ℕ) where
  take_frag-Picked :
      (x : ℕ) (t : Search)
      → Picked file kval held rs t
      → t.count < kval
      → Offers file dst x rs
      → Picked file kval held rs (take_frag dst dist x t)
  unfolding take_frag
  take_frag-Picked x t p room o = elim (Bool-cases (has x t.buf)) [
    | inl old ↦ rw old p
    | inr new ↦ rw new (record {
      buffer = ap (◌∷◌ x) p.buffer;
      counted = omega (arith, p.counted);
      missing = omega (arith, p.missing);
      fresh = (rw p.buffer at new, p.fresh);
      offered = (o, p.offered);
    })
  ]

  take_frag-Grows : (x : ℕ) (t : Search) → Grows t.buf (take_frag dst dist x t).buf
  unfolding take_frag has
  take_frag-Grows x t y h = ground arith

  take_frag-has : (x : ℕ) (t : Search) → has x (take_frag dst dist x t).buf ≡ true
  unfolding take_frag has
  take_frag-has x t = ground arith

  -- Every word of a list is offered.
  abbrev pub AllWords : List ℕ → Type 0
  AllWords = All (λ x. Offers file dst x rs)

  -- What the inner loop does: the picks stay sound, nothing that was held or picked is lost, and
  -- either there are enough fragments or the whole reply was gone through.
  pub record Took (n : ℕ) (words : List ℕ) (t t' : Search) : Type 0 where
    pub picked : Picked file kval held rs t'
    pub grows : Grows t.buf t'.buf
    pub ended : (t'.need ≡ 0) ⊎ Covers t'.buf n words

  pub take_map-Took :
      (n : ℕ) (words : List ℕ) (t : Search)
      → n ≤ length words
      → Picked file kval held rs t
      → AllWords words
      → (t' : Search) × (take_map kval dst dist n words t ≡ some t') × Took n words t t'
  unfolding take_map
  take_map-Took zero words t short p o =
      (t, refl, record { picked = p; grows = λ x h. h; ended = inr tt })
  take_map-Took (suc n) [] t short p o = absurd (omega arith)
  take_map-Took (suc n) (x ∷ rest) t short p o = elim (Bool-cases (ltb t.count kval)) [
    | inr full ↦ (
      t,
      rw full,
      record { picked = p; grows = λ y h. h; ended = inl (ground (arith, p.missing)) },
    )
    | inl room ↦
        let t₁ = take_frag dst dist x t in
        let (t', ran, took) =
          take_map-Took n rest t₁ (omega arith) (take_frag-Picked x t p (ltb→lt _ _ room) o.0)
            o.1 in
        (
          t',
          rw room ran,
          record {
            picked = took.picked;
            grows = λ y h. took.grows y (take_frag-Grows x t y h);
            ended = elim (took.ended) [
              | inl done ↦ inl done
              | inr covers ↦ inr (took.grows x (take_frag-has x t), covers)
            ];
          },
        )
  ]
