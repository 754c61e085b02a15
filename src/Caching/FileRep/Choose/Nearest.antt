-- ===== src/Caching/FileRep/Choose/Nearest.antt =====
-- The reply that a round of `process_flrep` of caching/src/cFileRep.c uses up.
use mobile_cloud_caching.Prelude.{
  ℕ, zero, suc, ◌+◌, ◌≤◌, ◌≡◌, refl, sym, ◌⊎◌, inl, inr, ltb, ◌&&◌, true, false, Option, none, some,
  List, [], ◌∷◌, length, keep, keep-pass, keep-skip, All, Bool-cases, arith,
}
use mobile_cloud_caching.Caching.Types.{FileRepInfo}
use mobile_cloud_caching.Caching.FileRep.Replies.{is_reply}
use mobile_cloud_caching.Caching.FileRep.Choose.{closer, nearest, expire_nth}

-- The entry at a place of the table.
abbrev pub At : ℕ → FileRepInfo → List FileRepInfo → Type 0
At n m [] = ⊥
At zero m (r ∷ rs) = r ≡ m
At (suc n) m (r ∷ rs) = At n m rs

-- No reply for the file is nearer than a distance.
abbrev pub NoNearer : ℕ → ℕ → List FileRepInfo → Type 0
NoNearer file dist = All (λ r. is_reply file r ≡ true → dist ≤ r.dist)

-- No reply stands for the file.
abbrev pub UsedUp : ℕ → List FileRepInfo → Type 0
UsedUp file = All (λ r. is_reply file r ≡ false)

-- The result of the walk from a place on, when an entry was found before.
record Better (file pos p : ℕ) (m : FileRepInfo) (rs : List FileRepInfo)
    (o : Option (ℕ × FileRepInfo)) : Type 0 where
  place : ℕ
  entry : FileRepInfo
  found : o ≡ some (place, entry)
  le : entry.dist ≤ m.dist
  none_nearer : NoNearer file entry.dist rs
  origin :
      ((place ≡ p) × (entry ≡ m))
      ⊎ ((n : ℕ) × (place ≡ pos + n) × At n entry rs × (is_reply file entry ≡ true))

nearest-Better :
    (file pos p : ℕ) (m : FileRepInfo) (rs : List FileRepInfo)
    → Better file pos p m rs (nearest file pos (some (p, m)) rs)
unfolding nearest
nearest-Better file pos p m [] = record {
  place = p;
  entry = m;
  found = refl;
  le = omega arith;
  none_nearer = tt;
  origin = inl (refl, refl);
}
nearest-Better file pos p m (r ∷ rs) = elim (Bool-cases (is_reply file r && ltb r.dist m.dist)) [
  | inl nearer ↦
      let b = nearest-Better file (pos + 1) pos r rs in
      rw nearer (record {
        place = b.place;
        entry = b.entry;
        found = b.found;
        le = ground (arith, b.le);
        none_nearer = (λ _. b.le, b.none_nearer);
        origin = inr (elim (b.origin) [
          | inl (e, same) ↦ (0, omega arith, sym same, rw same (ground arith))
          | inr (n, e, at, stands) ↦ (suc n, omega arith, at, stands)
        ]);
      })
  | inr no_nearer ↦
      let b = nearest-Better file (pos + 1) p m rs in
      rw no_nearer (record {
        place = b.place;
        entry = b.entry;
        found = b.found;
        le = b.le;
        none_nearer = (λ stands. ground (arith, b.le), b.none_nearer);
        origin = elim (b.origin) [
          | inl o ↦ inl o
          | inr (n, e, at, stands) ↦ inr (suc n, omega arith, at, stands)
        ];
      })
]

-- The nearest reply for the file, if there is one.
pub data Nearest (file pos : ℕ) (rs : List FileRepInfo) (o : Option (ℕ × FileRepInfo))
    : Type 0 where
  missing : o ≡ none → UsedUp file rs → Nearest file pos rs o
  found :
      (n : ℕ) (m : FileRepInfo)
      → o ≡ some (pos + n, m)
      → At n m rs
      → is_reply file m ≡ true
      → NoNearer file m.dist rs
      → Nearest file pos rs o

pub nearest-Nearest :
    (file pos : ℕ) (rs : List FileRepInfo) → Nearest file pos rs (nearest file pos none rs)
unfolding nearest closer
nearest-Nearest file pos [] = Nearest.missing refl tt
nearest-Nearest file pos (r ∷ rs) = elim (Bool-cases (is_reply file r)) [
  | inl stands ↦ rw stands (first (nearest-Better file (pos + 1) pos r rs) stands)
  | inr other ↦ rw other (later (nearest-Nearest file (pos + 1) rs) other)
]
  where
    first :
        {o : Option (ℕ × FileRepInfo)}
        → Better file (pos + 1) pos r rs o
        → is_reply file r ≡ true
        → Nearest file pos (r ∷ rs) o
    first b stands = elim (b.origin) [
      | inl (e, same) ↦
          Nearest.found 0 b.entry (ground (arith, b.found)) (sym same) (rw same stands)
            (λ _. b.le, b.none_nearer)
      | inr (n, e, at, reply) ↦
          Nearest.found (suc n) b.entry (ground (arith, b.found)) at reply
            (λ _. b.le, b.none_nearer)
    ]

    later :
        {o : Option (ℕ × FileRepInfo)}
        → Nearest file (pos + 1) rs o
        → is_reply file r ≡ false
        → Nearest file pos (r ∷ rs) o
    later (Nearest.missing e used) other = Nearest.missing e (other, used)
    later (Nearest.found n m e at reply none_nearer) other =
        Nearest.found (suc n) m (ground arith) at reply
          (λ stands. absurd (ground arith), none_nearer)

-- How many replies stand for the file.
abbrev pub standing : ℕ → List FileRepInfo → ℕ
standing file rs = length (keep (is_reply file) rs)

-- A reply that is used up stands no more.
pub standing-expire_nth :
    (file n : ℕ) (m : FileRepInfo) (rs : List FileRepInfo)
    → At n m rs
    → is_reply file m ≡ true
    → standing file rs ≡ standing file (expire_nth n rs) + 1
unfolding expire_nth
standing-expire_nth file n m [] at stands = absurd at
standing-expire_nth file zero m (r ∷ rs) at stands =
    rw (keep-pass (is_reply file) r rs (rw at stands)) (omega arith)
standing-expire_nth file (suc n) m (r ∷ rs) at stands = elim (Bool-cases (is_reply file r)) [
  | inl reply ↦
      rw (keep-pass (is_reply file) r rs reply, keep-pass (is_reply file) r (expire_nth n rs) reply)
        (omega (arith, standing-expire_nth file n m rs at stands))
  | inr other ↦
      rw (keep-skip (is_reply file) r rs other, keep-skip (is_reply file) r (expire_nth n rs) other)
        (standing-expire_nth file n m rs at stands)
]
