-- ===== src/Caching/FileRep/Replies/Created.antt =====
-- The entry that `create_rinfo` of caching/src/cFileRep.c makes of a reply, and the replies that it
-- cannot copy.
use mathlib.Core.List.{map}
use mobile_cloud_caching.Prelude.{
  ℕ, zero, suc, ◌+◌, ◌<◌, ◌≤◌, ◌≡◌, ◌≢◌, refl, ◌⊎◌, inl, inr, leb, Option, none, some, List, [],
  ◌∷◌, length, Bool-cases, Option-cases, arith,
}
use mobile_cloud_caching.Kernel.{Kernel, ntohl}
use mobile_cloud_caching.Types.{Ptr}
use mobile_cloud_caching.Caching.Types.{FileRep, FileRepInfo}
use mobile_cloud_caching.Caching.State.{State, kmalloc}
use mobile_cloud_caching.Caching.FileRep.Replies.{rounds, copy_words, create_rinfo, insert_rinfo}

-- The first words of a message.
abbrev pub front : ℕ → List ℕ → List ℕ
front zero words = []
front (suc n) [] = []
front (suc n) (w ∷ words) = w ∷ front n words

module _ ⦃k : Kernel⦄ where
  abbrev pub entry_of : Ptr → FileRep → FileRepInfo
  entry_of addr m = record {
    addr = addr;
    file_id = ntohl m.file_id;
    dst_ip = ntohl m.src_ip;
    dist = ntohl m.dist;
    map = map (λ f. ntohl f) (front (rounds (ntohl m.frag_count)) m.frags);
    frag_count = ntohl m.frag_count;
    expired = 0;
  }

  -- What `create_rinfo` comes to.
  pub data Created (m : FileRep) (s : State) : Option (Option FileRepInfo × State) → Type 0 where
    no_memory :
        s.memory s.allocations ≡ none
        → Created m s (some (none, record s { allocations = s.allocations + 1 }))
    made :
        (addr : Ptr)
        → s.memory s.allocations ≡ some addr
        → rounds (ntohl m.frag_count) ≤ 8
        → rounds (ntohl m.frag_count) ≤ length m.frags
        → length (entry_of addr m).map ≡ rounds (ntohl m.frag_count)
        → Created m s (
            some (
              some (entry_of addr m),
              record s { allocations = s.allocations + 1; rinfo = entry_of addr m ∷ s.rinfo },
            ))
    overrun :
        s.memory s.allocations ≢ none
        → (8 < rounds (ntohl m.frag_count)) ⊎ (length m.frags < rounds (ntohl m.frag_count))
        → Created m s none

  copy_words-front :
      (n room : ℕ) (frags : List ℕ)
      → n ≤ room
      → n ≤ length frags
      → copy_words n room frags ≡ some (map (λ f. ntohl f) (front n frags))
  unfolding copy_words
  copy_words-front zero room frags h l = refl
  copy_words-front (suc n) zero frags h l = absurd (omega arith)
  copy_words-front (suc n) (suc room) [] h l = absurd (omega arith)
  copy_words-front (suc n) (suc room) (f ∷ fs) h l =
      rw (copy_words-front n room fs (omega arith) (omega arith)) refl

  copy_words-overrun :
      (n room : ℕ) (frags : List ℕ)
      → (room < n) ⊎ (length frags < n)
      → copy_words n room frags ≡ none
  unfolding copy_words
  copy_words-overrun zero room frags h = elim h [
    | inl l ↦ absurd (omega arith)
    | inr l ↦ absurd (omega arith)
  ]
  copy_words-overrun (suc n) zero frags h = refl
  copy_words-overrun (suc n) (suc room) [] h = refl
  copy_words-overrun (suc n) (suc room) (f ∷ fs) h =
      let rest : (room < n) ⊎ (length fs < n) = elim h [
        | inl l ↦ inl (omega arith)
        | inr l ↦ inr (omega arith)
      ] in
      rw (copy_words-overrun n room fs rest) refl

  length-front :
      (n : ℕ) (xs : List ℕ) → n ≤ length xs → length (map (λ f. ntohl f) (front n xs)) ≡ n
  length-front zero xs h = refl
  length-front (suc n) [] h = absurd (omega arith)
  length-front (suc n) (x ∷ xs) h = omega (arith, length-front n xs (omega arith))

  -- `create_rinfo` is an oops exactly if there is memory and the reply's count, as an `int` after
  -- `ntohl`, is above 8, the size of the map, or above the number of fragments in the message; with
  -- no memory it returns null; and else the new entry is in front of the table, with the count and
  -- as many fragments in its map.
  pub create_rinfo-Created : (m : FileRep) (s : State) → Created m s (create_rinfo m s)
  unfolding create_rinfo kmalloc insert_rinfo
  create_rinfo-Created m s =
      let n = rounds (ntohl m.frag_count) in
      elim (Option-cases (s.memory s.allocations)) [
        | inl missing ↦ rw missing (Created.no_memory missing)
        | inr (addr, here) ↦ elim (Bool-cases (leb n 8)) [
          | inr many ↦
              rw (here, copy_words-overrun n 8 m.frags (inl (ground arith)))
                (Created.overrun (λ e. cc) (inl (ground arith)))
          | inl fits ↦ elim (Bool-cases (leb n (length m.frags))) [
            | inr many ↦
                rw (here, copy_words-overrun n 8 m.frags (inr (ground arith)))
                  (Created.overrun (λ e. cc) (inr (ground arith)))
            | inl enough ↦
                rw (here, copy_words-front n 8 m.frags (ground arith) (ground arith))
                  (Created.made addr here (ground arith) (ground arith)
                    (length-front n m.frags (ground arith)))
          ]
        ]
      ]
