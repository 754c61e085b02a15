-- ===== src/Neigh/Order.antt =====
-- The list of neighbours of kaodv/src/aodv_neigh.c as a table: what a search finds after a
-- neighbour was made or deleted.
use mathlib.Core.Path.{subst}
use mobile_cloud_caching.Prelude.{
  ℕ, ◌≤◌, ◌<◌, ◌≡◌, refl, ltb, ◌==◌, if◌then◌else◌, Bool-cases, inl, inr, Option, none, some,
  Option-cases, List, [], ◌∷◌, All, arith,
}
use mobile_cloud_caching.Types.{null, AodvNeigh}
use mobile_cloud_caching.Neigh.{find_neigh_walk, create_neigh_walk, delete_neigh_walk}

-- Addresses rise along the list.
abbrev pub IsSorted : List AodvNeigh → Type 0
IsSorted [] = Unit
IsSorted (n ∷ ns) = All (λ (m : AodvNeigh). n.ip < m.ip) ns × IsSorted ns

-- What a walk made of the list, if it did not fail.
abbrev OnSome : (List AodvNeigh → Type 0) → Option (List AodvNeigh) → Type 0
OnSome P none = Unit
OnSome P (some ms) = P ms

-- A search finds the new neighbour by its address, and what it found before by any other.
abbrev Extends : ℕ → AodvNeigh → List AodvNeigh → List AodvNeigh → Type 0
Extends ip new ns ms =
    find_neigh_walk ip ms ≡ (if new.ip == ip then new.addr else find_neigh_walk ip ns)

create_find :
    (ip : ℕ) (new : AodvNeigh) (ns : List AodvNeigh)
    → IsSorted ns
    → OnSome (Extends ip new ns) (create_neigh_walk new ns)
unfolding find_neigh_walk create_neigh_walk
create_find ip new [] s = ground arith
create_find ip new (n ∷ ns) s = elim (Bool-cases (ltb n.ip new.ip)) [
  | inl e ↦ elim (Option-cases (create_neigh_walk new ns)) [
    | inl miss ↦ rw (e, miss, create_neigh_walk) tt
    | inr (ms, got) ↦
        let ih = subst (OnSome (Extends ip new ns)) got (create_find ip new ns s.1) in
        rw (e, got, create_neigh_walk) (ground (arith, e, ih))
  ]
  | inr e ↦ elim (Bool-cases (n.ip == new.ip)) [
    | inl same ↦ rw (e, same, create_neigh_walk) tt
    | inr other ↦ rw (e, other, create_neigh_walk) (ground (arith, e, other))
  ]
]

All-below :
    (b c : ℕ) (ns : List AodvNeigh)
    → b ≤ c
    → All (λ (m : AodvNeigh). c < m.ip) ns
    → All (λ (m : AodvNeigh). b < m.ip) ns
All-below b c [] lt a = tt
All-below b c (n ∷ ns) lt a = (omega (arith, a.0), All-below b c ns lt a.1)

create_above :
    (b : ℕ) (new : AodvNeigh) (ns : List AodvNeigh)
    → b < new.ip
    → All (λ (m : AodvNeigh). b < m.ip) ns
    → OnSome (All (λ (m : AodvNeigh). b < m.ip)) (create_neigh_walk new ns)
unfolding create_neigh_walk
create_above b new [] lt a = (lt, tt)
create_above b new (n ∷ ns) lt a = elim (Bool-cases (ltb n.ip new.ip)) [
  | inl e ↦ elim (Option-cases (create_neigh_walk new ns)) [
    | inl miss ↦ rw (e, miss, create_neigh_walk) tt
    | inr (ms, got) ↦
        let ih =
          subst (OnSome (All (λ (m : AodvNeigh). b < m.ip))) got (create_above b new ns lt a.1) in
        rw (e, got, create_neigh_walk) (a.0, ih)
  ]
  | inr e ↦ elim (Bool-cases (n.ip == new.ip)) [
    | inl same ↦ rw (e, same, create_neigh_walk) tt
    | inr other ↦ rw (e, other, create_neigh_walk) (lt, a)
  ]
]

create-IsSorted :
    (new : AodvNeigh) (ns : List AodvNeigh)
    → IsSorted ns
    → OnSome IsSorted (create_neigh_walk new ns)
unfolding create_neigh_walk
create-IsSorted new [] s = (tt, tt)
create-IsSorted new (n ∷ ns) s = elim (Bool-cases (ltb n.ip new.ip)) [
  | inl e ↦ elim (Option-cases (create_neigh_walk new ns)) [
    | inl miss ↦ rw (e, miss, create_neigh_walk) tt
    | inr (ms, got) ↦
        let ih = subst (OnSome IsSorted) got (create-IsSorted new ns s.1) in
        let above =
          subst (OnSome (All (λ (m : AodvNeigh). n.ip < m.ip))) got
            (create_above n.ip new ns (ground (arith, e)) s.0) in
        rw (e, got, create_neigh_walk) (above, ih)
  ]
  | inr e ↦ elim (Bool-cases (n.ip == new.ip)) [
    | inl same ↦ rw (e, same, create_neigh_walk) tt
    | inr other ↦
        let lt : new.ip < n.ip = ground (arith, e, other) in
        rw (e, other, create_neigh_walk) ((lt, All-below new.ip n.ip ns (omega (arith, lt)) s.0), s)
  ]
]

-- When `create_aodv_neigh` links a neighbour into a list sorted by address, the list stays sorted,
-- a search for the neighbour's address finds it, and a search for any other finds what it found
-- before.
pub create_neigh_walk-find :
    (ip : ℕ) (new : AodvNeigh) (ns ms : List AodvNeigh)
    → IsSorted ns
    → create_neigh_walk new ns ≡ some ms
    → IsSorted ms
      × (find_neigh_walk ip ms ≡ (if new.ip == ip then new.addr else find_neigh_walk ip ns))
create_neigh_walk-find ip new ns ms s e = (
  subst (OnSome IsSorted) e (create-IsSorted new ns s),
  subst (OnSome (Extends ip new ns)) e (create_find ip new ns s),
)

abbrev Without : ℕ → ℕ → List AodvNeigh → List AodvNeigh → Type 0
Without ip dead ns ms = find_neigh_walk ip ms ≡ (if dead == ip then null else find_neigh_walk ip ns)

find-beyond :
    (ip : ℕ) (ns : List AodvNeigh)
    → All (λ (m : AodvNeigh). ip < m.ip) ns
    → find_neigh_walk ip ns ≡ null
unfolding find_neigh_walk
find-beyond ip [] a = refl
find-beyond ip (n ∷ ns) a = ground (arith, a.0)

delete_here :
    (ip dead : ℕ) (n : AodvNeigh) (ns : List AodvNeigh)
    → n.ip ≡ dead
    → All (λ (m : AodvNeigh). n.ip < m.ip) ns
    → Without ip dead (n ∷ ns) ns
unfolding find_neigh_walk
delete_here ip dead n ns e a = elim (Bool-cases (ltb n.ip ip)) [
  | inl below ↦ ground (arith, e, below)
  | inr ge ↦
      let none_left = find-beyond ip ns (All-below ip n.ip ns (ground (arith, ge)) a) in
      ground (arith, e, ge, none_left)
]

delete_find :
    (ip dead : ℕ) (ns : List AodvNeigh)
    → IsSorted ns
    → OnSome (Without ip dead ns) (delete_neigh_walk dead ns)
unfolding find_neigh_walk delete_neigh_walk
delete_find ip dead [] s = tt
delete_find ip dead (n ∷ ns) s = elim (Bool-cases (n.ip == dead)) [
  | inl e ↦ rw (e, delete_neigh_walk) (delete_here ip dead n ns (ground (arith, e)) s.0)
  | inr e ↦ elim (Option-cases (delete_neigh_walk dead ns)) [
    | inl miss ↦ rw (e, miss, delete_neigh_walk) tt
    | inr (ms, got) ↦
        let ih = subst (OnSome (Without ip dead ns)) got (delete_find ip dead ns s.1) in
        rw (e, got, delete_neigh_walk) (ground (arith, e, ih))
  ]
]

All-deleted :
    (P : AodvNeigh → Type 0) (dead : ℕ) (ns : List AodvNeigh)
    → All P ns
    → OnSome (All P) (delete_neigh_walk dead ns)
unfolding delete_neigh_walk
All-deleted P dead [] a = tt
All-deleted P dead (n ∷ ns) a = elim (Bool-cases (n.ip == dead)) [
  | inl e ↦ rw (e, delete_neigh_walk) a.1
  | inr e ↦ elim (Option-cases (delete_neigh_walk dead ns)) [
    | inl miss ↦ rw (e, miss, delete_neigh_walk) tt
    | inr (ms, got) ↦
        rw (e, got, delete_neigh_walk) (a.0, subst (OnSome (All P)) got (All-deleted P dead ns a.1))
  ]
]

delete-IsSorted :
    (dead : ℕ) (ns : List AodvNeigh) → IsSorted ns → OnSome IsSorted (delete_neigh_walk dead ns)
unfolding delete_neigh_walk
delete-IsSorted dead [] s = tt
delete-IsSorted dead (n ∷ ns) s = elim (Bool-cases (n.ip == dead)) [
  | inl e ↦ rw (e, delete_neigh_walk) s.1
  | inr e ↦ elim (Option-cases (delete_neigh_walk dead ns)) [
    | inl miss ↦ rw (e, miss, delete_neigh_walk) tt
    | inr (ms, got) ↦
        let above =
          subst (OnSome (All (λ (m : AodvNeigh). n.ip < m.ip))) got (All-deleted _ dead ns s.0) in
        rw (e, got, delete_neigh_walk)
          (above, subst (OnSome IsSorted) got (delete-IsSorted dead ns s.1))
  ]
]

-- When `delete_aodv_neigh` unlinks a neighbour from a list sorted by address, the list stays
-- sorted, a search for the address finds nothing, and a search for any other finds what it found
-- before.
pub delete_neigh_walk-find :
    (ip dead : ℕ) (ns ms : List AodvNeigh)
    → IsSorted ns
    → delete_neigh_walk dead ns ≡ some ms
    → IsSorted ms × (find_neigh_walk ip ms ≡ (if dead == ip then null else find_neigh_walk ip ns))
delete_neigh_walk-find ip dead ns ms s e = (
  subst (OnSome IsSorted) e (delete-IsSorted dead ns s),
  subst (OnSome (Without ip dead ns)) e (delete_find ip dead ns s),
)
