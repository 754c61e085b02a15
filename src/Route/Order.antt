-- ===== src/Route/Order.antt =====
-- The order of the routing table of kaodv/src/aodv_route.c, which `insert_aodv_route` makes and the
-- walks of `delete_aodv_route` and `find_aodv_route` rely on to stop early.
use mathlib.Core.List.{Perm}
use mathlib.Core.List.Perm
use mobile_cloud_caching.Prelude.{
  ℕ, ◌≤◌, ◌<◌, ◌≡◌, refl, ◌↔◌, ltb, leb, ◌==◌, Bool-cases, inl, inr, ◌⊎◌, List, [], ◌∷◌, All, arith,
}
use mobile_cloud_caching.Types.{Ptr, null, AodvRoute}
use mobile_cloud_caching.Route.{link, unlink, delete_walk}

-- Destinations do not fall along the table.
abbrev pub IsSorted : List AodvRoute → Type 0
IsSorted [] = Unit
IsSorted (r ∷ rs) = All (λ (s : AodvRoute). r.ip ≤ s.ip) rs × IsSorted rs

abbrev pub HasRoute : ℕ → List AodvRoute → Type 0
HasRoute ip [] = ⊥
HasRoute ip (r ∷ rs) = (r.ip ≡ ip) ⊎ HasRoute ip rs

-- Every route lies at an address, so a pointer to one is not null.
abbrev pub Allocated : List AodvRoute → Type 0
Allocated = All (λ r. 0 < r.addr)

-- A bound below the new route and below the table is one below the new table.
All-link :
    (a : ℕ) (n : AodvRoute) (rs : List AodvRoute)
    → a ≤ n.ip
    → All (λ (s : AodvRoute). a ≤ s.ip) rs
    → All (λ (s : AodvRoute). a ≤ s.ip) (link n rs)
unfolding link
All-link a n [] h t = (h, tt)
All-link a n (r ∷ rs) h t = elim (Bool-cases (ltb r.ip n.ip)) [
  | inl e ↦ rw e (t.0, All-link a n rs h t.1)
  | inr e ↦ rw e (h, t)
]

All-le :
    (a b : ℕ) (rs : List AodvRoute)
    → a ≤ b
    → All (λ (s : AodvRoute). b ≤ s.ip) rs
    → All (λ (s : AodvRoute). a ≤ s.ip) rs
All-le a b [] h t = tt
All-le a b (r ∷ rs) h t = (omega arith, All-le a b rs h t.1)

-- `insert_aodv_route` keeps the table sorted by destination.
link-IsSorted : (n : AodvRoute) (rs : List AodvRoute) → IsSorted rs → IsSorted (link n rs)
unfolding link
link-IsSorted n [] s = (tt, tt)
link-IsSorted n (r ∷ rs) s = elim (Bool-cases (ltb r.ip n.ip)) [
  | inl e ↦ rw e (All-link r.ip n rs (ground arith) s.0, link-IsSorted n rs s.1)
  | inr e ↦
      let below : n.ip ≤ r.ip = ground arith in rw e ((below, All-le n.ip r.ip rs below s.0), s)
]

-- `insert_aodv_route` adds the new route and loses or doubles none.
link-perm : (n : AodvRoute) (rs : List AodvRoute) → Perm (link n rs) (n ∷ rs)
unfolding link
link-perm n [] = Perm.refl _
link-perm n (r ∷ rs) = elim (Bool-cases (ltb r.ip n.ip)) [
  | inl e ↦ rw e (Perm.trans (Perm.cons r (link-perm n rs)) (Perm.swap n r rs))
  | inr e ↦ rw e (Perm.refl _)
]

All-unlink {κ} :
    (P : AodvRoute → Type κ) (p : Ptr) (rs : List AodvRoute) → All P rs → All P (unlink p rs)
unfolding unlink
All-unlink P p [] h = tt
All-unlink P p (r ∷ rs) h = elim (Bool-cases (r.addr == p)) [
  | inl e ↦ rw e h.1
  | inr e ↦ rw e (h.0, All-unlink P p rs h.1)
]

-- `remove_aodv_route` keeps the table sorted by destination.
unlink-IsSorted : (p : Ptr) (rs : List AodvRoute) → IsSorted rs → IsSorted (unlink p rs)
unfolding unlink
unlink-IsSorted p [] s = tt
unlink-IsSorted p (r ∷ rs) s = elim (Bool-cases (r.addr == p)) [
  | inl e ↦ rw e s.1
  | inr e ↦ rw e (All-unlink _ p rs s.0, unlink-IsSorted p rs s.1)
]

absent :
    (a b : ℕ) (rs : List AodvRoute) → a < b → All (λ (s : AodvRoute). b ≤ s.ip) rs → ¬ HasRoute a rs
absent a b [] h t = λ f. f
absent a b (r ∷ rs) h t = elim [ inl e ↦ omega arith | inr f ↦ absent a b rs h t.1 f ]

-- On a sorted table whose routes lie at addresses that are not null, the walk of
-- `delete_aodv_route`, which stops early, ends at null exactly if no route is to the address.
delete_walk-null_iff :
    (ip : ℕ) (rs : List AodvRoute)
    → IsSorted rs
    → Allocated rs
    → (delete_walk ip rs ≡ null) ↔ (¬ HasRoute ip rs)
unfolding delete_walk
delete_walk-null_iff ip [] s a = ((λ _ f. f), λ _. refl)
delete_walk-null_iff ip (r ∷ rs) s a = elim (Bool-cases (leb r.ip ip)) [
  | inr above ↦ rw above (
    (λ _. elim [ inl e ↦ ground arith | inr f ↦ absent ip r.ip rs (ground arith) s.0 f ]),
    λ _. refl,
  )
  | inl e ↦ elim (Bool-cases (r.ip == ip)) [
    | inl here ↦ rw (e, here) ((λ z. absurd (omega arith)), λ n. absurd (n (inl (ground arith))))
    | inr there ↦
        let ih = delete_walk-null_iff ip rs s.1 a.1 in
        rw (e, there)
          ((λ z. elim [ inl h ↦ ground arith | inr f ↦ ih.0 z f ]), λ n. ih.1 (λ f. n (inr f)))
  ]
]
