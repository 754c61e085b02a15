-- ===== src/Neigh/Valid.antt =====
-- `valid_aodv_neigh` of kaodv/src/aodv_neigh.c: its run and what it leaves alone.
use mathlib.Core.Path.{subst}
use mobile_cloud_caching.Prelude.{
  ℕ, ◌≡◌, refl, sym, leb, ◌==◌, true, false, Bool-cases, inl, inr, ◌⊎◌, some, List, [], ◌∷◌, arith,
}
use mobile_cloud_caching.Types.{Ptr, null, AodvNeigh}
use mobile_cloud_caching.Kernel.{Kernel}
use mobile_cloud_caching.World.{World, getcurrtime}
use mobile_cloud_caching.World.Memory.{neigh_at, load_neigh}
use mobile_cloud_caching.World.Gives.{Gives, gives}
use mobile_cloud_caching.World.Frame.{SameTables}
use mobile_cloud_caching.Neigh.{find_neigh_walk, find_aodv_neigh, valid_aodv_neigh}

abbrev pub HasNeigh : Ptr → List AodvNeigh → Type 0
HasNeigh p [] = ⊥
HasNeigh p (n ∷ ns) = (n.addr ≡ p) ⊎ HasNeigh p ns

module _ (ip : ℕ) (n : AodvNeigh) (ns : List AodvNeigh) where
  walk-next :
      leb n.ip ip ≡ true
      → (n.ip == ip) ≡ false
      → find_neigh_walk ip (n ∷ ns) ≡ find_neigh_walk ip ns
  unfolding find_neigh_walk
  walk-next near e = rw (near, e)

  later : (p : Ptr) → (p ≡ null) ⊎ HasNeigh p ns → (p ≡ null) ⊎ HasNeigh p (n ∷ ns)
  later p (inl e) = inl e
  later p (inr h) = inr (inr h)

pub find_neigh_walk-HasNeigh :
    (ip : ℕ) (ns : List AodvNeigh)
    → (find_neigh_walk ip ns ≡ null) ⊎ HasNeigh (find_neigh_walk ip ns) ns
unfolding find_neigh_walk
find_neigh_walk-HasNeigh ip [] = inl refl
find_neigh_walk-HasNeigh ip (n ∷ ns) = elim (Bool-cases (leb n.ip ip)) [
  | inr far ↦ simp far (inl refl)
  | inl near ↦ elim (Bool-cases (n.ip == ip)) [
    | inl e ↦ simp (near, e) (inr (inl refl))
    | inr e ↦
        subst (λ p. (p ≡ null) ⊎ HasNeigh p (n ∷ ns)) (sym (walk-next ip n ns near e))
          (later ip n ns _ (find_neigh_walk-HasNeigh ip ns))
  ]
]

neigh_at-HasNeigh :
    (p : Ptr) (ns : List AodvNeigh) → HasNeigh p ns → (n : AodvNeigh) × (neigh_at p ns ≡ some n)
neigh_at-HasNeigh p [] h = absurd h
neigh_at-HasNeigh p (n ∷ ns) h = elim (Bool-cases (n.addr == p)) [
  | inl e ↦ (n, rw (e, neigh_at))
  | inr e ↦ elim h [
    | inl here ↦ absurd (ground arith)
    | inr there ↦ let (s, found) = neigh_at-HasNeigh p ns there in (s, rw (e, neigh_at) found)
  ]
]

pub load_neigh-HasNeigh :
    (p : Ptr) (w : World)
    → HasNeigh p w.aodv_neigh_list
    → (n : AodvNeigh) × (load_neigh p w ≡ some (n, w))
unfolding load_neigh
load_neigh-HasNeigh p w h =
    let (n, found) = neigh_at-HasNeigh p w.aodv_neigh_list h in (n, rw (found, load_neigh))

module _ ⦃k : Kernel⦄ where
  pub valid_aodv_neigh-SameTables :
      (ip : ℕ) (w : World) → Gives (λ _ w'. SameTables w w') (valid_aodv_neigh ip w)
  unfolding valid_aodv_neigh find_aodv_neigh getcurrtime
  valid_aodv_neigh-SameTables ip w =
      elim (Bool-cases (find_neigh_walk ip w.aodv_neigh_list == null)) [
        | inl z ↦ simp z (gives refl)
        | inr z ↦ elim (find_neigh_walk-HasNeigh ip w.aodv_neigh_list) [
          | inl e ↦ absurd (ground arith)
          | inr h ↦
              let (n, found) = load_neigh-HasNeigh _ w h in
              elim (Bool-cases n.valid_link) [
                | inl v ↦ simp (z, found, v) (gives refl)
                | inr v ↦ simp (z, found, v) (gives refl)
              ]
        ]
      ]
