-- ===== src/Caching/FileRep/Choose.antt =====
-- The choice of the fragments to ask for in `process_flrep` of caching/src/cFileRep.c: the nearest
-- reply that has not expired is used up, and then the next, until there are enough.
pub mod Nearest
pub mod Picks
pub mod Ends
use mobile_cloud_caching.Prelude.{
  ℕ, zero, suc, ◌+◌, ◌-◌, ◌*◌, ◌/◌, ◌%◌, ◌<◌, ◌≤◌, ◌≡◌, ◌≢◌, refl, sym, ap, ◌∙◌, ◌⊎◌, inl, inr, ltb,
  leb, ltb→lt, leb→le, ◌==◌, ◌&&◌, ◌||◌, not, Bool, true, false, Option, none, some, List, [], ◌∷◌,
  ◌++◌, length, keep, keep-pass, keep-skip, All, All-append, Bool-cases, Option-cases,
  if◌then◌else◌, arith,
}
use mobile_cloud_caching.Caching.Types.{FileRepInfo}
use mobile_cloud_caching.Caching.FileRep.Replies.{is_reply}

-- The arrays and counters of the loop. `buf` holds the fragments that are held or chosen; `picks`
-- are the destination and the fragment of each place of `dst` and `frag` from `need` on.
pub record Search : Type 0 where
  pub buf : List ℕ
  pub count : ℕ
  pub need : ℕ
  pub picks : List (ℕ × ℕ)
  pub energy : ℕ

unfoldable pub closer : FileRepInfo → Option (ℕ × FileRepInfo) → Bool
closer r none = true
closer r (some (pos, m)) = ltb r.dist m.dist

-- The first of the nearest replies for a file, with its place in the table.
unfoldable pub nearest :
    ℕ → ℕ → Option (ℕ × FileRepInfo) → List FileRepInfo → Option (ℕ × FileRepInfo)
unfolding closer
nearest file pos best [] = best
nearest file pos best (r ∷ rs) =
    nearest file (pos + 1) (if is_reply file r && closer r best then some (pos, r) else best) rs

-- `expired = 1` at a place of the table.
unfoldable pub expire_nth : ℕ → List FileRepInfo → List FileRepInfo
expire_nth n [] = []
expire_nth zero (r ∷ rs) = record r { expired = 1 } ∷ rs
expire_nth (suc n) (r ∷ rs) = r ∷ expire_nth n rs

unfoldable pub has : ℕ → List ℕ → Bool
has x [] = false
has x (y ∷ ys) = (x == y) || has x ys

-- One round of the inner loop. `need` is above 0 there, since `count` is below `KVAL`.
unfoldable pub take_frag : ℕ → ℕ → ℕ → Search → Search
take_frag dst dist x t = if has x t.buf then t else record t {
  buf = x ∷ t.buf;
  count = t.count + 1;
  need = t.need - 1;
  picks = (dst, x) ∷ t.picks;
  energy = (t.energy + dist) % 4_294_967_296;
}

-- The inner loop over the rounds left and the words of the map; none is a read past its end.
unfoldable pub take_map : ℕ → ℕ → ℕ → ℕ → List ℕ → Search → Option Search
take_map kval dst dist zero words t = some t
take_map kval dst dist (suc n) words t =
    let next : Option Search = elim words [
      | [] ↦ none
      | x ∷ rest ↦ take_map kval dst dist n rest (take_frag dst dist x t)
    ] in
    if ltb t.count kval then next else some t

-- How the outer loop ends: with enough fragments, or with too few replies; and the table then.
pub data Chosen : Type 0 where
  complete : Search → List FileRepInfo → Chosen
  too_few : List FileRepInfo → Chosen

-- The outer loop, on fuel: one unit for each reply and one more are enough. `none` is a read past
-- the end of a map, or the end of the fuel.
unfoldable pub choose : ℕ → ℕ → ℕ → Search → List FileRepInfo → Option Chosen
choose zero kval file t rs = none
choose (suc fuel) kval file t rs =
    let next : Option Chosen = elim (nearest file 0 none rs) [
      | none ↦ some (too_few rs)
      | some (pos, m) ↦ elim (take_map kval m.dst_ip m.dist m.frag_count m.map t) [
        | none ↦ none
        | some t' ↦ choose fuel kval file t' (expire_nth pos rs)
      ]
    ] in
    if ltb 0 t.need then next else some (complete t rs)
