-- ===== src/Caching/ReqList/Entries.antt =====
-- The entries of the request list of caching/src/cReqList.c: where one stands, and a write to it.
use mobile_cloud_caching.Prelude.{
  ℕ, ◌≡◌, ◌≢◌, ap, inl, inr, true, false, some, List, [], ◌∷◌, ◌++◌, All, Bool-cases, arith,
}
use mobile_cloud_caching.Types.{Ptr}
use mobile_cloud_caching.Caching.Types.{ReqList}
use mobile_cloud_caching.Caching.ReqList.{is_request, request_from, count_at}

-- No two entries share an address.
abbrev pub Apart : Ptr → List ReqList → Type 0
Apart a = All (λ r. r.addr ≢ a)

abbrev pub Distinct : List ReqList → Type 0
Distinct [] = Unit {0}
Distinct (r ∷ rs) = Apart r.addr rs × Distinct rs

-- The first request for a fragment, in its place.
pub record Request (file frag : ℕ) (r : ReqList) (rs : List ReqList) : Type 0 where
  pub before : List ReqList
  pub after : List ReqList
  pub split : rs ≡ before ++ r ∷ after
  pub others : All (λ q. is_request file frag q ≡ false) before
  pub stands : is_request file frag r ≡ true

pub request_from-Request :
    (file frag : ℕ) (r : ReqList) (rs : List ReqList)
    → request_from rs file frag ≡ some r
    → Request file frag r rs
unfolding request_from
request_from-Request file frag r [] e = cc
request_from-Request file frag r (q ∷ qs) e = elim (Bool-cases (is_request file frag q)) [
  | inl hit ↦
      let same : q ≡ r = ground arith in
      record {
        before = [];
        after = qs;
        split = ap (λ x. x ∷ qs) same;
        others = tt;
        stands = rw (← same) hit;
      }
  | inr miss ↦
      let rest = request_from-Request file frag r qs (ground arith) in
      record {
        before = q ∷ rest.before;
        after = rest.after;
        split = ap (◌∷◌ q) rest.split;
        others = (miss, rest.others);
        stands = rest.stands;
      }
]

module _ (r : ReqList) (after : List ReqList) where
  All-at : (P : ReqList → Type 0) (before : List ReqList) → All P (before ++ r ∷ after) → P r
  All-at P [] all = all.0
  All-at P (b ∷ bs) all = All-at P bs all.1

  -- With distinct addresses a write goes to the entry that was meant, and to no other.
  pub count_at-Distinct :
      (f : ℕ → ℕ) (before : List ReqList)
      → Distinct (before ++ r ∷ after)
      → count_at r.addr f (before ++ r ∷ after) ≡ before ++ record r { count = f r.count } ∷ after
  unfolding count_at
  count_at-Distinct f [] d = ground arith
  count_at-Distinct f (b ∷ bs) d =
      let other = All-at (λ e. e.addr ≢ b.addr) bs d.0 in
      ground (arith, count_at-Distinct f bs d.1, other)
