-- ===== src/Caching/Exchange/Agent.antt =====
-- `select_agent` of caching/src/cExchange.c: which neighbour is asked to keep a copy.
use mathlib.Core.List.{map}
use mobile_cloud_caching.Prelude.{
  ℕ, ◌<◌, ◌≤◌, ◌≡◌, refl, ap, inl, inr, ltb, ◌&&◌, true, false, List, [], ◌∷◌, ◌++◌, All,
  Bool-cases, if◌then◌else◌, arith,
}
use mobile_cloud_caching.Caching.Types.{ExchTable}
use mobile_cloud_caching.Caching.Exchange.Offers.{is_offer, choose_agent}

-- An entry that makes an offer for the fragment, and where it stands in the table.
pub record Offer (file frag : ℕ) (es : List ExchTable) : Type 0 where
  pub before : List ExchTable
  pub entry : ExchTable
  pub after : List ExchTable
  pub split : es ≡ before ++ entry ∷ after
  pub stands : is_offer file frag entry ≡ true

-- No offer is above the score.
abbrev pub Tops : ℕ → ℕ → ℕ → List ExchTable → Type 0
Tops file frag top = All (λ e. is_offer file frag e ≡ true → e.score ≤ top)

-- The address that is chosen: the node's own if no offer is above the node's own score, and else
-- that of an offer above it with the highest score of all.
pub data Best (file frag own my_ip : ℕ) (es : List ExchTable) (dst : ℕ) : Type 0 where
  self : dst ≡ my_ip → Tops file frag own es → Best file frag own my_ip es dst
  neighbour :
      (o : Offer file frag es)
      → dst ≡ o.entry.neigh_ip
      → own < o.entry.score
      → Tops file frag o.entry.score es
      → Best file frag own my_ip es dst

abbrev later :
    {file frag : ℕ} {es : List ExchTable} (e : ExchTable)
    → Offer file frag es
    → Offer file frag (e ∷ es)
later e o = record {
  before = e ∷ o.before;
  entry = o.entry;
  after = o.after;
  split = ap (◌∷◌ e) o.split;
  stands = o.stands;
}

Tops-mono :
    (file frag m n : ℕ) (es : List ExchTable) → m ≤ n → Tops file frag m es → Tops file frag n es
Tops-mono file frag m n [] h t = tt
Tops-mono file frag m n (e ∷ es) h t = (λ o. omega (arith, t.0 o), Tops-mono file frag m n es h t.1)

-- An entry that is no better than the best so far changes nothing.
Best-pass :
    (file frag own my_ip dst : ℕ) (e : ExchTable) (es : List ExchTable)
    → is_offer file frag e && ltb own e.score ≡ false
    → Best file frag own my_ip es dst
    → Best file frag own my_ip (e ∷ es) dst
Best-pass file frag own my_ip dst e es no_better (Best.self d tops) =
    Best.self d (λ o. ground arith, tops)
Best-pass file frag own my_ip dst e es no_better (Best.neighbour o d above tops) =
    Best.neighbour (later e o) d above (λ h. ground arith, tops)

-- A better entry becomes the best so far.
Best-take :
    (file frag own my_ip dst : ℕ) (e : ExchTable) (es : List ExchTable)
    → is_offer file frag e && ltb own e.score ≡ true
    → Best file frag e.score e.neigh_ip es dst
    → Best file frag own my_ip (e ∷ es) dst
Best-take file frag own my_ip dst e es better (Best.self d tops) =
    Best.neighbour
      (record { before = []; entry = e; after = es; split = refl; stands = ground arith }) d
      (ground arith) (λ _. omega arith, tops)
Best-take file frag own my_ip dst e es better (Best.neighbour o d above tops) =
    Best.neighbour (later e o) d (ground arith) (λ _. omega arith, tops)

-- `select_agent` chooses the neighbour with the highest score for the fragment among the replies
-- that have not expired, if that is above the node's own score, and else the node itself.
pub choose_agent-Best :
    (file frag own my_ip : ℕ) (es : List ExchTable)
    → Best file frag own my_ip es (choose_agent file frag own my_ip es).0
unfolding choose_agent
choose_agent-Best file frag own my_ip [] = Best.self refl tt
choose_agent-Best file frag own my_ip (e ∷ es) =
    elim (Bool-cases (is_offer file frag e && ltb own e.score)) [
      | inl better ↦ rw better (
          Best-take file frag own my_ip _ e es better
            (choose_agent-Best file frag e.score e.neigh_ip es))
      | inr no_better ↦ rw no_better (
          Best-pass file frag own my_ip _ e es no_better (choose_agent-Best file frag own my_ip es))
    ]

-- What becomes of an entry: one for the fragment expires.
abbrev pub expire_offer : ℕ → ℕ → ExchTable → ExchTable
expire_offer file frag e = if is_offer file frag e then record e { expired = 1 } else e

-- The replies for the fragment are used up, and the others are left as they were.
pub choose_agent-expires :
    (file frag : ℕ) (es : List ExchTable) (own my_ip : ℕ)
    → (choose_agent file frag own my_ip es).1 ≡ map (expire_offer file frag) es
unfolding choose_agent
choose_agent-expires file frag [] own my_ip = refl
choose_agent-expires file frag (e ∷ es) own my_ip =
    ap (◌∷◌ (expire_offer file frag e)) (choose_agent-expires file frag es _ _)
