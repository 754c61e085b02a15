-- ===== src/Route/Host.antt =====
-- `find_aodv_route` of kaodv/src/aodv_route.c on a table of host routes, the routes that
-- `create_aodv_route` makes while `g_broadcast_ip` is 255.255.255.255.
use mobile_cloud_caching.Prelude.{
  ℕ, ◌<◌, ◌≡◌, refl, sym, ◌↔◌, leb, ◌==◌, true, false, Bool-cases, inl, inr, ◌⊎◌, ◌&&◌, List, [],
  ◌∷◌, All, arith,
}
use mathlib.Core.Path.{subst}
use mobile_cloud_caching.Prelude.Masks.{bit_and-ones32}
use mobile_cloud_caching.Types.{Ptr, null, AodvRoute}
use mobile_cloud_caching.Kernel.{Kernel}
use mobile_cloud_caching.World.{World}
use mobile_cloud_caching.World.Gives
use mobile_cloud_caching.World.Gives.{Gives}
use mobile_cloud_caching.Route.{compare_aodv_route, find_aodv_route}
use mobile_cloud_caching.Route.Order.{IsSorted, HasRoute, Allocated}
use mobile_cloud_caching.Route.Find.{last_match, Found, find_aodv_route-Found}

abbrev pub IsHost : AodvRoute → Type 0
IsHost r = (r.netmask ≡ 4_294_967_295) × (r.ip < 4_294_967_296)

abbrev pub HasRouteAt : Ptr → ℕ → List AodvRoute → Type 0
HasRouteAt p ip [] = ⊥
HasRouteAt p ip (r ∷ rs) = ((r.addr ≡ p) × (r.ip ≡ ip)) ⊎ HasRouteAt p ip rs

compare-host :
    (r : AodvRoute) (t : ℕ) → IsHost r → t < 4_294_967_296 → compare_aodv_route r t ≡ (r.ip == t)
unfolding compare_aodv_route
compare-host r t h lt = rw (h.0, bit_and-ones32 r.ip h.1, bit_and-ones32 t lt)

fits-host :
    (r : AodvRoute) (t : ℕ)
    → IsHost r
    → t < 4_294_967_296
    → (leb r.ip t && compare_aodv_route r t) ≡ (r.ip == t)
fits-host r t h lt = rw (compare-host r t h lt) (ground arith)

last_match-nil : (t : ℕ) (p : Ptr) → last_match t [] p ≡ p
unfolding last_match
last_match-nil t p = refl

module _ (r : AodvRoute) (t : ℕ) (rs : List AodvRoute) (p : Ptr) (h : IsHost r)
    (lt : t < 4_294_967_296) where
  last_match-here : (r.ip == t) ≡ true → last_match t (r ∷ rs) p ≡ last_match t rs r.addr
  unfolding last_match
  last_match-here e = rw (fits-host r t h lt, e)

  last_match-there : (r.ip == t) ≡ false → last_match t (r ∷ rs) p ≡ last_match t rs p
  unfolding last_match
  last_match-there e = rw (fits-host r t h lt, e)

-- No route is to the address and the pointer is the one given, or the pointer leads to one.
abbrev LastMatch : ℕ → List AodvRoute → Ptr → Ptr → Type 0
LastMatch t rs p q = ((q ≡ p) × (¬ HasRoute t rs)) ⊎ HasRouteAt q t rs

last_match-host :
    (t : ℕ) (rs : List AodvRoute) (p : Ptr)
    → t < 4_294_967_296
    → All IsHost rs
    → LastMatch t rs p (last_match t rs p)
last_match-host t [] p lt h = inl (last_match-nil t p, λ f. f)
last_match-host t (r ∷ rs) p lt h = elim (Bool-cases (r.ip == t)) [
  | inl e ↦
      subst (LastMatch t (r ∷ rs) p) (sym (last_match-here r t rs p h.0 lt e))
        (elim (last_match-host t rs r.addr lt h.1) [
          | inl old ↦ inr (inl (sym old.0, ground arith))
          | inr new ↦ inr (inr new)
        ])
  | inr e ↦
      subst (LastMatch t (r ∷ rs) p) (sym (last_match-there r t rs p h.0 lt e))
        (elim (last_match-host t rs p lt h.1) [
          | inl old ↦ inl (old.0, elim [ inl here ↦ ground arith | inr there ↦ old.1 there ])
          | inr new ↦ inr (inr new)
        ])
]

HasRouteAt-ne_null :
    (p : Ptr) (t : ℕ) (rs : List AodvRoute) → Allocated rs → HasRouteAt p t rs → 0 < p
HasRouteAt-ne_null p t [] a h = absurd h
HasRouteAt-ne_null p t (r ∷ rs) a h = elim h [
  | inl e ↦ omega arith
  | inr m ↦ HasRouteAt-ne_null p t rs a.1 m
]

HasRoute-HasRouteAt : (p : Ptr) (t : ℕ) (rs : List AodvRoute) → HasRouteAt p t rs → HasRoute t rs
HasRoute-HasRouteAt p t [] h = h
HasRoute-HasRouteAt p t (r ∷ rs) h = elim h [
  | inl e ↦ inl e.1
  | inr m ↦ inr (HasRoute-HasRouteAt p t rs m)
]

-- What a search in a host table finds: null exactly if no route is to the address, and otherwise
-- the address of a route to it.
pub record Looked (t : ℕ) (w : World) (p : Ptr) : Type 0 where
  pub null_iff : (p ≡ null) ↔ (¬ HasRoute t w.aodv_route_table)
  pub at : 0 < p → HasRouteAt p t w.aodv_route_table

last_match-Looked :
    (t : ℕ) (w : World)
    → t < 4_294_967_296
    → All IsHost w.aodv_route_table
    → Allocated w.aodv_route_table
    → Looked t w (last_match t w.aodv_route_table null)
last_match-Looked t w lt h a = elim (last_match-host t w.aodv_route_table null lt h) [
  | inl e ↦ record { null_iff = ((λ _. e.1), λ _. e.0); at = λ pos. absurd (omega arith) }
  | inr m ↦ record {
    null_iff = (
      (λ z. absurd (omega (arith, HasRouteAt-ne_null _ t w.aodv_route_table a m))),
      λ n. absurd (n (HasRoute-HasRouteAt _ t w.aodv_route_table m)),
    );
    at = λ _. m;
  }
]

module _ ⦃k : Kernel⦄ where
  -- On a sorted table of host routes that lie at addresses which are not null, a search for a
  -- 32-bit address meets no oops and is a lookup: the result is null exactly if no route is to the
  -- address, and otherwise leads to a route to it. Beyond that it may expire valid routes past
  -- their lifetime.
  pub find_aodv_route-Looked :
      (t : ℕ) (w : World)
      → t < 4_294_967_296
      → IsSorted w.aodv_route_table
      → All IsHost w.aodv_route_table
      → Allocated w.aodv_route_table
      → Gives (λ p w'. Looked t w p × Found t w p w') (find_aodv_route t w)
  find_aodv_route-Looked t w lt s h a =
      Gives.weaken (find_aodv_route-Found t w s)
        λ p w' f. (subst (Looked t w) (sym f.which) (last_match-Looked t w lt h a), f)
