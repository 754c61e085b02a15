-- ===== src/Prelude/Commands.antt =====
-- Commands over a state: from a state to a result and the state after it, or to none where the code
-- would fault; and total correctness of a run.
use mathlib.Core.Bool.{Bool, true, false}
use mathlib.Core.Path.{◌≡◌, refl}
use mathlib.Core.Option.{Option, none, some}

abbrev pub Command : Type 0 → Type 0 → Type 0
Command S A = S → Option (A × S)

module _ {S : Type 0} where
  abbrev pub pure : {A : Type 0} → A → Command S A
  pure a s = some (a, s)

  abbrev pub oops : {A : Type 0} → Command S A
  oops s = none

  abbrev pub and_then : {A B : Type 0} → Option (A × S) → (A → Command S B) → Option (B × S)
  and_then none f = none
  and_then (some (a, s)) f = f a s

  infixl 5 ◌>>=◌ ◌>>◌
  abbrev pub ◌>>=◌ : {A B : Type 0} → Command S A → (A → Command S B) → Command S B
  m >>= f = λ s. and_then (m s) f

  abbrev pub ◌>>◌ : {A B : Type 0} → Command S A → Command S B → Command S B
  m >> n = m >>= λ _. n

  -- `if (test) command`.
  abbrev pub when : Bool → Command S (Unit {0}) → Command S (Unit {0})
  when true m = m
  when false m = pure tt

  abbrev pub get : Command S S
  get s = some (s, s)

  abbrev pub modify : (S → S) → Command S (Unit {0})
  modify f s = some (tt, f s)

  -- The run meets no fault, and the result and the state after it satisfy `P`.
  pub data Gives {A : Type 0} (P : A → S → Type 0) : Option (A × S) → Type 0 where
    gives : {a : A} {s : S} → P a s → Gives P (some (a, s))

  pub bind :
      {A B : Type 0} {P : A → S → Type 0} {Q : B → S → Type 0} {r : Option (A × S)}
      {f : A → Command S B}
      → Gives P r
      → ((a : A) (s : S) → P a s → Gives Q (f a s))
      → Gives Q (and_then r f)
  bind (gives p) next = next _ _ p

  pub weaken :
      {A : Type 0} {P Q : A → S → Type 0} {r : Option (A × S)}
      → Gives P r
      → ((a : A) (s : S) → P a s → Q a s)
      → Gives Q r
  weaken (gives p) f = gives (f _ _ p)

  -- The result and the state of a run.
  pub Gives-some :
      {A : Type 0} {P : A → S → Type 0} {r : Option (A × S)}
      → Gives P r
      → (a : A) × (s : S) × (r ≡ some (a, s)) × P a s
  Gives-some (gives p) = (_, _, refl, p)
