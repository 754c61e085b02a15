-- ===== src/World/Gives.antt =====
-- Total correctness of a command's run: it meets no oops, and a postcondition holds of its result
-- and of the world after it.
use mobile_cloud_caching.Prelude.{◌≡◌, refl, Option, some}
use mobile_cloud_caching.World.{World, Cmd, and_then}

pub data Gives {A : Type 0} (P : A → World → Type 0) : Option (A × World) → Type 0 where
  gives : {a : A} {w : World} → P a w → Gives P (some (a, w))

module _ {A : Type 0} {P : A → World → Type 0} where
  pub bind :
      {B : Type 0} {Q : B → World → Type 0} {r : Option (A × World)} {f : A → Cmd B}
      → Gives P r
      → ((a : A) (w : World) → P a w → Gives Q (f a w))
      → Gives Q (and_then r f)
  bind (gives p) next = next _ _ p

  pub weaken :
      {Q : A → World → Type 0} {r : Option (A × World)}
      → Gives P r
      → ((a : A) (w : World) → P a w → Q a w)
      → Gives Q r
  weaken (gives p) f = gives (f _ _ p)

  -- The run itself, beside what holds of it.
  pub remember : {r : Option (A × World)} → Gives P r → Gives (λ a w. P a w × (r ≡ some (a, w))) r
  remember (gives p) = gives (p, refl)
