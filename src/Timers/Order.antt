-- ===== src/Timers/Order.antt =====
-- The order of the timer queue of kaodv/src/timer_queue.c.
use mathlib.Core.List.{Perm}
use mathlib.Core.List.Perm
use mobile_cloud_caching.Prelude.{
  ℕ, ◌+◌, ◌≤◌, ◌<◌, ◌≡◌, ltb, Bool-cases, inl, inr, List, [], ◌∷◌, All, arith,
}
use mobile_cloud_caching.Types.{AodvTask}
use mobile_cloud_caching.Kernel.{Kernel, time_after}
use mobile_cloud_caching.Timers.{link_timer}

-- Times do not fall along the queue.
abbrev pub IsSorted : List AodvTask → Type 0
IsSorted [] = Unit
IsSorted (t ∷ ts) = All (λ (s : AodvTask). t.time ≤ s.time) ts × IsSorted ts

-- The times lie in a window in which the kernel's macros compare them as numbers.
abbrev pub InWindow : ℕ → AodvTask → Type 0
InWindow base t = (base ≤ t.time) × (t.time < base + 2_147_483_648)

module _ ⦃k : Kernel⦄ where
  pub after-ltb :
      (base a b : ℕ)
      → base ≤ a
      → a < base + 2_147_483_648
      → base ≤ b
      → b < base + 2_147_483_648
      → time_after a b ≡ ltb b a
  after-ltb base a b la ha lb hb = k.time_after_window a b (omega arith) (omega arith)

  module _ (n : AodvTask) where
    All-link_timer {κ} :
        (P : AodvTask → Type κ) (ts : List AodvTask) → P n → All P ts → All P (link_timer n ts)
    unfolding link_timer
    All-link_timer P [] h t = (h, tt)
    All-link_timer P (t ∷ ts) h a = elim (Bool-cases (time_after n.time t.time)) [
      | inl e ↦ rw e (a.0, All-link_timer P ts h a.1)
      | inr e ↦ rw e (h, a)
    ]

    All-le :
        (t : AodvTask) (ts : List AodvTask)
        → n.time ≤ t.time
        → All (λ (s : AodvTask). t.time ≤ s.time) ts
        → All (λ (s : AodvTask). n.time ≤ s.time) ts
    All-le t [] h a = tt
    All-le t (s ∷ ts) h a = (omega arith, All-le t ts h a.1)

    -- If the times of a sorted timer queue and of a new timer lie in one window of half the range,
    -- the queue that `queue_timer` makes is sorted.
    link_timer-IsSorted :
        (base : ℕ) (ts : List AodvTask)
        → InWindow base n
        → All (InWindow base) ts
        → IsSorted ts
        → IsSorted (link_timer n ts)
    unfolding link_timer
    link_timer-IsSorted base [] w a s = (tt, tt)
    link_timer-IsSorted base (t ∷ ts) w a s =
        let after = after-ltb base n.time t.time w.0 w.1 a.0.0 a.0.1 in
        elim (Bool-cases (ltb t.time n.time)) [
          | inl e ↦
              rw (after, e)
                (
                  All-link_timer (λ (s : AodvTask). t.time ≤ s.time) ts (ground arith) s.0,
                  link_timer-IsSorted base ts w a.1 s.1,
                )
          | inr e ↦
              let below : n.time ≤ t.time = ground arith in
              rw (after, e) ((below, All-le t ts below s.0), s)
        ]

    -- `queue_timer` adds the new timer and loses or doubles none, whatever the times.
    link_timer-perm : (ts : List AodvTask) → Perm (link_timer n ts) (n ∷ ts)
    unfolding link_timer
    link_timer-perm [] = Perm.refl _
    link_timer-perm (t ∷ ts) = elim (Bool-cases (time_after n.time t.time)) [
      | inl e ↦ rw e (Perm.trans (Perm.cons t (link_timer-perm ts)) (Perm.swap n t ts))
      | inr e ↦ rw e (Perm.refl _)
    ]
