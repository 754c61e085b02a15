-- ===== src/Timers/Signal.antt =====
-- `timer_queue_signal` of kaodv/src/timer_queue.c, from the timer queue to the task queue.
use mathlib.Core.List.{append-nil, append_assoc}
use mobile_cloud_caching.Prelude.{
  ℕ, ◌+◌, ◌≤◌, ◌<◌, ◌≡◌, refl, sym, ap, ◌∙◌, ltb, leb, Bool, true, false, not, Bool-cases, inl, inr,
  List, [], ◌∷◌, ◌++◌, All, keep, keep-pass, keep-skip, arith,
}
use mobile_cloud_caching.Types.{AodvTask}
use mobile_cloud_caching.Kernel.{Kernel, time_before_eq}
use mobile_cloud_caching.World.{World, to_millis, getcurrtime}
use mobile_cloud_caching.World.Gives
use mobile_cloud_caching.World.Gives.{Gives, gives}
use mobile_cloud_caching.World.Frame.{SameTables}
use mathlib.Core.Path.{subst}
use mobile_cloud_caching.Tasks.{insert_task_from_timer}
use mobile_cloud_caching.Tasks.Fifo.{contents, IsQueue, contents-link_task}
use mobile_cloud_caching.Timers.{signal_loop, timer_queue_signal, update_timer_queue}
use mobile_cloud_caching.Timers.Order.{IsSorted, InWindow, after-ltb}

abbrev pub is_due : ℕ → AodvTask → Bool
is_due now t = leb t.time now

abbrev pub is_later : ℕ → AodvTask → Bool
is_later now t = ltb now t.time

abbrev Later : ℕ → AodvTask → Type 0
Later now t = now < t.time

keep-none : (now : ℕ) (ts : List AodvTask) → All (Later now) ts → keep (is_due now) ts ≡ []
keep-none now [] a = refl
keep-none now (t ∷ ts) a =
    let late : is_due now t ≡ false = ground arith in keep-skip _ t ts late ∙ keep-none now ts a.1

keep-All : (now : ℕ) (ts : List AodvTask) → All (Later now) ts → keep (is_later now) ts ≡ ts
keep-All now [] a = refl
keep-All now (t ∷ ts) a =
    let late : is_later now t ≡ true = ground arith in
    keep-pass _ t ts late ∙ ap (◌∷◌ t) (keep-All now ts a.1)

All-Later :
    (now : ℕ) (t : AodvTask) (ts : List AodvTask)
    → now < t.time
    → All (λ (s : AodvTask). t.time ≤ s.time) ts
    → All (Later now) ts
All-Later now t [] h a = tt
All-Later now t (s ∷ ts) h a = (omega arith, All-Later now t ts h a.1)

-- What the signal leaves: the due tasks are at the back of the task queue, the earliest first, and
-- the timer queue holds the others.
pub record Signalled (now : ℕ) (ts : List AodvTask) (w : World) (rest : List AodvTask) (w' : World)
    : Type 0 where
  pub moved : contents w'.task_queue ≡ contents w.task_queue ++ keep (is_due now) ts
  pub kept : rest ≡ keep (is_later now) ts
  pub queue : IsQueue w'.task_queue

module _ ⦃k : Kernel⦄ where
  before_eq-leb :
      (base a b : ℕ)
      → base ≤ a
      → a < base + 2_147_483_648
      → base ≤ b
      → b < base + 2_147_483_648
      → time_before_eq a b ≡ leb a b
  before_eq-leb base a b la ha lb hb =
      k.time_after_eq_not b a ∙ ap not (after-ltb base a b la ha lb hb) ∙ ground arith

  signal_loop-Signalled :
      (base now : ℕ) (ts : List AodvTask) (w : World)
      → base ≤ now
      → now < base + 2_147_483_648
      → All (InWindow base) ts
      → All (λ (t : AodvTask). 0 < t.addr) ts
      → IsSorted ts
      → IsQueue w.task_queue
      → Gives (Signalled now ts w) (signal_loop now ts w)
  unfolding signal_loop insert_task_from_timer
  signal_loop-Signalled base now [] w lo hi a p s q =
      gives (record { moved = sym (append-nil _); kept = refl; queue = q })
  signal_loop-Signalled base now (t ∷ ts) w lo hi a p s q =
      let test = before_eq-leb base t.time now a.0.0 a.0.1 lo hi in
      let linked = contents-link_task t w.task_queue q p.0 in
      elim (Bool-cases (leb t.time now)) [
        | inl e ↦
            let on_time : is_later now t ≡ false = ground arith in
            rw (test, e)
              (Gives.weaken (signal_loop-Signalled base now ts _ lo hi a.1 p.1 s.1 linked.1)
                λ rest w' r. record {
                  moved =
                      r.moved
                      ∙ ap (λ c. c ++ keep (is_due now) ts) linked.0
                      ∙ append_assoc (contents w.task_queue) (t ∷ []) (keep (is_due now) ts)
                      ∙ ap (◌++◌ (contents w.task_queue)) (sym (keep-pass _ t ts e));
                  kept = r.kept ∙ sym (keep-skip _ t ts on_time);
                  queue = r.queue;
                })
        | inr e ↦
            let late : now < t.time = ground arith in
            let all_late = All-Later now t ts late s.0 in
            rw (test, e)
              (gives (record {
                moved = sym (
                    ap (◌++◌ (contents w.task_queue))
                      (keep-skip _ t ts e ∙ keep-none now ts all_late)
                    ∙ append-nil _);
                kept =
                    sym (keep-pass _ t ts (ground arith) ∙ ap (◌∷◌ t) (keep-All now ts all_late));
                queue = q;
              }))
      ]

  pub update_timer_queue-SameTables :
      (w : World) → Gives (λ _ w'. SameTables w w') (update_timer_queue w)
  unfolding update_timer_queue getcurrtime
  update_timer_queue-SameTables w = by_queue w.timer_queue refl
    where
      by_queue :
          (ts : List AodvTask)
          → w.timer_queue ≡ ts
          → Gives (λ _ w'. SameTables w w') (update_timer_queue w)
      by_queue [] e = rw (e, update_timer_queue) (gives refl)
      by_queue (t ∷ ts) e = rw (e, update_timer_queue) (gives refl)

  -- If the times of a sorted timer queue and the clock lie in one window of half the range, the
  -- timers and tasks lie at addresses that are not null and the task queue is well formed, then
  -- `timer_queue_signal` meets no oops, puts exactly the timers that are due at the back of the
  -- task queue, the earliest first, leaves exactly the others in the timer queue, and keeps the
  -- task queue well formed.
  pub timer_queue_signal-Signalled :
      (base : ℕ) (w : World)
      → base ≤ to_millis (w.clock w.readings)
      → to_millis (w.clock w.readings) < base + 2_147_483_648
      → All (InWindow base) w.timer_queue
      → All (λ (t : AodvTask). 0 < t.addr) w.timer_queue
      → IsSorted w.timer_queue
      → IsQueue w.task_queue
      → Gives
          (λ _ w'. Signalled (to_millis (w.clock w.readings)) w.timer_queue w w'.timer_queue w')
          (timer_queue_signal w)
  unfolding timer_queue_signal getcurrtime
  timer_queue_signal-Signalled base w lo hi a p s q =
      Gives.bind (signal_loop-Signalled base _ w.timer_queue _ lo hi a p s q) λ rest w₁ r.
        Gives.weaken (update_timer_queue-SameTables _) λ _ w₂ f. record {
          moved = ap (λ (x : World). contents x.task_queue) f ∙ r.moved;
          kept = ap (λ (x : World). x.timer_queue) f ∙ r.kept;
          queue = subst (λ (x : World). IsQueue x.task_queue) (sym f) r.queue;
        }
