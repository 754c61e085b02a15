-- ===== src/Caching/Timer/Queued.antt =====
-- The timers of caching/src/cTimer.c: a timer that is set waits in the queue, and nothing else
-- changes but the clock, the memory and the kernel's timer.
use mobile_cloud_caching.Prelude.Commands.{◌>>◌}
use mobile_cloud_caching.Prelude.Words.{add64}
use mobile_cloud_caching.Prelude.{
  sym, ℕ, ◌+◌, ◌%◌, ◌≡◌, refl, ap, ◌∙◌, ◌⊎◌, inl, inr, none, some, List, [], ◌∷◌, Option-cases,
}
use mobile_cloud_caching.Kernel.{Kernel}
use mobile_cloud_caching.Types.{Ptr}
use mobile_cloud_caching.World.{Timeval}
use mobile_cloud_caching.Caching.Types.{CTask}
use mobile_cloud_caching.Caching.State.{ret, enomem, fail, State, Ret, Event, to_millis}
use mobile_cloud_caching.Caching.Task.{blank_task}
use mobile_cloud_caching.Caching.Timer.{link_timer, insert_timer, delay_parts, update_timer_queue}

module _ ⦃k : Kernel⦄ where
  -- The task that `insert_timer` makes of a block.
  abbrev pub timer_for : ℕ → ℕ → ℕ → ℕ → ℕ → ℕ → State → CTask
  timer_for addr kind delay ip file frag s =
      record (blank_task addr (to_millis (s.clock s.readings)) (kind % 256)) {
        src_ip = ip;
        dst_ip = ip;
        file_id = file;
        frag_id = frag;
        time = add64 (to_millis (s.clock (s.readings + 1))) delay;
      }

  -- One timer more waits, with what it is for and for how long, unless there was no memory for it.
  pub record Inserted (kind delay ip file frag : ℕ) (s s' : State) : Type 0 where
    pub frame : s' ≡ record s {
      readings = s'.readings;
      allocations = s'.allocations;
      timer_queue = s'.timer_queue;
    }
    pub queued :
        ((s.memory s.allocations ≡ none) × (s'.timer_queue ≡ s.timer_queue))
        ⊎ ((addr : Ptr) × (s.memory s.allocations ≡ some addr)
            × (s'.timer_queue
                ≡ link_timer (timer_for addr kind delay ip file frag s) s.timer_queue))

  -- What `update_timer_queue` asks of the kernel's timer.
  abbrev pub arming : ℕ → List CTask → Event
  arming now [] = Event.timer_deleted
  arming now (t ∷ ts) = let parts = delay_parts now t.time in Event.timer_armed parts.0 parts.1

  -- And the kernel's timer is armed for the first of the queue, by a reading of the clock.
  pub record Queued (kind delay ip file frag : ℕ) (s s' : State) : Type 0 where
    pub frame : s' ≡ record s {
      readings = s'.readings;
      allocations = s'.allocations;
      timer_queue = s'.timer_queue;
      log = s'.log;
    }
    pub queued :
        ((s.memory s.allocations ≡ none) × (s'.timer_queue ≡ s.timer_queue))
        ⊎ ((addr : Ptr) × (s.memory s.allocations ≡ some addr)
            × (s'.timer_queue
                ≡ link_timer (timer_for addr kind delay ip file frag s) s.timer_queue))
    pub armed : (n : ℕ) × (s'.log ≡ arming (to_millis (s.clock n)) s'.timer_queue ∷ s.log)

  pub insert_timer-Inserted :
      (kind delay ip file frag : ℕ) (s : State)
      → (r : Ret) × (s' : State) × (insert_timer kind delay ip file frag s ≡ some (r, s'))
        × Inserted kind delay ip file frag s s'
  unfolding insert_timer blank_task
  insert_timer-Inserted kind delay ip file frag s = elim (Option-cases (s.memory s.allocations)) [
    | inl e ↦ (
      fail enomem,
      record s { allocations = s.allocations + 1 },
      rw e,
      record { frame = refl; queued = inl (e, refl) },
    )
    | inr (addr, e) ↦ (
      ret 0,
      record s {
        allocations = s.allocations + 1;
        readings = s.readings + 1 + 1 + 1;
        timer_queue = link_timer (timer_for addr kind delay ip file frag s) s.timer_queue;
      },
      rw e,
      record { frame = refl; queued = inr (addr, e, refl) },
    )
  ]

  -- `update_timer_queue` looks at the clock and sets the kernel's timer.
  pub update_timer_queue-armed :
      (s : State)
      → (s' : State) × (update_timer_queue s ≡ some (tt, s'))
        × (s' ≡ record s { readings = s'.readings; log = s'.log })
        × (s'.log ≡ arming (to_millis (s.clock s.readings)) s.timer_queue ∷ s.log)
  unfolding update_timer_queue
  update_timer_queue-armed s = by_queue s.timer_queue refl
    where
      by_queue :
          (q : List CTask)
          → s.timer_queue ≡ q
          → (s' : State) × (update_timer_queue s ≡ some (tt, s'))
            × (s' ≡ record s { readings = s'.readings; log = s'.log })
            × (s'.log ≡ arming (to_millis (s.clock s.readings)) s.timer_queue ∷ s.log)
      by_queue [] e = (record s { log = Event.timer_deleted ∷ s.log }, rw e, refl, rw e refl)
      by_queue (t ∷ ts) e =
          let parts = delay_parts (to_millis (s.clock s.readings)) t.time in
          (
            record s { readings = s.readings + 1; log = Event.timer_armed parts.0 parts.1 ∷ s.log },
            rw e,
            refl,
            rw e refl,
          )

  -- A timer is set and the kernel's timer is brought in line.
  pub set_timer-Queued :
      (kind delay ip file frag : ℕ) (s : State)
      → (s' : State) × ((insert_timer kind delay ip file frag >> update_timer_queue) s
          ≡ some (tt, s'))
        × Queued kind delay ip file frag s s'
  set_timer-Queued kind delay ip file frag s =
      let (r, s₁, ran, q) = insert_timer-Inserted kind delay ip file frag s in
      let (s₂, ran₂, frame, log) = update_timer_queue-armed s₁ in
      let tables : s₂.timer_queue ≡ s₁.timer_queue = ap (λ (x : State). x.timer_queue) frame in
      let blocks : s₂.allocations ≡ s₁.allocations = ap (λ (x : State). x.allocations) frame in
      let clocks : s₁.clock ≡ s.clock = ap (λ (x : State). x.clock) q.frame in
      let logs : s₁.log ≡ s.log = ap (λ (x : State). x.log) q.frame in
      let armed : s₂.log ≡ arming (to_millis (s.clock s₁.readings)) s₂.timer_queue ∷ s.log =
        log
        ∙ ap (λ (c : ℕ → Timeval). arming (to_millis (c s₁.readings)) s₁.timer_queue ∷ s₁.log)
            clocks
        ∙ ap (λ l. arming (to_millis (s.clock s₁.readings)) s₁.timer_queue ∷ l) logs
        ∙ ap (λ q. arming (to_millis (s.clock s₁.readings)) q ∷ s.log) (sym tables) in
      let whole : s₂ ≡ record s {
        readings = s₂.readings;
        allocations = s₁.allocations;
        timer_queue = s₁.timer_queue;
        log = s₂.log;
      } =
        frame ∙ ap (λ (x : State). record x { readings = s₂.readings; log = s₂.log }) q.frame in
      (
        s₂,
        rw ran ran₂,
        record {
          frame = rw (blocks, tables) whole;
          queued = rw tables q.queued;
          armed = (s₁.readings, armed);
        },
      )
