-- ===== src/Timers/Delete.antt =====
-- `find_timer` and `delete_timer` of kaodv/src/timer_queue.c, and the delay of a repeated request.
use mobile_cloud_caching.Prelude.{
  ℕ, zero, suc, ◌-◌, ◌*◌, ◌^◌, ◌≤◌, ◌<◌, ◌≡◌, ◌≢◌, refl, ◌==◌, if◌then◌else◌, ◌&&◌, List, [], ◌∷◌,
  All, arith,
}
use mobile_cloud_caching.Types.{null, AodvTask}
use mobile_cloud_caching.Kernel.{Kernel}
use mobile_cloud_caching.Timers.{is_timer, find_walk, delete_matches, link_timer, rreq_delay}

-- After `delete_timer` a search for its identifier and type finds nothing, even if there were
-- several, and every other search finds what it found before.
find_walk-delete_matches :
    (id kind id' kind' : ℕ) (ts : List AodvTask)
    → find_walk id' kind' (delete_matches id kind ts)
      ≡ (if (id == id') && (kind == kind') then null else find_walk id' kind' ts)
unfolding find_walk delete_matches is_timer
find_walk-delete_matches id kind id' kind' [] = ground arith
find_walk-delete_matches id kind id' kind' (t ∷ ts) =
    ground (arith, find_walk-delete_matches id kind id' kind' ts)

module _ ⦃k : Kernel⦄ where
  -- If the timers lie at addresses that are not null, a search for the identifier and type of a
  -- timer that was just queued does not come back empty.
  pub find_walk-link_timer :
      (t : AodvTask) (ts : List AodvTask)
      → 0 < t.addr
      → All (λ (s : AodvTask). 0 < s.addr) ts
      → find_walk t.id t.kind (link_timer t ts) ≢ null
  unfolding find_walk link_timer is_timer
  find_walk-link_timer t [] pos a = ground arith
  find_walk-link_timer t (s ∷ ts) pos a = ground (arith, find_walk-link_timer t ts pos a.1)

rreq_delay_values : (rreq_delay 2 ≡ 1600) × (rreq_delay 1 ≡ 2400) × (rreq_delay 0 ≡ 0)
unfolding rreq_delay
rreq_delay_values = (refl, refl, refl)

-- For no number of retries up to RREQ_RETRIES is the delay of a repeated request 2 to the power of
-- the tries that were made times NET_TRAVERSAL_TIME: `^` is the exclusive or in C.
rreq_delay-ne-pow : (r : ℕ) → r ≤ 2 → rreq_delay r ≢ 2 ^ (2 - r) * 800
rreq_delay-ne-pow zero h = omega (arith, rreq_delay_values.2)
rreq_delay-ne-pow (suc zero) h = omega (arith, rreq_delay_values.1)
rreq_delay-ne-pow (suc (suc zero)) h = omega (arith, rreq_delay_values.0)
rreq_delay-ne-pow (suc (suc (suc r))) h = absurd (omega arith)
