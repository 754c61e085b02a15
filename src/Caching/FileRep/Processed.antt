-- ===== src/Caching/FileRep/Processed.antt =====
-- `process_flrep` of caching/src/cFileRep.c: when the time for replies is over.
use mathlib.Core.List.{map}
use mobile_cloud_caching.Prelude.{
  ℕ, zero, suc, ◌+◌, ◌%◌, ◌≤◌, ◌≡◌, refl, ap, ◌∙◌, ◌==◌, Bool, true, false, some, List, [], ◌∷◌,
  length, Bool-cases, Option-cases, inl, inr, arith,
}
use mobile_cloud_caching.Prelude.Words.{inc32}
use mobile_cloud_caching.Prelude.Commands.{when}
use mobile_cloud_caching.Kernel.{Kernel}
use mobile_cloud_caching.Types.{Ptr}
use mobile_cloud_caching.Caching.Types.{CTask, CacheTable, FileRepInfo}
use mobile_cloud_caching.Caching.State.{State, Ret, ret}
use mobile_cloud_caching.Caching.Table.{update_ref, find_cache_by_fr, fragment_from, at_address}
use mobile_cloud_caching.Caching.FileRep.{held, use_all, expire_file, process_flrep}
use mobile_cloud_caching.Caching.FileRep.Replies.{is_reply}
use mobile_cloud_caching.Caching.FileRep.Asked.{Ample, Asked, Asked-Around, request_all-Asked}
use mobile_cloud_caching.Caching.FileRep.Choose.{Search, Chosen, complete, too_few, choose}
use mobile_cloud_caching.Caching.FileRep.Choose.Nearest.{UsedUp}
use mobile_cloud_caching.Caching.FileRep.Choose.Ends.{Outcome, Readable, start, choose-Ends}

-- An entry of the cache table but for its references.
abbrev pub unreferenced : CacheTable → CacheTable
unreferenced c = record c { refs = 0 }

-- Only references of cached fragments differ.
pub record Uses (s s' : State) : Type 0 where
  pub frame : s' ≡ record s { ctable = s'.ctable }
  pub entries : map unreferenced s'.ctable ≡ map unreferenced s.ctable

at_address-entries :
    (a : Ptr) (n : CacheTable → ℕ) (cs : List CacheTable)
    → map unreferenced (at_address a (λ e. record e { refs = n e }) cs) ≡ map unreferenced cs
unfolding at_address
at_address-entries a n [] = refl
at_address-entries a n (c ∷ cs) = elim (Bool-cases (c.addr == a)) [
  | inl e ↦ rw e refl
  | inr e ↦ rw e (ap (λ x. unreferenced c ∷ x) (at_address-entries a n cs))
]

pub update_ref-Uses :
    (file frag : ℕ) (s : State)
    → (r : Ret) × (s' : State) × (update_ref file frag s ≡ some (r, s')) × Uses s s'
unfolding update_ref find_cache_by_fr
update_ref-Uses file frag s = elim (Option-cases (fragment_from s.ctable file frag)) [
  | inl missing ↦ (ret 1, s, rw missing, record { frame = refl; entries = refl })
  | inr (c, found) ↦ (
    ret 0,
    record s { ctable = at_address c.addr (λ e. record e { refs = inc32 e.refs }) s.ctable },
    rw found,
    record { frame = refl; entries = at_address-entries c.addr _ s.ctable },
  )
]

Uses-trans : (s s₁ s₂ : State) → Uses s s₁ → Uses s₁ s₂ → Uses s s₂
Uses-trans s s₁ s₂ a b = record {
  frame = b.frame ∙ ap (λ (x : State). record x { ctable = s₂.ctable }) a.frame;
  entries = b.entries ∙ a.entries;
}

pub use_all-Uses :
    (act : Bool) (file : ℕ) (fs : List ℕ) (s : State)
    → (s' : State) × (when act (use_all file fs) s ≡ some (tt, s')) × Uses s s'
unfolding use_all
use_all-Uses false file fs s = (s, refl, record { frame = refl; entries = refl })
use_all-Uses true file [] s = (s, refl, record { frame = refl; entries = refl })
use_all-Uses true file (f ∷ fs) s =
    let (r, s₁, ran₁, first) = update_ref-Uses file f s in
    let (s₂, ran₂, others) = use_all-Uses true file fs s₁ in
    (s₂, rw ran₁ ran₂, Uses-trans s s₁ s₂ first others)

length-held : (file room : ℕ) (cs : List CacheTable) → length (held file room cs) ≤ room
unfolding held
length-held file room [] = omega arith
length-held file zero (c ∷ cs) = omega arith
length-held file (suc room) (c ∷ cs) = elim (Bool-cases (c.file_id == file)) [
  | inl e ↦ rw e (omega (arith, length-held file room cs))
  | inr e ↦ rw e (length-held file (suc room) cs)
]

expire_file-UsedUp : (file : ℕ) (rs : List FileRepInfo) → UsedUp file (expire_file file rs)
unfolding expire_file
expire_file-UsedUp file [] = tt
expire_file-UsedUp file (r ∷ rs) = elim (Bool-cases (is_reply file r)) [
  | inl e ↦ rw e (refl, expire_file-UsedUp file rs)
  | inr e ↦ rw e (e, expire_file-UsedUp file rs)
]

-- The counters and the table when there are enough fragments.
abbrev pub chosen : Search → List FileRepInfo → State → State
chosen t rs s = record s {
  rinfo = rs;
  c_energy = (s.c_energy + t.energy) % 4_294_967_296;
  c_success = inc32 s.c_success;
}

module _ ⦃k : Kernel⦄ where
  -- What becomes of a file's replies when the time for them is over.
  pub data Processed (file : ℕ) (s : State) : Ret → State → Type 0 where
    missing :
        {s₁ : State} (rs : List FileRepInfo)
        → Uses s s₁
        → Outcome file s.kval (held file s.kval s.ctable) s.rinfo (too_few rs)
        → Processed file s (ret 1) (record s₁ { rinfo = rs })
    asked :
        {s₁ s₂ : State} (t : Search) (rs : List FileRepInfo)
        → Uses s s₁
        → Outcome file s.kval (held file s.kval s.ctable) s.rinfo (complete t rs)
        → Asked file t.picks (chosen t rs s₁) s₂
        → s₂.rinfo ≡ rs
        → UsedUp file (expire_file file s₂.rinfo)
        → Processed file s (ret 0) (record s₂ { rinfo = expire_file file s₂.rinfo })

  processed :
      (task : CTask) (s s₁ : State)
      → Ample s
      → Uses s s₁
      → when s.g_act (use_all task.file_id (held task.file_id s.kval s.ctable)) s ≡ some (tt, s₁)
      → (c : Chosen)
      → choose
          (length s.rinfo + 1)
          s.kval
          task.file_id
          (start s.kval (held task.file_id s.kval s.ctable))
          s.rinfo
        ≡ some c
      → Outcome task.file_id s.kval (held task.file_id s.kval s.ctable) s.rinfo c
      → (r : Ret) × (s' : State) × (process_flrep task s ≡ some (r, s'))
        × Processed task.file_id s r s'
  unfolding process_flrep
  processed task s s₁ ample uses ran₁ (too_few rs) ran o =
      (ret 1, record s₁ { rinfo = rs }, simp (ran₁, ran) refl, Processed.missing rs uses o)
  processed task s s₁ ample uses ran₁ (complete t rs) ran o =
      let ample₁ : Ample (chosen t rs s₁) = λ n. rw uses.frame (ample n) in
      let (s₂, ran₂, a) = request_all-Asked task.file_id t.picks (chosen t rs s₁) ample₁ in
      (
        ret 0,
        record s₂ { rinfo = expire_file task.file_id s₂.rinfo },
        simp (ran₁, ran) (rw ran₂ refl),
        Processed.asked t rs uses o a (ap (λ (x : State). x.rinfo) (Asked-Around a))
            (expire_file-UsedUp task.file_id s₂.rinfo),
      )

  -- If allocations succeed and no reply for the file counts more fragments than its map lists, then
  -- `process_flrep` ends and meets no oops. Either the replies list too few fragments: all of them
  -- are used up, the result is 1, and besides that only references of cached fragments differ. Or
  -- the result is 0: as many fragments as were missing are picked, and each is asked of the node
  -- whose reply lists it, by a message that is in the log unless the socket turns it down. While
  -- the exchange is on, each pick is counted in the list of requests as well: it makes an entry
  -- with the count 1, or adds 1 to the count, or, at the threshold, sets the count back to 0, asks
  -- the neighbours for their scores, unless the socket turns that down, queues the timer that waits
  -- WAIT_EXCH_REP_TIME for them, and arms the kernel's timer for the first of the queue. No reply
  -- for the file stands any more.
  pub process_flrep-Processed :
      (task : CTask) (s : State)
      → Ample s
      → Readable task.file_id s.rinfo
      → (r : Ret) × (s' : State) × (process_flrep task s ≡ some (r, s'))
        × Processed task.file_id s r s'
  process_flrep-Processed task s ample readable =
      let buf = held task.file_id s.kval s.ctable in
      let (s₁, ran₁, uses) = use_all-Uses s.g_act task.file_id buf s in
      let (c, ran, outcome) =
        choose-Ends task.file_id s.kval buf s.rinfo (length-held task.file_id s.kval s.ctable)
          readable in
      processed task s s₁ ample uses ran₁ c ran outcome
