-- ===== src/Tasks/Fifo.antt =====
-- The task queue of kaodv/src/task_queue.c by the order of its tasks, and its clean-up.
use mathlib.Core.List.{reverse, reverse-append, head?, tail}
use mobile_cloud_caching.Prelude.{
  ℕ, ◌<◌, ◌≡◌, ◌≢◌, refl, ap, ◌∙◌, ◌==◌, if◌then◌else◌, Option, none, some, List, [], ◌∷◌, ◌++◌,
  All, arith,
}
use mobile_cloud_caching.Types.{null, AodvTask}
use mobile_cloud_caching.World.{TaskQueue}
use mobile_cloud_caching.Tasks.{link_task, split_last, last_addr, take_task, cleanup}

-- The tasks in the order in which the thread gets them.
abbrev pub contents : TaskQueue → List AodvTask
contents q = reverse q.items

-- `task_end` leads to the last task, and is null exactly for an empty queue.
pub record IsQueue (q : TaskQueue) : Type 0 where
  pub allocated : All (λ (t : AodvTask). 0 < t.addr) q.items
  pub end : q.task_end ≡ last_addr q.items

last_addr-pos :
    (t : AodvTask) (ts : List AodvTask)
    → All (λ (t : AodvTask). 0 < t.addr) (t ∷ ts)
    → 0 < last_addr (t ∷ ts)
unfolding last_addr
last_addr-pos t [] a = a.0
last_addr-pos t (u ∷ ts) a = last_addr-pos u ts a.1

-- A non-empty list has a last task.
record Split (ts : List AodvTask) : Type 0 where
  front : List AodvTask
  last : AodvTask
  found : split_last ts ≡ some (front, last)
  joined : ts ≡ front ++ last ∷ []
  addr : last_addr ts ≡ last.addr

split : (t : AodvTask) (ts : List AodvTask) → Split (t ∷ ts)
unfolding split_last last_addr
split t [] = record { front = []; last = t; found = refl; joined = refl; addr = refl }
split t (u ∷ ts) =
    let s = split u ts in
    record {
      front = t ∷ s.front;
      last = s.last;
      found = rw (s.found);
      joined = ap (◌∷◌ t) s.joined;
      addr = s.addr;
    }

link-end :
    (t : AodvTask) (end : ℕ) (items : List AodvTask)
    → All (λ (t : AodvTask). 0 < t.addr) items
    → end ≡ last_addr items
    → (if end == null then t.addr else end) ≡ last_addr (t ∷ items)
unfolding last_addr
link-end t end [] a e = ground arith
link-end t end (u ∷ us) a e = ground (arith, last_addr-pos u us a)

empty-end : null ≡ last_addr []
unfolding last_addr
empty-end = refl

-- `queue_aodv_task` puts a task at the back of a well-formed task queue, behind all that were
-- there, and keeps the queue well formed, if the task lies at an address that is not null.
pub contents-link_task :
    (t : AodvTask) (q : TaskQueue)
    → IsQueue q
    → 0 < t.addr
    → (contents (link_task t q) ≡ contents q ++ t ∷ []) × IsQueue (link_task t q)
unfolding link_task last_addr
contents-link_task t q v pos = (
  reverse-append (t ∷ []) q.items,
  record { allocated = (pos, v.allocated); end = link-end t q.task_end q.items v.allocated v.end },
)

-- What a call of `get_task` does to a queue: nothing to an empty one, and from any other it takes
-- the first task and leaves the others in order.
abbrev pub Taken : TaskQueue → Option AodvTask → TaskQueue → Type 0
Taken q r q' = (r ≡ head? (contents q)) × (contents q' ≡ tail (contents q)) × IsQueue q'

All-front :
    (front : List AodvTask) (last : AodvTask)
    → All (λ (t : AodvTask). 0 < t.addr) (front ++ last ∷ [])
    → All (λ (t : AodvTask). 0 < t.addr) front
All-front [] last a = tt
All-front (t ∷ ts) last a = (a.0, All-front ts last a.1)

abbrev queue_of : List AodvTask → ℕ → List ℕ → TaskQueue
queue_of items end behind = record { items = items; task_end = end; behind = behind }

abbrev TakenFrom : TaskQueue → Type 0
TakenFrom q = (r : Option AodvTask) × (q' : TaskQueue) × (take_task q ≡ some (r, q')) × Taken q r q'

-- The queue by the tasks in front of the last one.
taken :
    (front : List AodvTask) (last : AodvTask) (items : List AodvTask) (end : ℕ) (behind : List ℕ)
    → split_last items ≡ some (front, last)
    → items ≡ front ++ last ∷ []
    → end ≡ last.addr
    → 0 < end
    → All (λ (t : AodvTask). 0 < t.addr) items
    → TakenFrom (queue_of items end behind)
unfolding take_task
taken [] last items end behind found joined e pos a = (
  some last,
  queue_of [] null [],
  ground arith,
  (rw joined, rw joined, record { allocated = tt; end = empty-end }),
)
taken (t ∷ front) last items end behind found joined e pos a = (
  some last,
  queue_of (t ∷ front) (last_addr (t ∷ front)) (last.addr ∷ behind),
  ground arith,
  (
    rw (joined, reverse-append (t ∷ front) (last ∷ [])),
    rw (joined, reverse-append (t ∷ front) (last ∷ [])),
    record { allocated = All-front (t ∷ front) last (rw joined at a); end = refl },
  ),
)

take-any :
    (items : List AodvTask) (end : ℕ) (behind : List ℕ)
    → All (λ (t : AodvTask). 0 < t.addr) items
    → end ≡ last_addr items
    → TakenFrom (queue_of items end behind)
unfolding take_task last_addr
take-any [] end behind a e =
    (none, queue_of [] end behind, rw e, (refl, refl, record { allocated = tt; end = e }))
take-any (t ∷ ts) end behind a e =
    let s = split t ts in
    taken s.front s.last (t ∷ ts) end behind s.found s.joined (e ∙ s.addr)
      (omega (arith, last_addr-pos t ts a)) a

-- On a well-formed task queue `get_task` meets no oops: it returns the task that was queued first,
-- or nothing from an empty queue, leaves the others in order, and keeps the queue well formed.
pub take_task-Taken :
    (q : TaskQueue)
    → IsQueue q
    → (r : Option AodvTask) × (q' : TaskQueue) × (take_task q ≡ some (r, q')) × Taken q r q'
take_task-Taken q v = take-any q.items q.task_end q.behind v.allocated v.end

-- When `get_task` has taken a task from a queue of two or more, `cleanup_task_queue` reads memory
-- behind the end of the queue that the thread has freed.
pub cleanup-take_task :
    (t u : AodvTask) (ts : List AodvTask) (q : TaskQueue) {r : Option AodvTask} {q' : TaskQueue}
    → q.items ≡ t ∷ u ∷ ts
    → q.task_end ≢ null
    → take_task q ≡ some (r, q')
    → cleanup q' ≡ none
unfolding take_task split_last cleanup
cleanup-take_task t u ts q e pos got = let s = split u ts in ground (arith, s.found)
