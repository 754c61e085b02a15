-- ===== src/PacketQueue/Drain.antt =====
-- The loops of kaodv/src/packet_queue.c over `ipq_dequeue`: they end, and what they leave behind.
use mobile_cloud_caching.Prelude.{
  ℕ, zero, suc, ◌≤◌, ◌<◌, ◌≡◌, refl, sym, ◌∙◌, ap, ◌⊎◌, inl, inr, Bool, not, Option, none, some,
  List, [], ◌∷◌, ◌++◌, length, keep, keep-pass, keep-skip, Bool-cases, arith,
}
use mobile_cloud_caching.Prelude.Words.{dec32}
use mobile_cloud_caching.PacketQueue.{
  Entry, Packets, IpqQueue, Fate, passes, take_first, ipq_dequeue, dequeue_loop,
}

-- The queue stands, its count is the length of the list, and no count leaves the positive `int`s.
pub record IsReady (s : Packets) : Type 0 where
  pub queue : IpqQueue
  pub here : s.block ≡ some queue
  pub counted : queue.len ≡ length s.q_list
  pub within : length s.q_list ≤ queue.maxlen
  pub small : queue.maxlen < 2_147_483_648

-- The entries that fail a test, in order.
abbrev pub others : (Entry → Bool) → List Entry → List Entry
others test = keep (λ e. not (test e))

-- The log after a body's calls for each entry in turn.
abbrev pub calls : (Entry → List Fate) → List Entry → List Fate → List Fate
calls body [] log = log
calls body (e ∷ es) log = calls body es (body e ++ log)

-- What a loop leaves behind that takes out the entries that pass a test.
pub record Drained (test : Entry → Bool) (body : Entry → List Fate) (s s' : Packets) : Type 0 where
  pub ready : IsReady s'
  pub left : s'.q_list ≡ others test s.q_list
  pub logged : s'.log ≡ calls body (keep test s.q_list) s.log
  pub same_q : s'.q ≡ s.q
  pub same_registered : s'.registered ≡ s.registered

abbrev Missed : (Entry → Bool) → List Entry → Type 0
Missed test es = (take_first test es ≡ none) × (keep test es ≡ []) × (others test es ≡ es)

record Taken (test : Entry → Bool) (es : List Entry) : Type 0 where
  entry : Entry
  rest : List Entry
  found : take_first test es ≡ some (entry, rest)
  passed : keep test es ≡ entry ∷ keep test rest
  failed : others test es ≡ others test rest
  fewer : length es ≡ suc (length rest)

take_cases : (test : Entry → Bool) (es : List Entry) → Missed test es ⊎ Taken test es
unfolding take_first
take_cases test [] = inl (refl, refl, refl)
take_cases test (e ∷ es) = elim (Bool-cases (test e)) [
  | inl hit ↦ inr (record {
    entry = e;
    rest = es;
    found = rw hit;
    passed = keep-pass test e es hit;
    failed = keep-skip _ e es (rw hit);
    fewer = refl;
  })
  | inr miss ↦
      let skipped = keep-skip test e es miss in
      let kept = λ (l : List Entry). keep-pass (λ x. not (test x)) e l (rw miss) in
      elim (take_cases test es) [
        | inl (n, p, f) ↦ inl (rw (miss, n), skipped ∙ p, kept es ∙ ap (◌∷◌ e) f)
        | inr t ↦ inr (record {
          entry = t.entry;
          rest = e ∷ t.rest;
          found = rw (miss, t.found);
          passed = skipped ∙ t.passed ∙ ap (◌∷◌ t.entry) (sym (keep-skip test e t.rest miss));
          failed = kept es ∙ ap (◌∷◌ e) t.failed ∙ sym (kept t.rest);
          fewer = omega (arith, t.fewer);
        })
      ]
]

-- The state that `ipq_dequeue` leaves when it has taken an entry out.
abbrev without : Packets → IpqQueue → List Entry → List Fate → Packets
without s g rest log = record s {
  block = some (record g { len = dec32 g.len });
  q_list = rest;
  log = log;
}

without-IsReady :
    (s : Packets) (v : IsReady s) (rest : List Entry) (log : List Fate)
    → length s.q_list ≡ suc (length rest)
    → IsReady (without s v.queue rest log)
without-IsReady s v rest log fewer = record {
  queue = record v.queue { len = dec32 v.queue.len };
  here = refl;
  counted = omega (arith, v.counted, v.within, v.small);
  within = omega (arith, v.within);
  small = v.small;
}

-- On a packet queue that stands, a loop over `ipq_dequeue` ends within one round for each packet in
-- the list and one more, meets no oops, takes out exactly the packets that pass its test, with the
-- calls for each in their order, leaves the others in order, and leaves the queue standing.
pub dequeue_loop-Drained :
    (fuel : ℕ) (cmp : Option (Entry → ℕ → Bool)) (datum : ℕ) (body : Entry → List Fate)
    (s : Packets)
    → length s.q_list < fuel
    → IsReady s
    → (s' : Packets) × (dequeue_loop fuel cmp datum body s ≡ some s')
      × Drained (passes cmp datum) body s s'
unfolding dequeue_loop ipq_dequeue
dequeue_loop-Drained zero cmp datum body s enough v = absurd (omega arith)
dequeue_loop-Drained (suc fuel) cmp datum body s enough v =
    elim (take_cases (passes cmp datum) s.q_list) [
      | inl (n, p, f) ↦ (
        s,
        rw (n, ipq_dequeue, dequeue_loop),
        record { ready = v; left = sym f; logged = rw p; same_q = refl; same_registered = refl },
      )
      | inr t ↦
          let log = body t.entry ++ s.log in
          let rest =
            dequeue_loop-Drained fuel cmp datum body (without s v.queue t.rest log)
              (omega (arith, t.fewer)) (without-IsReady s v t.rest log t.fewer) in
          (
            rest.0,
            rw (t.found, v.here, ipq_dequeue, dequeue_loop) rest.1,
            record {
              ready = rest.2.ready;
              left = rest.2.left ∙ sym t.failed;
              logged = rest.2.logged ∙ sym (ap (λ l. calls body l s.log) t.passed);
              same_q = rest.2.same_q;
              same_registered = rest.2.same_registered;
            },
          )
    ]
