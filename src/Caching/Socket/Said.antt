-- ===== src/Caching/Socket/Said.antt =====
-- Sending by caching/src/cSocket.c: a message is in the log exactly if there was a block for it, it had
-- hops to live, and the socket took it; and nothing but the socket and the log changes.
use mobile_cloud_caching.Prelude.{
  ℕ, ◌+◌, ◌≡◌, ◌≢◌, refl, ap, ◌⊎◌, inl, inr, ltb, ◌==◌, true, false, Option, none, some, ◌∷◌,
  Bool-cases, Option-cases, arith,
}
use mobile_cloud_caching.Caching.Types.{Message}
use mobile_cloud_caching.Caching.State.{ret, Cmd, State, Event}
use mobile_cloud_caching.Caching.Socket.{in_block, local_broadcast, send_message}

-- The socket sets the time to live and has room for the message.
abbrev pub Accepts : State → Type 0
Accepts s = (s.accepts s.requests ≡ true) × (s.accepts (s.requests + 1) ≡ true)

-- Why a message stays: it has no hops to live, or the socket turns one of the two requests down.
pub data Refused (e : Event) (s : State) : Type 0 where
  no_hops : (dst_ip : ℕ) (m : Message) → e ≡ Event.sent dst_ip 0 m → Refused e s
  turned_down : (s.accepts s.requests ≡ false) ⊎ (s.accepts (s.requests + 1) ≡ false) → Refused e s

-- A message that is there was sent, or refused.
pub record Spoken (e : Event) (s s' : State) : Type 0 where
  pub frame : s' ≡ record s { requests = s'.requests; allocations = s'.allocations; log = s'.log }
  pub logged : ((s'.log ≡ e ∷ s.log) × Accepts s) ⊎ ((s'.log ≡ s.log) × Refused e s)

-- A message that takes a block was sent or refused, or there was no memory for it.
pub record Said (e : Event) (s s' : State) : Type 0 where
  pub frame : s' ≡ record s { requests = s'.requests; allocations = s'.allocations; log = s'.log }
  pub logged :
      ((s'.log ≡ e ∷ s.log) × Accepts s)
      ⊎ ((s'.log ≡ s.log) × ((s.memory s.allocations ≡ none) ⊎ Refused e s))

-- With memory there is a message.
pub Said-Spoken :
    {e : Event} {s s' : State} → Said e s s' → s.memory s.allocations ≢ none → Spoken e s s'
Said-Spoken said memory = record {
  frame = said.frame;
  logged = elim said.logged [
    | inl sent ↦ inl sent
    | inr (same, inl no_memory) ↦ absurd (memory no_memory)
    | inr (same, inr refused) ↦ inr (same, refused)
  ];
}

abbrev pub Says : Event → State → Option (Unit {0} × State) → Type 0
Says e s r = (s' : State) × (r ≡ some (tt, s')) × Spoken e s s'

pub send_message-Says :
    (dst_ip ttl : ℕ) (m : Message) (s : State)
    → Says (Event.sent dst_ip ttl m) s (send_message dst_ip ttl m s)
unfolding send_message
send_message-Says dst_ip ttl m s = elim (Bool-cases (ttl == 0)) [
  | inl stop ↦
      let zero_ttl : ttl ≡ 0 = ground arith in
      (
        s,
        rw stop,
        record {
          frame = refl;
          logged = inr (refl, Refused.no_hops dst_ip m (ap (λ n. Event.sent dst_ip n m) zero_ttl));
        },
      )
  | inr go ↦ elim (Bool-cases (s.accepts (s.requests + 1))) [
    | inr refused ↦ (
      record s { requests = s.requests + 1 + 1 },
      rw (go, refused),
      record { frame = refl; logged = inr (refl, Refused.turned_down (inr refused)) },
    )
    | inl taken ↦ elim (Bool-cases (s.accepts s.requests)) [
      | inr full ↦ (
        record s { requests = s.requests + 1 + 1 },
        rw (go, taken, full),
        record { frame = refl; logged = inr (refl, Refused.turned_down (inl full)) },
      )
      | inl room ↦ (
        record s { requests = s.requests + 1 + 1; log = Event.sent dst_ip ttl m ∷ s.log },
        rw (go, taken, room),
        record { frame = refl; logged = inl (refl, (room, taken)) },
      )
    ]
  ]
]

pub local_broadcast-Says :
    (ttl : ℕ) (m : Message) (s : State)
    → Says (Event.sent s.g_broadcast_ip ttl m) s (local_broadcast ttl m s)
unfolding local_broadcast
local_broadcast-Says ttl m s = elim (Bool-cases (ltb ttl 1)) [
  | inl stop ↦
      let zero_ttl : ttl ≡ 0 = ground arith in
      (
        s,
        rw stop,
        record {
          frame = refl;
          logged = inr (
            refl,
            Refused.no_hops s.g_broadcast_ip m (ap (λ n. Event.sent s.g_broadcast_ip n m) zero_ttl),
          );
        },
      )
  | inr go ↦ elim (Bool-cases (s.accepts s.requests)) [
    | inr refused ↦ (
      record s { requests = s.requests + 1 },
      rw (go, refused),
      record { frame = refl; logged = inr (refl, Refused.turned_down (inl refused)) },
    )
    | inl taken ↦ elim (Bool-cases (s.accepts (s.requests + 1))) [
      | inr full ↦ (
        record s { requests = s.requests + 1 + 1 },
        rw (go, taken, full),
        record { frame = refl; logged = inr (refl, Refused.turned_down (inr full)) },
      )
      | inl room ↦ (
        record s { requests = s.requests + 1 + 1; log = Event.sent s.g_broadcast_ip ttl m ∷ s.log },
        rw (go, taken, room),
        record { frame = refl; logged = inl (refl, (taken, room)) },
      )
    ]
  ]
]

-- Taking a block asks nothing of the socket.
Refused-block :
    (e : Event) (s : State) → Refused e (record s { allocations = s.allocations + 1 }) → Refused e s
Refused-block e s (Refused.no_hops dst_ip m same) = Refused.no_hops dst_ip m same
Refused-block e s (Refused.turned_down why) = Refused.turned_down why

-- A message is made in a new block and sent, as all the functions that make messages do.
pub in_block-Said :
    (send : Cmd (Unit {0})) (e : Event) (s : State)
    → Says e
        (record s { allocations = s.allocations + 1 })
        (send (record s { allocations = s.allocations + 1 }))
    → (s' : State) × (in_block send s ≡ some (ret 0, s')) × Said e s s'
unfolding in_block
in_block-Said send e s said = elim (Option-cases (s.memory s.allocations)) [
  | inl no_memory ↦ (
    record s { allocations = s.allocations + 1 },
    rw no_memory,
    record { frame = refl; logged = inr (refl, inl no_memory) },
  )
  | inr (addr, made) ↦ (
    said.0,
    rw (made, said.1),
    record {
      frame = said.2.frame;
      logged = elim said.2.logged [
        | inl sent ↦ inl sent
        | inr (same, why) ↦ inr (same, inr (Refused-block e s why))
      ];
    },
  )
]
