-- ===== src/Device/Log.antt =====
-- What `local_broadcast` of kaodv/src/socket.c sends.
use mathlib.Core.Path.{subst}
use mathlib.Core.List.{append_assoc}
use mobile_cloud_caching.Prelude.{
  Option, none, some, ◌≢◌, ℕ, ◌+◌, ◌≡◌, refl, sym, ◌∙◌, ltb, ◌==◌, false, Bool-cases, inl, inr,
  List, [], ◌∷◌, ◌++◌, All, All-append, arith,
}
use mobile_cloud_caching.Types.{Ptr, null, AodvDev, Message}
use mobile_cloud_caching.World.{World, Event, ask, getcurrtime}
use mobile_cloud_caching.World.Gives
use mobile_cloud_caching.World.Gives.{Gives, gives}
use mobile_cloud_caching.World.Frame.{SameTables}
use mobile_cloud_caching.World.Healthy.{HasSocket}
use mobile_cloud_caching.Device.{broadcast_loop, local_broadcast}

-- The message went out on some device to the address; the time to live is none if the call left
-- that of the device's socket.
abbrev pub IsSent : ℕ → Option ℕ → Message → Event → Type 0
IsSent dst ttl m e = (dev : Ptr) × (e ≡ Event.sent dev dst ttl m)

-- Nothing was sent, or a message with the time to live, and later ones that do not set it. The
-- latest event is the first.
pub data Broadcast (dst ttl : ℕ) (m : Message) : List Event → Type 0 where
  silent : Broadcast dst ttl m []
  copies :
      (dev : Ptr) (later : List Event)
      → All (IsSent dst none m) later
      → Broadcast dst ttl m (later ++ Event.sent dev dst (some ttl) m ∷ [])

-- The log grew by the copies of a message and by nothing else.
pub record Sent (dst ttl : ℕ) (m : Message) (w w' : World) : Type 0 where
  pub events : List Event
  pub log : w'.log ≡ events ++ w.log
  pub all : Broadcast dst ttl m events
  pub same : SameTables w w'

record Repeated (dst : ℕ) (m : Message) (w w' : World) : Type 0 where
  events : List Event
  log : w'.log ≡ events ++ w.log
  all : All (IsSent dst none m) events
  same : SameTables w w'

broadcast_loop-Repeated :
    (dst : ℕ) (m : Message) (ds : List AodvDev) (w : World)
    → Gives (λ _ w'. Repeated dst m w w') (broadcast_loop dst none m ds w)
unfolding broadcast_loop ask
broadcast_loop-Repeated dst m [] w =
    gives (record { events = []; log = refl; all = tt; same = refl })
broadcast_loop-Repeated dst m (d ∷ ds) w = elim (Bool-cases (d.sock == null)) [
  | inl e ↦ rw e (gives (record { events = []; log = refl; all = tt; same = refl }))
  | inr e ↦ elim (Bool-cases (w.accepts w.requests)) [
    | inl a ↦
        rw (e, a)
          (Gives.weaken (broadcast_loop-Repeated dst m ds _) λ _ w' s. record {
            events = s.events ++ (Event.sent d.dev dst none m ∷ []);
            log = s.log ∙ sym (append_assoc s.events (Event.sent d.dev dst none m ∷ []) w.log);
            all = All-append (IsSent dst none m) s.events _ s.all ((d.dev, refl), tt);
            same = s.same;
          })
    | inr a ↦ rw (e, a) (gives (record { events = []; log = refl; all = tt; same = refl }))
  ]
]

broadcast_loop-Sent :
    (dst ttl : ℕ) (m : Message) (ds : List AodvDev) (w : World)
    → Gives (λ _ w'. Sent dst ttl m w w') (broadcast_loop dst (some ttl) m ds w)
unfolding broadcast_loop ask
broadcast_loop-Sent dst ttl m [] w =
    gives (record { events = []; log = refl; all = Broadcast.silent; same = refl })
broadcast_loop-Sent dst ttl m (d ∷ ds) w = elim (Bool-cases (d.sock == null)) [
  | inl e ↦ rw e (gives (record { events = []; log = refl; all = Broadcast.silent; same = refl }))
  | inr e ↦ elim (Bool-cases (w.accepts w.requests)) [
    | inl a ↦
        let first : Event = Event.sent d.dev dst (some ttl) m in
        rw (e, a)
          (Gives.weaken (broadcast_loop-Repeated dst m ds _) λ _ w' s. record {
            events = s.events ++ (first ∷ []);
            log = s.log ∙ sym (append_assoc s.events (first ∷ []) w.log);
            all = Broadcast.copies d.dev s.events s.all;
            same = s.same;
          })
    | inr a ↦
        rw (e, a) (gives (record { events = []; log = refl; all = Broadcast.silent; same = refl }))
  ]
]

abbrev asked : World → List AodvDev → World
asked w ds = record w { readings = w.readings + 1; requests = w.requests + 1; aodv_dev_list = ds }

from_asked :
    (w w' : World) (ds : List AodvDev)
    → w.aodv_dev_list ≡ ds
    → SameTables (asked w ds) w'
    → SameTables w w'
from_asked w w' ds e s = s ∙ λ i. record w {
  readings = w'.readings;
  allocations = w'.allocations;
  requests = w'.requests;
  log = w'.log;
  aodv_dev_list = sym e i;
}

-- If there is a device and each has a socket, `local_broadcast` meets no oops and changes no table
-- and no queue; all that it adds to the log is copies of the message to the broadcast address, of
-- which only the earliest is sent with the time to live that was asked for, and the later ones with
-- that of their device's socket.
pub local_broadcast-Sent :
    (ttl : ℕ) (m : Message) (w : World)
    → w.aodv_dev_list ≢ []
    → All HasSocket w.aodv_dev_list
    → Gives (λ _ w'. Sent w.g_broadcast_ip ttl m w w') (local_broadcast ttl m w)
unfolding local_broadcast ask getcurrtime
local_broadcast-Sent ttl m w device sockets = by_list w.aodv_dev_list refl
  where
    by_list :
        (ds : List AodvDev)
        → w.aodv_dev_list ≡ ds
        → Gives (λ _ w'. Sent w.g_broadcast_ip ttl m w w') (local_broadcast ttl m w)
    by_list [] e = absurd (device e)
    by_list (d ∷ ds) e = elim (Bool-cases (ltb ttl 1)) [
      | inl small ↦
          rw (small, local_broadcast)
            (gives (record { events = []; log = refl; all = Broadcast.silent; same = refl }))
      | inr large ↦
          let socket : (d.sock == null) ≡ false =
            ground (arith, (subst (All HasSocket) e sockets).0) in
          elim (Bool-cases (w.accepts w.requests)) [
            | inl a ↦
                simp (large, e, socket, a)
                  (Gives.weaken
                    (broadcast_loop-Sent w.g_broadcast_ip ttl m (d ∷ ds) (asked w (d ∷ ds)))
                    λ _ w' s. record {
                      events = s.events;
                      log = s.log;
                      all = s.all;
                      same = from_asked w w' (d ∷ ds) e s.same;
                    })
            | inr a ↦
                simp (large, e, socket, a)
                  (gives (record {
                    events = [];
                    log = refl;
                    all = Broadcast.silent;
                    same = from_asked w (asked w (d ∷ ds)) (d ∷ ds) e refl;
                  }))
          ]
    ]
