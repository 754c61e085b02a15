-- ===== src/Caching/Socket.antt =====
-- caching/src/cSocket.c: sending on the daemon's one socket. No caller reads what the two functions
-- return, so it is left out.
pub mod Said
use mobile_cloud_caching.Prelude.{
  ℕ, zero, suc, ◌+◌, ◌-◌, ◌*◌, ◌/◌, ◌%◌, ◌<◌, ◌≤◌, ◌≡◌, ◌≢◌, refl, sym, ap, ◌∙◌, ◌⊎◌, inl, inr, ltb,
  leb, ltb→lt, leb→le, ◌==◌, ◌&&◌, ◌||◌, not, Bool, true, false, Option, none, some, List, [], ◌∷◌,
  ◌++◌, length, keep, keep-pass, keep-skip, All, All-append, Bool-cases, Option-cases,
  if◌then◌else◌, arith,
}
use mobile_cloud_caching.Prelude.Commands.{◌>>◌, pure, ◌>>=◌, get, when}
use mobile_cloud_caching.Caching.Types.{Message}
use mobile_cloud_caching.Caching.State.{ret, Ret, kmalloc, Cmd, emit, Event, ask}

unfoldable pub local_broadcast : ℕ → Message → Cmd (Unit {0})
unfolding ask
local_broadcast ttl message = if ltb ttl 1 then pure tt else do
  taken ← ask
  if taken
      then (do room ← ask; s ← get; when room (emit (Event.sent s.g_broadcast_ip ttl message)))
      else pure tt

unfoldable pub send_message : ℕ → ℕ → Message → Cmd (Unit {0})
unfolding ask
send_message dst_ip ttl message = if ttl == 0 then pure tt else do
  room ← ask
  taken ← ask
  if taken then when room (emit (Event.sent dst_ip ttl message)) else pure tt

-- The shape of every function that makes a message: a block is taken, and if there is one, the
-- message is written to it and sent.
unfoldable pub in_block : Cmd (Unit {0}) → Cmd Ret
unfolding kmalloc
in_block send = do
  block ← kmalloc
  elim block [ none ↦ pure (ret 0) | some _ ↦ do send; pure (ret 0) ]
