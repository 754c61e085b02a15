-- ===== src/Device.antt =====
-- The list of devices of kaodv/src/aodv_dev.c, and the sending of kaodv/src/socket.c. What the
-- sockets answer is the environment's; a message that is sent is an entry of the log.
pub mod Safe
pub mod Log
use mobile_cloud_caching.Prelude.{
  ℕ, ltb, ◌==◌, if◌then◌else◌, not, Bool, true, false, Option, none, some, List, [], ◌∷◌,
}
use mobile_cloud_caching.Types.{Ptr, null, AodvDev, Message}
use mobile_cloud_caching.Kernel.{Kernel}
use mobile_cloud_caching.World.{
  World, Cmd, pure, oops, when, ◌>>=◌, ◌>>◌, get, emit, Event, Ret, ret, fail, enomem, ehostunreach,
  enodev, ask, getcurrtime,
}
use mobile_cloud_caching.World.Memory.{load_route}
use mobile_cloud_caching.Route.{find_aodv_route}

unfoldable pub dev_walk : ℕ → List AodvDev → Option AodvDev
dev_walk tmp_ip [] = none
dev_walk tmp_ip (d ∷ ds) = if d.ip == tmp_ip then some d else dev_walk tmp_ip ds

unfoldable pub find_aodv_dev_by_dev : Ptr → Cmd (Option AodvDev)
find_aodv_dev_by_dev dev = do
  w ← get
  if dev == null then pure none else elim (w.ifa_address dev) [
    | none ↦ pure none
    | some tmp_ip ↦ pure (dev_walk tmp_ip w.aodv_dev_list)
  ]

-- The loop of `local_broadcast`: it ends at a device with no socket or with no room. The time to live
-- was set on the first device's socket only; the others send with what theirs has.
unfoldable pub broadcast_loop : ℕ → Option ℕ → Message → List AodvDev → Cmd (Unit {0})
broadcast_loop dst ttl message [] = pure tt
broadcast_loop dst ttl message (d ∷ ds) =
    let next : Cmd (Unit {0}) = do
      emit (Event.sent d.dev dst ttl message)
      broadcast_loop dst none message ds
    in if d.sock == null then pure tt else do room ← ask; when room next

-- A time to live below 1 sends nothing. Without a device or its socket the option has no target.
unfoldable pub local_broadcast : ℕ → Message → Cmd (Unit {0})
local_broadcast ttl message = do
  getcurrtime
  w ← get
  if ltb ttl 1 then pure tt else elim w.aodv_dev_list [
    | [] ↦ oops
    | d ∷ ds ↦
        if d.sock == null
        then oops
        else do set ← ask; when set (broadcast_loop w.g_broadcast_ip (some ttl) message (d ∷ ds))
  ]

-- The end of `send_message`, on the device that it found.
unfoldable pub send_on : Option AodvDev → ℕ → ℕ → Message → Cmd Ret
send_on none dst_ip ttl message = pure (fail enodev)
send_on (some d) dst_ip ttl message = if d.sock == null then oops else do
  room ← ask
  set ← ask
  if not set
      then pure (ret 0)
      else if not room
      then pure (fail enomem)
      else do emit (Event.sent d.dev dst_ip (some ttl) message); pure (ret 0)

module _ ⦃k : Kernel⦄ where
  unfoldable pub send_message : ℕ → ℕ → Message → Ptr → Cmd Ret
  send_message dst_ip ttl message dev = if ttl == 0 then pure (ret 0) else do
    getcurrtime
    if not (dev == null)
        then (do tmp_dev ← find_aodv_dev_by_dev dev; send_on tmp_dev dst_ip ttl message)
        else do
          tmp_route ← find_aodv_route dst_ip
          if tmp_route == null then pure (fail ehostunreach) else do
            r ← load_route tmp_route
            tmp_dev ← find_aodv_dev_by_dev r.dev
            send_on tmp_dev dst_ip ttl message
