-- ===== src/Route.antt =====
-- kaodv/src/aodv_route.c: the routing table, sorted by destination, with the routes that expire in
-- it. The loops are functions on the table; the commands put them over the module's state.
pub mod Order
pub mod Find
pub mod Flush
pub mod Host
pub mod Safe
use mobile_cloud_caching.Prelude.{
  ℕ, zero, suc, ◌+◌, ltb, leb, ◌==◌, if◌then◌else◌, bit_and, Bool, true, false, not, ◌&&◌, Option,
  none, some, List, [], ◌∷◌,
}
use mobile_cloud_caching.Prelude.Words.{inc32, add64}
use mobile_cloud_caching.Types.{Ptr, null, AodvRoute}
use mobile_cloud_caching.Types.Const
use mobile_cloud_caching.Kernel.{Kernel, time_after, time_before}
use mobile_cloud_caching.World.{
  World, Timeval, Cmd, pure, ◌>>=◌, ◌>>◌, get, modify, Ret, ret, to_millis, getcurrtime,
}
use mobile_cloud_caching.World.Memory.{Block, kmalloc, set_route, load_route}
use mobile_cloud_caching.KernelRoute.{delete_kernel_route_entry}

module _ ⦃k : Kernel⦄ where
  unfoldable pub valid_aodv_route : ℕ → AodvRoute → Bool
  valid_aodv_route now tmp_route = time_after tmp_route.lifetime now && tmp_route.route_valid

-- The assignments of `expire_aodv_route`, at a reading of the clock.
unfoldable pub expire : ℕ → AodvRoute → AodvRoute
expire now r = record r {
  lifetime = add64 now Const.delete_period;
  seq = inc32 r.seq;
  route_valid = false;
}

unfoldable pub expire_aodv_route : Ptr → Cmd (Unit {0})
unfolding getcurrtime set_route expire
expire_aodv_route tmp_route = do now ← getcurrtime; set_route tmp_route (expire now)

-- The route at an address is unlinked.
unfoldable pub unlink : Ptr → List AodvRoute → List AodvRoute
unlink dead_route [] = []
unlink dead_route (r ∷ rs) = if r.addr == dead_route then rs else r ∷ unlink dead_route rs

unfoldable pub remove_aodv_route : Ptr → Cmd (Unit {0})
unfolding unlink load_route
remove_aodv_route dead_route = do
  load_route dead_route
  modify λ w. record w {
    aodv_route_table = unlink dead_route w.aodv_route_table;
    loose_routes = unlink dead_route w.loose_routes;
  }

cleanup_loop : List AodvRoute → Cmd (Unit {0})
cleanup_loop [] = pure tt
cleanup_loop (r ∷ rs) = do delete_kernel_route_entry r.ip r.next_hop r.netmask; cleanup_loop rs

unfoldable pub cleanup_aodv_route_table : Cmd Ret
unfolding cleanup_loop delete_kernel_route_entry
cleanup_aodv_route_table = do
  w ← get
  cleanup_loop w.aodv_route_table
  modify λ w. record w { aodv_route_table = [] }
  pure (ret 0)

-- Where the walk of `delete_aodv_route` stops: at the route to the address, or at null.
unfoldable pub delete_walk : ℕ → List AodvRoute → Ptr
delete_walk target_ip [] = null
delete_walk target_ip (r ∷ rs) =
    if leb r.ip target_ip
    then if r.ip == target_ip then r.addr else delete_walk target_ip rs
    else null

unfoldable pub delete_aodv_route : ℕ → Cmd Ret
unfolding delete_walk remove_aodv_route
delete_aodv_route target_ip = do
  w ← get
  let dead_route = delete_walk target_ip w.aodv_route_table
  if dead_route == null then pure (ret 0) else do remove_aodv_route dead_route; pure (ret 1)

-- The links that `insert_aodv_route` makes: behind the last route to a smaller address.
unfoldable pub link : AodvRoute → List AodvRoute → List AodvRoute
link new_route [] = new_route ∷ []
link new_route (r ∷ rs) =
    if ltb r.ip new_route.ip then r ∷ link new_route rs else new_route ∷ r ∷ rs

unfoldable pub insert_aodv_route : AodvRoute → Cmd (Unit {0})
unfolding link
insert_aodv_route new_route =
    modify λ w. record w { aodv_route_table = link new_route w.aodv_route_table }

-- A new route as `create_aodv_route` fills it in; `lifetime` and `old_seq` are not written.
unfoldable pub blank_route : Block → ℕ → ℕ → AodvRoute
blank_route block g_broadcast_ip ip = record {
  addr = block.addr;
  ip = ip;
  netmask = g_broadcast_ip;
  seq = 0;
  old_seq = block.junk;
  metric = 0;
  next_hop = ip;
  rreq_id = 0;
  lifetime = block.junk;
  dev = null;
  route_valid = false;
  route_seq_valid = false;
  self_route = false;
}

-- A route to address 0 is linked nowhere.
unfoldable pub keep_loose : AodvRoute → Cmd (Unit {0})
keep_loose new_route = modify λ w. record w { loose_routes = new_route ∷ w.loose_routes }

-- The new route's address, or null without memory.
unfoldable pub create_aodv_route : ℕ → Cmd Ptr
unfolding kmalloc blank_route insert_aodv_route keep_loose
create_aodv_route ip = do
  block ← kmalloc
  elim block [
    | none ↦ pure null
    | some b ↦ do
      w ← get
      let tmp_entry = blank_route b w.g_broadcast_ip ip
      if ip == 0 then keep_loose tmp_entry else insert_aodv_route tmp_entry
      pure b.addr
  ]

unfoldable pub compare_aodv_route : AodvRoute → ℕ → Bool
compare_aodv_route r target_ip = bit_and r.ip r.netmask == bit_and target_ip r.netmask

-- What `find_aodv_route` has when its loop ends: the possible route, the table, the readings made.
pub record Search : Type 0 where
  pub possible_route : Ptr
  pub table : List AodvRoute
  pub readings : ℕ

abbrev pub put_first : AodvRoute → Search → Search
put_first r s = record s { table = r ∷ s.table }

module _ ⦃k : Kernel⦄ where
  abbrev pub due : ℕ → AodvRoute → Bool
  due curr_time r = time_before r.lifetime curr_time && not r.self_route

  -- The n-th reading of `clock` is the next.
  unfoldable pub find_loop : (ℕ → Timeval) → ℕ → ℕ → Ptr → ℕ → List AodvRoute → Search
  unfolding compare_aodv_route expire
  find_loop clock target_ip curr_time possible n [] = record {
    possible_route = possible;
    table = [];
    readings = n;
  }
  find_loop clock target_ip curr_time possible n (r ∷ rs) =
      let expired = due curr_time r && r.route_valid in
      let r' = if expired then expire (to_millis (clock n)) r else r in
      let n' = if expired then n + 1 else n in
      let possible' = if compare_aodv_route r' target_ip then r.addr else possible in
      let rest = put_first r' (find_loop clock target_ip curr_time possible' n' rs) in
      if leb r.ip target_ip
      then rest
      else record { possible_route = possible; table = r ∷ rs; readings = n }

  unfoldable pub find_aodv_route : ℕ → Cmd Ptr
  unfolding find_loop getcurrtime
  find_aodv_route target_ip = do
    curr_time ← getcurrtime
    w ← get
    let s = find_loop w.clock target_ip curr_time null w.readings w.aodv_route_table
    modify λ w. record w { aodv_route_table = s.table; readings = s.readings }
    pure s.possible_route

  -- The loop of `flush_aodv_route_table`: the routes that stay.
  unfoldable pub flush_loop : ℕ → List AodvRoute → Cmd (List AodvRoute)
  unfolding expire getcurrtime
  flush_loop currtime [] = pure []
  flush_loop currtime (r ∷ rs) =
      let valid_case : Cmd (List AodvRoute) = do
        now ← getcurrtime
        rest ← flush_loop currtime rs
        pure (expire now r ∷ rest)
      in let dead_case : Cmd (List AodvRoute) = do
        delete_kernel_route_entry r.ip r.next_hop r.netmask
        flush_loop currtime rs
        in let kept_case : Cmd (List AodvRoute) = do rest ← flush_loop currtime rs; pure (r ∷ rest)
          in if due currtime r then if r.route_valid then valid_case else dead_case else kept_case

  unfoldable pub flush_aodv_route_table : Cmd Ret
  unfolding flush_loop delete_kernel_route_entry
  flush_aodv_route_table = do
    currtime ← getcurrtime
    w ← get
    table ← flush_loop currtime w.aodv_route_table
    modify λ w. record w { aodv_route_table = table }
    pure (ret 0)
