-- ===== src/Neigh.antt =====
-- kaodv/src/aodv_neigh.c: the list of neighbours, sorted by address. LINK_LIMIT is not defined.
pub mod Order
pub mod Lost
pub mod Valid
use mobile_cloud_caching.Prelude.{
  ℕ, ◌+◌, ◌-◌, ltb, leb, ◌==◌, if◌then◌else◌, Bool, true, false, not, ◌&&◌, Option, none, some,
  List, [], ◌∷◌,
}
use mobile_cloud_caching.Prelude.Words.{add64}
use mobile_cloud_caching.Types.{Ptr, null, AodvNeigh, AodvRoute, Rrep}
use mobile_cloud_caching.Types.TaskType
use mobile_cloud_caching.Kernel.{Kernel, time_before}
use mobile_cloud_caching.World.{
  World, Cmd, pure, when, ◌>>=◌, ◌>>◌, get, modify, Ret, ret, fail, enodata, getcurrtime,
}
use mobile_cloud_caching.World.Memory.{
  Block, kmalloc, load_route, set_route, load_neigh, set_neigh, write_neigh,
}
use mobile_cloud_caching.KernelRoute.{insert_kernel_route_entry, delete_kernel_route_entry}
use mobile_cloud_caching.Route.{
  find_aodv_route, create_aodv_route, expire_aodv_route, remove_aodv_route,
}
use mobile_cloud_caching.Timers.{delete_timer, update_timer_queue}
use mobile_cloud_caching.Rerr.{gen_rerr}

-- The walk of `find_aodv_neigh`: the neighbour's address in memory, or null.
unfoldable pub find_neigh_walk : ℕ → List AodvNeigh → Ptr
find_neigh_walk target_ip [] = null
find_neigh_walk target_ip (n ∷ ns) =
    if leb n.ip target_ip
    then if n.ip == target_ip then n.addr else find_neigh_walk target_ip ns
    else null

unfoldable pub find_aodv_neigh : ℕ → Cmd Ptr
find_aodv_neigh target_ip w = some (find_neigh_walk target_ip w.aodv_neigh_list, w)

-- `memcmp` of hardware addresses is 0.
unfoldable pub same_hw : List ℕ → List ℕ → Bool
same_hw [] [] = true
same_hw (a ∷ as') (b ∷ bs) = (a == b) && same_hw as' bs
same_hw _ _ = false

unfoldable pub find_by_hw_walk : List ℕ → List AodvNeigh → Ptr
find_by_hw_walk hw_addr [] = null
find_by_hw_walk hw_addr (n ∷ ns) =
    if same_hw n.hw_addr hw_addr then n.addr else find_by_hw_walk hw_addr ns

unfoldable pub find_aodv_neigh_by_hw : List ℕ → Cmd Ptr
find_aodv_neigh_by_hw hw_addr w = some (find_by_hw_walk hw_addr w.aodv_neigh_list, w)

-- The first neighbour with the hardware address gets the link, counted down from 256.
unfoldable pub link_walk : List ℕ → ℕ → List AodvNeigh → List AodvNeigh
link_walk hw_addr link [] = []
link_walk hw_addr link (n ∷ ns) =
    if same_hw n.hw_addr hw_addr
    then record n { link = if link == 0 then 0 else 256 - link } ∷ ns
    else n ∷ link_walk hw_addr link ns

unfoldable pub update_aodv_neigh_link : List ℕ → ℕ → Cmd (Unit {0})
update_aodv_neigh_link hw_addr link =
    modify λ w. record w { aodv_neigh_list = link_walk hw_addr link w.aodv_neigh_list }

-- The neighbour with the address is unlinked; `none` without one.
unfoldable pub delete_neigh_walk : ℕ → List AodvNeigh → Option (List AodvNeigh)
delete_neigh_walk ip [] = none
delete_neigh_walk ip (n ∷ ns) =
    if n.ip == ip
    then some ns
    else elim (delete_neigh_walk ip ns) [ none ↦ none | some rest ↦ some (n ∷ rest) ]

-- A neighbour in the fields that `create_aodv_neigh` writes; the others read as before.
unfoldable pub blank_neigh : Block → ℕ → AodvNeigh
blank_neigh block ip = record {
  addr = block.addr;
  ip = ip;
  seq = block.junk;
  lifetime = 0;
  hw_addr = [];
  dev = block.junk;
  route_entry = null;
  link = 0;
  valid_link = true;
}

-- The list with the new neighbour in its place, or `none` if its address is there.
unfoldable pub create_neigh_walk : AodvNeigh → List AodvNeigh → Option (List AodvNeigh)
create_neigh_walk new_neigh [] = some (new_neigh ∷ [])
create_neigh_walk new_neigh (n ∷ ns) =
    if ltb n.ip new_neigh.ip
    then elim (create_neigh_walk new_neigh ns) [ none ↦ none | some rest ↦ some (n ∷ rest) ]
    else if n.ip == new_neigh.ip
    then none
    else some (new_neigh ∷ n ∷ ns)

-- Whether the walk of `create_aodv_neigh` stops at a neighbour with the address.
unfoldable pub is_duplicate : ℕ → List AodvNeigh → Bool
is_duplicate ip [] = false
is_duplicate ip (n ∷ ns) = if ltb n.ip ip then is_duplicate ip ns else n.ip == ip

-- The new neighbour's address in memory, or null.
unfoldable pub create_aodv_neigh : ℕ → Cmd Ptr
create_aodv_neigh ip = do
  w ← get
  if is_duplicate ip w.aodv_neigh_list then pure null else do
    block ← kmalloc
    elim block [
      | none ↦ pure null
      | some b ↦ elim (create_neigh_walk (blank_neigh b ip) w.aodv_neigh_list) [
        | none ↦ pure null
        | some ns ↦ do modify λ w. record w { aodv_neigh_list = ns }; pure b.addr
      ]
    ]

module _ ⦃k : Kernel⦄ where
  unfoldable pub valid_aodv_neigh : ℕ → Cmd Bool
  valid_aodv_neigh target_ip = do
    tmp_neigh ← find_aodv_neigh target_ip
    if tmp_neigh == null then pure false else do
      n ← load_neigh tmp_neigh
      if n.valid_link then (do now ← getcurrtime; pure (time_before now n.lifetime)) else pure false

  -- What `delete_aodv_neigh` does to the route of the neighbour that it freed.
  unfoldable pub drop_neigh_route : ℕ → Cmd (Unit {0})
  drop_neigh_route ip = do
    tmp_route ← find_aodv_route ip
    if tmp_route == null then pure tt else do
      r ← load_route tmp_route
      when (r.next_hop == r.ip) do
        delete_kernel_route_entry r.ip r.next_hop r.netmask
        gen_rerr r.ip
        r' ← load_route tmp_route
        if r'.route_valid then expire_aodv_route tmp_route else remove_aodv_route tmp_route

  unfoldable pub delete_aodv_neigh : ℕ → Cmd Ret
  delete_aodv_neigh ip = do
    w ← get
    elim (delete_neigh_walk ip w.aodv_neigh_list) [
      | none ↦ pure (fail enodata)
      | some ns ↦ do
        modify λ w. record w { aodv_neigh_list = ns }
        delete_timer ip TaskType.neighbor
        update_timer_queue
        drop_neigh_route ip
        pure (ret 0)
    ]

  unfoldable pub update_aodv_neigh_route : Ptr → Rrep → Cmd (Unit {0})
  update_aodv_neigh_route tmp_neigh tmp_rrep = do
    n ← load_neigh tmp_neigh
    found ← find_aodv_route n.ip
    tmp_route ← if found == null then create_aodv_route n.ip else pure found
    r ← load_route tmp_route
    delete_kernel_route_entry r.ip r.next_hop r.netmask
    insert_kernel_route_entry r.ip r.next_hop r.netmask r.dev
    now ← getcurrtime
    set_route tmp_route (λ r. record r {
      lifetime = add64 now tmp_rrep.lifetime;
      dev = n.dev;
      next_hop = n.ip;
      route_seq_valid = true;
      route_valid = true;
      seq = tmp_rrep.dst_seq;
      metric = 1;
    })
    set_neigh tmp_neigh (λ n. record n { route_entry = tmp_route })

  unfoldable pub update_aodv_neigh : Ptr → Rrep → Cmd Ret
  update_aodv_neigh tmp_neigh tmp_rrep = if tmp_neigh == null then pure (ret 0) else do
    n ← load_neigh tmp_neigh
    when n.valid_link (update_aodv_neigh_route tmp_neigh tmp_rrep)
    pure (ret 1)
