-- ===== src/Rerr.antt =====
-- kaodv/src/rerr.c: route errors, sent when a neighbour is lost and passed on when received.
pub mod Report
pub mod Heard
pub mod Ended
pub mod Written
use mobile_cloud_caching.Prelude.{
  ℕ, zero, suc, ◌%◌, ◌==◌, if◌then◌else◌, Bool, true, false, not, ◌&&◌, Option, none, some, List,
  [], ◌∷◌, length,
}
use mobile_cloud_caching.Types.{Ptr, null, AodvRoute, AodvDst, Rerr, AodvTask, Message, of_rerr}
use mobile_cloud_caching.Types.Const
use mobile_cloud_caching.Kernel.{Kernel, htonl, ntohl}
use mobile_cloud_caching.World.{
  World, Cmd, pure, oops, when, ◌>>=◌, ◌>>◌, get, modify, Ret, ret, fail, enomem, getcurrtime,
}
use mobile_cloud_caching.World.Memory.{kmalloc, load_route, set_route}
use mobile_cloud_caching.Route.{expire, expire_aodv_route, find_aodv_route}
use mobile_cloud_caching.Device.{local_broadcast}

-- `dst_count` has 8 bits.
unfoldable pub send_rerr : List AodvDst → ℕ → Cmd Ret
send_rerr bad_routes num_routes = do
  block ← kmalloc
  elim block [
    | none ↦ pure (fail enomem)
    | some _ ↦ do
      local_broadcast Const.net_diameter (
          of_rerr (record { kind = 3; n = false; dst_count = num_routes % 256; dsts = bad_routes }))
      pure (ret 0)
  ]

-- What the loop of `gen_rerr` has when it ends: the broken routes, the last first, unless it ran
-- out of memory, and the table.
pub record Broken : Type 0 where
  pub bad_routes : Option (List AodvDst)
  pub table : List AodvRoute

module _ ⦃k : Kernel⦄ where
  abbrev pub is_broken : ℕ → AodvRoute → Bool
  is_broken brk_dst_ip r = (r.next_hop == brk_dst_ip) && not r.self_route

  abbrev pub rerr_entry : AodvRoute → AodvDst
  rerr_entry r = record { ip = r.ip; seq = htonl r.seq }

  unfoldable pub rerr_loop : ℕ → List AodvRoute → List AodvDst → Cmd Broken
  rerr_loop brk_dst_ip [] bad = pure (record { bad_routes = some bad; table = [] })
  rerr_loop brk_dst_ip (r ∷ rs) bad =
      let broken_case : Cmd Broken = do
        block ← kmalloc
        elim block [
          | none ↦ pure (record { bad_routes = none; table = r ∷ rs })
          | some _ ↦
              if r.route_valid
              then (do
                now ← getcurrtime
                b ← rerr_loop brk_dst_ip rs (rerr_entry r ∷ bad)
                pure (record b { table = expire now r ∷ b.table }))
              else do
                b ← rerr_loop brk_dst_ip rs (rerr_entry r ∷ bad)
                pure (record b { table = r ∷ b.table })
        ]
      in let other_case : Cmd Broken = do
        b ← rerr_loop brk_dst_ip rs bad
        pure (record b { table = r ∷ b.table })
        in if is_broken brk_dst_ip r then broken_case else other_case

  unfoldable pub gen_rerr : ℕ → Cmd Ret
  gen_rerr brk_dst_ip = do
    w ← get
    b ← rerr_loop brk_dst_ip w.aodv_route_table []
    modify λ w. record w { aodv_route_table = b.table }
    elim b.bad_routes [
      | none ↦ pure (ret 0)
      | some [] ↦ pure (ret 0)
      | some (d ∷ ds) ↦ do send_rerr (d ∷ ds) (length (d ∷ ds)); pure (ret 0)
    ]

  -- The loop of `recv_rerr` over the entries that are counted. `none` is a return for want of memory;
  -- an entry that the message does not hold is read out of bounds.
  unfoldable pub recv_rerr_loop : ℕ → ℕ → List AodvDst → List AodvDst → Cmd (Option (List AodvDst))
  recv_rerr_loop src_ip zero dsts outgoing = pure (some outgoing)
  recv_rerr_loop src_ip (suc count) [] outgoing = oops
  recv_rerr_loop src_ip (suc count) (d ∷ dsts) outgoing =
      let skip : Cmd (Option (List AodvDst)) = recv_rerr_loop src_ip count dsts outgoing in
      let pass_on : Cmd (Option (List AodvDst)) = recv_rerr_loop src_ip count dsts (d ∷ outgoing) in
      do
        tmp_route ← find_aodv_route d.ip
        if tmp_route == null then skip else do
          r ← load_route tmp_route
          if not r.self_route && (r.next_hop == src_ip)
              then (do
                set_route tmp_route (λ r. record r { seq = ntohl d.seq })
                block ← kmalloc
                elim block [
                  | none ↦ pure none
                  | some _ ↦ do when r.route_valid (expire_aodv_route tmp_route); pass_on
                ])
              else skip

  unfoldable pub recv_rerr : AodvTask → Cmd Ret
  recv_rerr tmp_packet = elim tmp_packet.payload [
    | of_rerr tmp_rerr ↦ do
      outgoing ← recv_rerr_loop tmp_packet.src_ip tmp_rerr.dst_count tmp_rerr.dsts []
      elim outgoing [
        | none ↦ pure (ret 0)
        | some [] ↦ pure (ret 0)
        | some (d ∷ ds) ↦ do send_rerr (d ∷ ds) (length (d ∷ ds)); pure (ret 0)
      ]
    | _ ↦ oops
  ]
