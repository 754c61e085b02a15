-- ===== src/Rerr/Report.antt =====
-- `gen_rerr` of kaodv/src/rerr.c: what it does to the table, and what it sends.
use mathlib.Core.Path.{subst}
use mathlib.Core.List.{map, reverse_aux, reverse}
use mobile_cloud_caching.Prelude.{
  ℕ, ◌+◌, ◌%◌, ◌≡◌, ◌≢◌, refl, ap, sym, ◌∙◌, ◌&&◌, true, false, Bool-cases, inl, inr, ◌⊎◌, none,
  some, List, [], ◌∷◌, ◌++◌, All, keep, keep-pass, keep-skip, length, arith,
}
use mobile_cloud_caching.Types.{AodvRoute, AodvDst, Message, of_rerr}
use mobile_cloud_caching.Types.Const
use mobile_cloud_caching.Kernel.{Kernel}
use mobile_cloud_caching.World.{World, Event, modify, getcurrtime, pure, ret, ◌>>◌}
use mobile_cloud_caching.World.Memory.{kmalloc-memory}
use mobile_cloud_caching.World.Gives
use mobile_cloud_caching.World.Gives.{Gives, gives}
use mobile_cloud_caching.World.Frame.{SameTables}
use mobile_cloud_caching.World.Healthy.{Healthy, HasSocket}
use mobile_cloud_caching.Route.{expire}
use mobile_cloud_caching.Device.Log.{Sent, Broadcast, local_broadcast-Sent}
use mobile_cloud_caching.Rerr.{Broken, is_broken, rerr_entry, rerr_loop, send_rerr, gen_rerr}

module _ ⦃k : Kernel⦄ where
  -- A valid route through the node has expired at some time, and any other is as it was.
  abbrev pub Cut : ℕ → AodvRoute → AodvRoute → Type 0
  Cut brk r s =
      (((is_broken brk r && r.route_valid) ≡ true) × ((at : ℕ) × (s ≡ expire at r)))
      ⊎ (((is_broken brk r && r.route_valid) ≡ false) × (s ≡ r))

  abbrev pub AllCut : ℕ → List AodvRoute → List AodvRoute → Type 0
  AllCut brk [] [] = Unit
  AllCut brk (r ∷ rs) (s ∷ ss) = Cut brk r s × AllCut brk rs ss
  AllCut brk _ _ = ⊥

  record Looped (brk : ℕ) (rs : List AodvRoute) (bad : List AodvDst) (w : World) (b : Broken)
      (w' : World) : Type 0 where
    reported : b.bad_routes ≡ some (reverse_aux (map rerr_entry (keep (is_broken brk) rs)) bad)
    cut : AllCut brk rs b.table
    same : SameTables w w'
    quiet : w'.log ≡ w.log

  rerr_loop-Looped :
      (brk : ℕ) (rs : List AodvRoute) (bad : List AodvDst) (w : World)
      → ((n : ℕ) → w.memory n ≢ none)
      → Gives (Looped brk rs bad w) (rerr_loop brk rs bad w)
  unfolding rerr_loop getcurrtime
  rerr_loop-Looped brk [] bad w m =
      gives (record { reported = refl; cut = tt; same = refl; quiet = refl })
  rerr_loop-Looped brk (r ∷ rs) bad w m = elim (Bool-cases (is_broken brk r)) [
    | inr e ↦ simp e (
        Gives.bind (rerr_loop-Looped brk rs bad w m) λ b w' l. gives (record {
          reported =
              l.reported
              ∙ ap (λ d. some (reverse_aux (map rerr_entry d) bad)) (sym (keep-skip _ r rs e));
          cut = (inr (ground arith, refl), l.cut);
          same = l.same;
          quiet = l.quiet;
        }))
    | inl e ↦
        let (_, got) = kmalloc-memory w (m _) in
        elim (Bool-cases r.route_valid) [
          | inl v ↦
              simp (e, got, v)
                (Gives.bind
                  (rerr_loop-Looped brk rs (rerr_entry r ∷ bad)
                    (record w { allocations = w.allocations + 1; readings = w.readings + 1 }) m)
                  λ b w' l. gives (record {
                    reported =
                        l.reported
                        ∙ ap (λ d. some (reverse_aux (map rerr_entry d) bad))
                            (sym (keep-pass _ r rs e));
                    cut = (inl (ground arith, (_, refl)), l.cut);
                    same = l.same;
                    quiet = l.quiet;
                  }))
          | inr v ↦
              simp (e, got, v)
                (Gives.bind
                  (rerr_loop-Looped brk rs (rerr_entry r ∷ bad)
                    (record w { allocations = w.allocations + 1 }) m)
                  λ b w' l. gives (record {
                    reported =
                        l.reported
                        ∙ ap (λ d. some (reverse_aux (map rerr_entry d) bad))
                            (sym (keep-pass _ r rs e));
                    cut = (inr (ground arith, refl), l.cut);
                    same = l.same;
                    quiet = l.quiet;
                  }))
        ]
  ]

  -- The entries for the routes through the node that are not the node's own, the last first.
  abbrev pub broken_entries : ℕ → List AodvRoute → List AodvDst
  broken_entries brk rs = reverse (map rerr_entry (keep (is_broken brk) rs))

  abbrev pub error_of : List AodvDst → Message
  error_of ds = of_rerr (record { kind = 3; n = false; dst_count = length ds % 256; dsts = ds })

  -- What is lost and said when a node is.
  pub record Reported (brk : ℕ) (w w' : World) : Type 0 where
    pub cut : AllCut brk w.aodv_route_table w'.aodv_route_table
    pub events : List Event
    pub log : w'.log ≡ events ++ w.log
    pub sent :
        Broadcast w.g_broadcast_ip Const.net_diameter
          (error_of (broken_entries brk w.aodv_route_table))
          events
    pub rest : w' ≡ record w {
      aodv_route_table = w'.aodv_route_table;
      readings = w'.readings;
      allocations = w'.allocations;
      requests = w'.requests;
      log = w'.log;
    }

  -- Everything but the table, the readings and the like is the same.
  abbrev SameButTable : World → World → Type 0
  SameButTable w w' = w' ≡ record w {
    aodv_route_table = w'.aodv_route_table;
    readings = w'.readings;
    allocations = w'.allocations;
    requests = w'.requests;
    log = w'.log;
  }

  with_table :
      (w w' : World) (table : List AodvRoute)
      → SameTables w w'
      → SameButTable w (record w' { aodv_route_table = table })
  with_table w w' table s =
      ap {A = World} {B = World} (λ x. record x { aodv_route_table = table }) s

  logged : (u v w : World) → SameTables v w → SameButTable u v → SameButTable u w
  logged u v w s p =
      s
      ∙ ap {A = World} {B = World}
          (λ x. record x {
            readings = w.readings;
            allocations = w.allocations;
            requests = w.requests;
            log = w.log;
          })
          p
      ∙ λ i. record u {
        aodv_route_table = sym (ap (λ (x : World). x.aodv_route_table) s) i;
        readings = w.readings;
        allocations = w.allocations;
        requests = w.requests;
        log = w.log;
      }

  send_rerr-Sent :
      (ds : List AodvDst) (w : World)
      → ((n : ℕ) → w.memory n ≢ none)
      → w.aodv_dev_list ≢ []
      → All HasSocket w.aodv_dev_list
      → Gives
          (λ _ w'. Sent w.g_broadcast_ip Const.net_diameter (error_of ds) w w')
          (send_rerr ds (length ds) w)
  unfolding send_rerr
  send_rerr-Sent ds w m device sockets =
      let (_, got) = kmalloc-memory w (m _) in
      simp got (
        Gives.bind
          (local_broadcast-Sent Const.net_diameter (error_of ds)
            (record w { allocations = w.allocations + 1 }) device sockets)
          λ _ w' s. gives (record { events = s.events; log = s.log; all = s.all; same = s.same }))

  -- In a healthy world `gen_rerr` meets no oops and returns 0; every valid route through the lost
  -- node that is not the node's own has expired, and every other route is as it was; all that is
  -- added to the log is copies of one route error to the broadcast address, which lists exactly the
  -- routes through the lost node that are not the node's own, the last first; and but for the
  -- table, the readings, the allocations, the socket requests and the log nothing differs.
  pub gen_rerr-Reported :
      (brk : ℕ) (w : World)
      → Healthy w
      → Gives (λ a w'. (a ≡ ret 0) × Reported brk w w') (gen_rerr brk w)
  unfolding gen_rerr
  gen_rerr-Reported brk w h =
      Gives.bind (rerr_loop-Looped brk w.aodv_route_table [] w h.memory)
        λ b w₁ l. by_entries b w₁ l (broken_entries brk w.aodv_route_table) refl
    where
      by_entries :
          (b : Broken) (w₁ : World)
          → Looped brk w.aodv_route_table [] w b w₁
          → (ds : List AodvDst) → broken_entries brk w.aodv_route_table ≡ ds
          → Gives
              (λ a w'. (a ≡ ret 0) × Reported brk w w')
              ((do
                modify λ w. record w { aodv_route_table = b.table }
                elim b.bad_routes [
                  | none ↦ pure (ret 0)
                  | some [] ↦ pure (ret 0)
                  | some (d ∷ ds) ↦ do send_rerr (d ∷ ds) (length (d ∷ ds)); pure (ret 0)
                ])
                w₁)
      by_entries b w₁ l [] e =
          simp (l.reported, e)
            (gives (
              refl,
              record {
                cut = l.cut;
                events = [];
                log = l.quiet;
                sent = Broadcast.silent;
                rest = with_table w w₁ b.table l.same;
              },
            ))
      by_entries b w₁ l (d ∷ ds) e =
          simp (l.reported, e)
            (Gives.bind
              (send_rerr-Sent (d ∷ ds) (record w₁ { aodv_route_table = b.table })
                (subst (λ (x : World). (n : ℕ) → x.memory n ≢ none) (sym l.same) h.memory)
                (subst (λ (x : World). x.aodv_dev_list ≢ []) (sym l.same) h.device)
                (subst (λ (x : World). All HasSocket x.aodv_dev_list) (sym l.same) h.sockets))
              λ _ w' s. gives (
                refl,
                record {
                  cut =
                      subst (AllCut brk w.aodv_route_table)
                        (sym (ap (λ (x : World). x.aodv_route_table) s.same)) l.cut;
                  events = s.events;
                  log = s.log ∙ ap (◌++◌ s.events) l.quiet;
                  sent =
                      subst
                        (λ x.
                          Broadcast x Const.net_diameter
                            (error_of (broken_entries brk w.aodv_route_table)) s.events)
                        (ap (λ (x : World). x.g_broadcast_ip) l.same)
                        (subst
                          (λ x.
                            Broadcast w₁.g_broadcast_ip Const.net_diameter (error_of x) s.events)
                          (sym e) s.all);
                  rest = logged w _ w' s.same (with_table w w₁ b.table l.same);
                },
              ))
