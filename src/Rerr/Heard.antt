-- ===== src/Rerr/Heard.antt =====
-- `recv_rerr` of kaodv/src/rerr.c: the effect of a route error on the routing table.
use mathlib.Core.Path.{subst}
use mobile_cloud_caching.Prelude.{
  ℕ, zero, suc, ◌+◌, ◌≤◌, ◌≡◌, ◌≢◌, refl, ap, sym, ◌==◌, ◌&&◌, false, not, Bool-cases, inl, inr,
  Option, none, some, List, [], ◌∷◌, length, arith,
}
use mobile_cloud_caching.Types.{Ptr, null, AodvRoute, AodvDst, AodvTask, Rerr, of_rerr}
use mobile_cloud_caching.Types.Const
use mobile_cloud_caching.Kernel.{Kernel, ntohl}
use mobile_cloud_caching.World.{
  Cmd, World, getcurrtime, to_millis, pure, ◌>>=◌, ◌>>◌, when, Ret, ret,
}
use mobile_cloud_caching.World.Memory.{load_route, set_route, kmalloc, kmalloc-memory}
use mobile_cloud_caching.World.Gives
use mobile_cloud_caching.World.Gives.{Gives, gives}
use mobile_cloud_caching.World.Frame.{SameTables}
use mobile_cloud_caching.World.Kept.{IsRoute, Kept, Kept-refl, Kept-trans, load_route-IsRoute}
use mobile_cloud_caching.World.Healthy.{Healthy, Kept-Healthy}
use mobile_cloud_caching.Route.{find_aodv_route, expire, expire_aodv_route}
use mobile_cloud_caching.Route.Find.{find_loop-AllAged}
use mobile_cloud_caching.Route.Safe.{SameTables-Kept, find_aodv_route-Kept, IsRouteOrNull}
use mobile_cloud_caching.Device.Safe.{local_broadcast-SameTables}
use mobile_cloud_caching.Rerr.{send_rerr, recv_rerr_loop, recv_rerr}
use mobile_cloud_caching.Rerr.Ended.{
  AllEnded, AllEnded-refl, AllEnded-trans, AllAged-AllEnded, Distinct, Distinct-AllEnded,
  write_route-write_route, Ended,
}
use mobile_cloud_caching.Rerr.Written.{written, set_route-written, written-Kept, written-AllEnded}

-- A task whose message is the error.
abbrev pub reporting : Rerr → AodvTask → AodvTask
reporting m t = record t { payload = of_rerr m }

-- What a route error may do.
pub record Heard (w w' : World) : Type 0 where
  pub ended : AllEnded w.aodv_route_table w'.aodv_route_table
  pub kept : Kept w w'

Heard-trans : (u v w : World) → Heard u v → Heard v w → Heard u w
Heard-trans u v w g h = record {
  ended = AllEnded-trans u.aodv_route_table v.aodv_route_table w.aodv_route_table g.ended h.ended;
  kept = Kept-trans g.kept h.kept;
}

both :
    {A : Type 0} {P Q : A → World → Type 0} {r : Option (A × World)}
    → Gives P r
    → Gives Q r
    → Gives (λ a w. P a w × Q a w) r
both (gives p) (gives q) = gives (p, q)

module _ ⦃k : Kernel⦄ where
  find-Ended :
      (t : ℕ) (w : World)
      → Gives (λ _ w'. AllEnded w.aodv_route_table w'.aodv_route_table) (find_aodv_route t w)
  unfolding find_aodv_route getcurrtime
  find-Ended t w =
      let now = to_millis (w.clock w.readings) in
      gives (
        AllAged-AllEnded now w.aodv_route_table _
          (find_loop-AllAged w.clock t now w.aodv_route_table null (w.readings + 1)))

  find-Heard :
      (t : ℕ) (w : World) → Gives (λ p w'. Heard w w' × IsRouteOrNull p w') (find_aodv_route t w)
  find-Heard t w =
      Gives.weaken (both (find-Ended t w) (find_aodv_route-Kept t w))
        λ p w' (e, (k, ok)). (record { ended = e; kept = k }, ok)

  -- The assignments to a route through the node that reports, its expiry, and what follows.
  end_route-Heard :
      (p : Ptr) (r : AodvRoute) (seq : ℕ) (w : World)
      → load_route p w ≡ some (r, w)
      → r.self_route ≡ false
      → Distinct w.aodv_route_table
      → IsRoute p w
      → ((n : ℕ) → w.memory n ≢ none)
      → (next : Cmd (Option (List AodvDst)))
      → ((w' : World) → Heard w w' → Gives (λ _ x. Heard w x) (next w'))
      → Gives
          (λ _ w'. Heard w w')
          ((do
            set_route p (λ r. record r { seq = seq })
            block ← kmalloc
            elim block [
              | none ↦ pure none
              | some _ ↦ do when r.route_valid (expire_aodv_route p); next
            ])
            w)
  unfolding expire_aodv_route getcurrtime expire
  end_route-Heard p r seq w at other d is m next go_on =
      let f : AodvRoute → AodvRoute = λ r. record r { seq = seq } in
      let w₁ : World = written p f w in
      let run₁ = set_route-written p f w is in
      let k₁ = written-Kept p f w (λ r. refl) is in
      let (_, got) = kmalloc-memory w₁ (m _) in
      let w₂ : World = record w₁ { allocations = w.allocations + 1 } in
      let k₂ : Kept w w₂ = Kept-trans k₁ (SameTables-Kept refl) in
      elim (Bool-cases r.route_valid) [
        | inr v ↦
            simp (run₁, got, v)
              (go_on _ (record {
                ended = written-AllEnded p f r w at (inr (other, (refl, refl, refl, refl), v)) d;
                kept = k₂;
              }))
        | inl v ↦
            let w₃ : World = record w₂ { readings = w.readings + 1 } in
            let k₃ : Kept w w₃ = Kept-trans k₂ (SameTables-Kept refl) in
            let now = to_millis (w.clock w.readings) in
            let run₃ = set_route-written p (expire now) w₃ (k₃.alive p is) in
            let k₄ = written-Kept p (expire now) w₃ (λ r. refl) (k₃.alive p is) in
            let ends : Ended r (expire now (f r)) = inr (other, (refl, refl, refl, refl), refl) in
            simp (run₁, got, v, run₃)
              (go_on _ (record {
                ended =
                    subst (AllEnded w.aodv_route_table)
                      (sym
                        (write_route-write_route p f (expire now) w.aodv_route_table (λ r. refl)))
                      (written-AllEnded p (λ r. expire now (f r)) r w at ends d);
                kept = Kept-trans k₃ k₄;
              }))
      ]

  loop-Heard :
      (src count : ℕ) (ds out : List AodvDst) (w : World)
      → ((n : ℕ) → w.memory n ≢ none)
      → Distinct w.aodv_route_table
      → count ≤ length ds
      → Gives (λ _ w'. Heard w w') (recv_rerr_loop src count ds out w)
  unfolding recv_rerr_loop
  loop-Heard src zero ds out w m d n =
      gives (record { ended = AllEnded-refl w.aodv_route_table; kept = Kept-refl w })
  loop-Heard src (suc count) [] out w m d n = absurd (omega (arith, n))
  loop-Heard src (suc count) (x ∷ ds) out w m d n = Gives.bind (find-Heard x.ip w) λ p w₁ (h₁, ok).
      let h : (w' : World) → Heard w₁ w' → Heard w w' = λ w' g. Heard-trans w w₁ w' h₁ g in
      let m₁ : (n : ℕ) → w₁.memory n ≢ none =
        subst (λ (x : World). (n : ℕ) → x.memory n ≢ none) (sym h₁.kept.same) m in
      let d₁ = Distinct-AllEnded w.aodv_route_table w₁.aodv_route_table h₁.ended d in
      let skip : Gives (λ _ w'. Heard w w') (recv_rerr_loop src count ds out w₁) =
        Gives.weaken (loop-Heard src count ds out w₁ m₁ d₁ (omega (arith, n))) λ _ w' g. h w' g in
      elim (Bool-cases (p == null)) [
        | inl z ↦ simp z skip
        | inr z ↦ elim ok [
          | inl e ↦ absurd (ground arith)
          | inr is ↦
              let (r, found) = load_route-IsRoute p w₁ is in
              elim (Bool-cases (not r.self_route && (r.next_hop == src))) [
                | inr o ↦ simp (z, found, o) skip
                | inl o ↦
                    simp (z, found, o)
                      (Gives.weaken
                        (end_route-Heard p r (ntohl x.seq) w₁ found (ground (arith, o)) d₁ is m₁
                          (recv_rerr_loop src count ds (x ∷ out))
                          λ w₂ g.
                            Gives.weaken
                              (loop-Heard src count ds (x ∷ out) w₂
                                (subst (λ (x : World). (n : ℕ) → x.memory n ≢ none)
                                  (sym g.kept.same) m₁)
                                (Distinct-AllEnded w₁.aodv_route_table w₂.aodv_route_table g.ended
                                  d₁)
                                (omega (arith, n)))
                              λ _ w' g'. Heard-trans w₁ w₂ w' g g')
                        λ _ w' g. h w' g)
              ]
        ]
      ]

  tables-Heard : (w w' : World) → SameTables w w' → Heard w w'
  tables-Heard w w' s = record {
    ended =
        subst (AllEnded w.aodv_route_table) (sym (ap (λ (x : World). x.aodv_route_table) s))
          (AllEnded-refl w.aodv_route_table);
    kept = SameTables-Kept s;
  }

  send_rerr-Heard :
      (ds : List AodvDst) (n : ℕ) (w : World)
      → Healthy w
      → Gives (λ _ w'. Heard w w') (send_rerr ds n w)
  unfolding send_rerr
  send_rerr-Heard ds n w h =
      let (_, got) = kmalloc-memory w (h.memory _) in
      let w₁ : World = record w { allocations = w.allocations + 1 } in
      let k₁ : Kept w w₁ = SameTables-Kept refl in
      simp got (
        Gives.bind (local_broadcast-SameTables Const.net_diameter _ w₁ (Kept-Healthy k₁ h))
          λ _ w₂ s₂. gives (tables-Heard w w₂ s₂))

  -- In a healthy world whose routes lie at addresses of their own, for an error that holds as many
  -- destinations as it counts, `recv_rerr` meets no oops and returns 0; each route of the table is
  -- afterwards as it was, or it is not the node's own, has kept its address, destination and next
  -- hop, and is invalid; and only the routes, the readings, the allocations, the socket requests
  -- and the log differ.
  pub recv_rerr-Heard :
      (t : AodvTask) (m : Rerr) (w : World)
      → Healthy w
      → Distinct w.aodv_route_table
      → m.dst_count ≤ length m.dsts
      → Gives (λ a w'. (a ≡ ret 0) × Heard w w') (recv_rerr (reporting m t) w)
  unfolding recv_rerr
  recv_rerr-Heard t m w h d n =
      Gives.bind (loop-Heard t.src_ip m.dst_count m.dsts [] w h.memory d n)
        λ o w₁ g. passed_on o w₁ g
    where
      passed_on :
          (o : Option (List AodvDst)) (w₁ : World)
          → Heard w w₁
          → Gives
              (λ a w'. (a ≡ ret 0) × Heard w w')
              (let rest : Cmd Ret = elim o [
                | none ↦ pure (ret 0)
                | some [] ↦ pure (ret 0)
                | some (d ∷ ds) ↦ do send_rerr (d ∷ ds) (length (d ∷ ds)); pure (ret 0)
              ] in
                rest w₁)
      passed_on none w₁ g = gives (refl, g)
      passed_on (some []) w₁ g = gives (refl, g)
      passed_on (some (d ∷ ds)) w₁ g =
          let h₁ = Kept-Healthy g.kept h in
          Gives.bind (send_rerr-Heard (d ∷ ds) (length (d ∷ ds)) w₁ h₁)
            λ a w₂ g₂. gives (refl, Heard-trans w w₁ w₂ g g₂)
