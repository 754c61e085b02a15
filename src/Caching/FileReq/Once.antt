-- ===== src/Caching/FileReq/Once.antt =====
-- A flood of a file request is answered once: `recv_flreq` of caching/src/cFileReq.c.
use mathlib.Core.Path.{subst}
use mobile_cloud_caching.Prelude.{
  ℕ, ◌+◌, ◌<◌, ◌≤◌, ◌≡◌, ◌≢◌, refl, sym, ap, ◌∙◌, inl, inr, leb, ◌==◌, true, false, none, some,
  List, ◌∷◌, Option-cases, arith,
}
use mobile_cloud_caching.Prelude.Words.{add64}
use mobile_cloud_caching.Kernel.{Kernel, ntohl, time_before}
use mobile_cloud_caching.Caching.Types.{CTask, FileReq, CFloodId}
use mobile_cloud_caching.Caching.Types.Const
use mobile_cloud_caching.Caching.State.{State, Ret, ret, to_millis, getcurrtime}
use mobile_cloud_caching.Caching.Flood.{find_flood_walk, find_flood_id}
use mobile_cloud_caching.Caching.FileReq.{convert_flreq_to_host, recv_flreq}
use mobile_cloud_caching.Caching.FileReq.Heard.{
  carrying, entry_of, Heard, Replied-frame, recv_flreq-Heard,
}

module _ ⦃k : Kernel⦄ where
  -- A request whose flood is in front of the queue, and has not expired, is turned down.
  recv_flreq-seen :
      (t : CTask) (m : FileReq) (f : CFloodId) (fs : List CFloodId) (s : State)
      → s.flood_id_queue ≡ f ∷ fs
      → f.src_ip ≡ ntohl m.src_ip
      → f.id ≡ ntohl m.seq
      → time_before f.lifetime (to_millis (s.clock (s.readings + 1))) ≡ false
      → 1 < t.ttl
      → recv_flreq (carrying m t) s ≡ some (ret 1, record s { readings = s.readings + 1 + 1 })
  unfolding recv_flreq getcurrtime find_flood_id convert_flreq_to_host find_flood_walk
  recv_flreq-seen t m f fs s queue src id alive hops =
      let large : leb t.ttl 1 ≡ false = ground arith in
      let same : (x : ℕ) → (x == x) ≡ true = λ x. ground arith in
      simp (large, queue, alive, sym src, sym id, same f.src_ip, same f.id)

  Heard-noted :
      {m : FileReq} {ttl now : ℕ} {s s' : State}
      → Heard m ttl now s (ret 0) s'
      → s.memory s.allocations ≢ none
      → s'.flood_id_queue ≡ entry_of m now ∷ s.flood_id_queue
  Heard-noted {m = m} {now = now} {s = s} (Heard.answered hops new a) memory =
      let later = ap (λ (x : State). x.flood_id_queue) a.on.frame in
      let first = ap (λ (x : State). x.flood_id_queue) (Replied-frame a.reply) in
      elim (Option-cases (s.memory s.allocations)) [
        | inl no_memory ↦ absurd (memory no_memory)
        | inr (addr, made) ↦ later ∙ first ∙ rw made refl
      ]

  -- If `recv_flreq` answers a file request (it returns 0) and there was memory for the flood's
  -- entry, then a request with the same source and sequence number that is received next, with a
  -- time to live above 1, at most FILE_REQUEST_LIFETIME later and no earlier, is turned down: the
  -- result is 1, and only two readings of the clock differ. The clock is at a distance from the end
  -- of 64 bits.
  pub recv_flreq-once :
      (t t' : CTask) (m m' : FileReq) (s s' : State)
      → s.memory s.allocations ≢ none
      → recv_flreq (carrying m t) s ≡ some (ret 0, s')
      → m'.src_ip ≡ m.src_ip
      → m'.seq ≡ m.seq
      → 1 < t'.ttl
      → to_millis (s.clock s.readings) ≤ to_millis (s'.clock (s'.readings + 1))
      → to_millis (s'.clock (s'.readings + 1))
        ≤ to_millis (s.clock s.readings) + Const.file_request_lifetime
      → to_millis (s.clock s.readings) < 18_446_744_073_709_500_000
      → recv_flreq (carrying m' t') s' ≡ some (ret 1, record s' { readings = s'.readings + 1 + 1 })
  recv_flreq-once t t' m m' s s' memory first src id hops later soon range =
      let lifetime = add64 (to_millis (s.clock s.readings)) Const.file_request_lifetime in
      let now = to_millis (s'.clock (s'.readings + 1)) in
      let alive = k.time_after_window now lifetime (omega arith) (omega arith) ∙ ground arith in
      let (r, s₁, ran, heard) = recv_flreq-Heard t m s in
      let pair : (ret 0, s') ≡ (r, s₁) = cc in
      let heard' =
        subst (λ (p : Ret × State). Heard m t.ttl (to_millis (s.clock s.readings)) s p.0 p.1)
          (sym pair) heard in
      recv_flreq-seen t' m' (entry_of m (to_millis (s.clock s.readings))) s.flood_id_queue s'
        (Heard-noted heard' memory) (ap (λ x. ntohl x) (sym src)) (ap (λ x. ntohl x) (sym id)) alive
        hops
