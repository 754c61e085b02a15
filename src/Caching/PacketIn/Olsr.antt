-- ===== src/Caching/PacketIn/Olsr.antt =====
-- The loop over the messages of an OLSR packet in `input_handler` of caching/src/cPacketIn.c.
use mobile_cloud_caching.Prelude.{
  ℕ, zero, suc, ◌+◌, ◌-◌, ◌%◌, ◌<◌, ◌≤◌, ◌≡◌, refl, ltb, true, none, some, List, [], ◌∷◌, length,
  arith,
}
use mobile_cloud_caching.Caching.State.{Metrics}
use mobile_cloud_caching.Caching.PacketIn.{word16, count_olsr, olsr_loop}

-- From a place with a number of bytes left, messages of these sizes follow each other up to another
-- place with the number of bytes left there.
pub data Walks (bytes : ℕ → ℕ) : ℕ → ℕ → List ℕ → ℕ → ℕ → Type 0 where
  here : {place count : ℕ} → Walks bytes place count [] place count
  there :
      {place count size place' count' : ℕ} {sizes : List ℕ}
      → 0 < size
      → size ≤ count
      → word16 bytes (place + 2) ≡ size
      → Walks bytes (place + size) (count - size) sizes place' count'
      → Walks bytes place count (size ∷ sizes) place' count'

-- The counters after the messages of these sizes.
abbrev pub counted : (ℕ → ℕ) → ℕ → List ℕ → Metrics → Metrics
counted bytes place [] m = m
counted bytes place (size ∷ sizes) m =
    counted bytes (place + size) sizes (count_olsr (bytes place) size m)

module _ (bytes : ℕ → ℕ) where
  rest :
      (count size : ℕ)
      → size ≤ count
      → count < 4_294_967_296
      → (count + 4_294_967_296 - size) % 4_294_967_296 ≡ count - size
  rest count size h l = omega arith

  -- If messages whose sizes are above 0 fill an OLSR packet exactly, the loop of `input_handler`
  -- over them ends after as many rounds and has counted each by its type and size.
  pub olsr_loop-counted :
      (fuel : ℕ) {place count place' : ℕ} {sizes : List ℕ} (m : Metrics)
      → count < 4_294_967_296
      → length sizes < fuel
      → Walks bytes place count sizes place' 0
      → olsr_loop fuel bytes place count m ≡ some (counted bytes place sizes m)
  unfolding olsr_loop
  olsr_loop-counted zero m range enough w = absurd (omega arith)
  olsr_loop-counted (suc fuel) m range enough Walks.here = refl
  olsr_loop-counted (suc fuel) {place = place} {count = count} {sizes = size ∷ sizes} m range enough
        (Walks.there pos fits size_is w) =
      let more : ltb 0 count ≡ true = ground arith in
      rw (more, size_is, rest count size fits range)
        (olsr_loop-counted fuel (count_olsr (bytes place) size m) (omega arith) (omega arith) w)

  stuck :
      (fuel place count : ℕ) (m : Metrics)
      → count < 4_294_967_296
      → 0 < count
      → word16 bytes (place + 2) ≡ 0
      → olsr_loop fuel bytes place count m ≡ none
  unfolding olsr_loop
  stuck zero place count m range left size_is = refl
  stuck (suc fuel) place count m range left size_is =
      let more : ltb 0 count ≡ true = ground arith in
      let same_count : count - 0 ≡ count = omega arith in
      let same_place : place + 0 ≡ place = omega arith in
      rw (more, size_is, rest count 0 (omega arith) range, same_count, same_place)
        (stuck fuel place count (count_olsr (bytes place) 0 m) range left size_is)

  -- If, behind any number of messages whose sizes are above 0, bytes of an OLSR packet are left and
  -- the next message gives the size 0, the loop of `input_handler` has not ended after any number
  -- of rounds.
  pub olsr_loop-endless :
      (fuel : ℕ) {place count place' count' : ℕ} {sizes : List ℕ} (m : Metrics)
      → count < 4_294_967_296
      → Walks bytes place count sizes place' count'
      → 0 < count'
      → word16 bytes (place' + 2) ≡ 0
      → olsr_loop fuel bytes place count m ≡ none
  unfolding olsr_loop
  olsr_loop-endless fuel {place = place} {count = count} m range Walks.here left zero_size =
      stuck fuel place count m range left zero_size
  olsr_loop-endless zero m range (Walks.there pos fits size_is w) left zero_size = refl
  olsr_loop-endless (suc fuel) {place = place} {count = count} {sizes = size ∷ sizes} m range
        (Walks.there pos fits size_is w) left zero_size =
      let more : ltb 0 count ≡ true = ground arith in
      rw (more, size_is, rest count size fits range)
        (olsr_loop-endless fuel (count_olsr (bytes place) size m) (omega arith) w left zero_size)
