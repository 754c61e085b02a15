-- ===== src/Utils/Seq.antt =====
-- The comparisons of sequence numbers of kaodv/src/utils.c, under rollover.
use mobile_cloud_caching.Prelude.{ℕ, ◌+◌, ◌%◌, ◌<◌, ◌≡◌, true, false, arith}
use mobile_cloud_caching.Utils.{seq_greater, seq_less_or_equal}

abbrev pub ahead : ℕ → ℕ → ℕ
ahead b d = (b + d) % 4_294_967_296

module _ (b d : ℕ) (small : b < 4_294_967_296) where
  -- A sequence number that is ahead of another by more than 0 and less than half the range, over
  -- the rollover too, is greater and not less or equal, and the other is not greater and is less or
  -- equal.
  seq_greater-ahead :
      0 < d
      → d < 2_147_483_648
      → (seq_greater (ahead b d) b ≡ true)
        × (seq_greater b (ahead b d) ≡ false)
        × (seq_less_or_equal (ahead b d) b ≡ false)
        × (seq_less_or_equal b (ahead b d) ≡ true)
  unfolding seq_greater seq_less_or_equal
  seq_greater-ahead pos half = ground arith

-- Despite its name, `seq_greater` holds of equal numbers.
pub seq_greater_self : (a : ℕ) → a < 4_294_967_296 → seq_greater a a ≡ true
unfolding seq_greater
seq_greater_self a h = ground arith
