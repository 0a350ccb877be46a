-- ===== src/Voice/Sequence.antt =====
-- The order of the wrapping 32-bit sequence numbers.
use gip_multiplayer.Base.{ℕ, ◌+◌, ◌-◌, ◌%◌, ◌^◌, ◌<◌, ◌≡◌, ◌↔◌, true, false, arith, add32, u32_mod}
use gip_multiplayer.Voice.Packets.{is_sequence_newer, sequence_distance}

-- One sequence number is newer than another exactly when it is reached from it by 1 to 2^31 - 1 steps
-- round the ring of 2^32 numbers.
pub is_sequence_newer_iff :
    (s r : ℕ)
    → s < 2 ^ 32
    → r < 2 ^ 32
    → (is_sequence_newer s r ≡ true) ↔ ((k : ℕ) × (0 < k) × (k < 2 ^ 31) × (s ≡ add32 r k))
unfolding is_sequence_newer
is_sequence_newer_iff s r hs hr = (
  λ h. ((s + u32_mod - r) % u32_mod, ground arith, ground arith, ground arith),
  λ (k, lo, hi, e). rw e (ground arith),
)

-- No two sequence numbers are newer than one another, and none is newer than itself.
pub is_sequence_newer_asym :
    (s r : ℕ)
    → s < 2 ^ 32
    → r < 2 ^ 32
    → is_sequence_newer s r ≡ true
    → is_sequence_newer r s ≡ false
unfolding is_sequence_newer
is_sequence_newer_asym s r hs hr h = ground arith

-- Newer is transitive as long as the two distances stay together below 2^31.
pub is_sequence_newer_trans :
    (a b c : ℕ)
    → a < 2 ^ 32
    → b < 2 ^ 32
    → c < 2 ^ 32
    → is_sequence_newer a b ≡ true
    → is_sequence_newer b c ≡ true
    → sequence_distance a b + sequence_distance b c < 2 ^ 31
    → (is_sequence_newer a c ≡ true)
      × (sequence_distance a c ≡ sequence_distance a b + sequence_distance b c)
unfolding is_sequence_newer sequence_distance
is_sequence_newer_trans a b c ha hb hc p q h = (ground arith, ground arith)
