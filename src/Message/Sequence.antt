-- ===== src/Message/Sequence.antt =====
-- `compare_sequence` of src/impl/message.hpp, on `uint32_t` sequence numbers that wrap.
use legio.Prelude.{ℕ, ◌+◌, ◌-◌, ◌%◌, ◌/◌, ◌^◌, ◌<◌, ◌≤◌, ◌≡◌, ◌↔◌, ◌==◌, ltb, if◌then◌else◌, arith}

pub data Comparison : Type 0 where
  older same newer : Comparison

-- `inline int compare_sequence(uint32_t s1, uint32_t s2)`: `newer` is 1, `same` 0, `older` -1.
unfoldable pub compare_sequence : ℕ → ℕ → Comparison
compare_sequence s1 s2 =
    if s1 == s2
    then same
    else if ltb ((s1 + 2 ^ 32 - s2) % 2 ^ 32) ((2 ^ 32 - 1) / 2)
    then newer
    else older

-- A sequence number is newer than another exactly if it is 1 to 2^31 - 2 steps ahead of it, on the
-- circle of the 2^32 numbers.
pub compare_sequence-newer :
    (s1 s2 : ℕ)
    → s1 < 2 ^ 32
    → s2 < 2 ^ 32
    → (compare_sequence s1 s2 ≡ newer)
      ↔ ((1 ≤ (s1 + 2 ^ 32 - s2) % 2 ^ 32) × ((s1 + 2 ^ 32 - s2) % 2 ^ 32 < 2 ^ 31 - 1))
unfolding compare_sequence
compare_sequence-newer s1 s2 h1 h2 = ground arith

-- If a number is newer than another, that one is older than it.
pub compare_sequence-reverse :
    (s1 s2 : ℕ)
    → s1 < 2 ^ 32
    → s2 < 2 ^ 32
    → compare_sequence s1 s2 ≡ newer
    → compare_sequence s2 s1 ≡ older
unfolding compare_sequence
compare_sequence-reverse s1 s2 h1 h2 n = ground arith

-- Two numbers are each older than the other exactly at the three distances next to half the circle.
pub compare_sequence_both_older :
    (s1 s2 : ℕ)
    → s1 < 2 ^ 32
    → s2 < 2 ^ 32
    → ((compare_sequence s1 s2 ≡ older) × (compare_sequence s2 s1 ≡ older))
      ↔ ((2 ^ 31 - 1 ≤ (s1 + 2 ^ 32 - s2) % 2 ^ 32) × ((s1 + 2 ^ 32 - s2) % 2 ^ 32 ≤ 2 ^ 31 + 1))
unfolding compare_sequence
compare_sequence_both_older s1 s2 h1 h2 = ground arith

-- The successor of a number is newer than it, also where the counter wraps.
pub compare_sequence-suc : (s : ℕ) → s < 2 ^ 32 → compare_sequence ((s + 1) % 2 ^ 32) s ≡ newer
unfolding compare_sequence
compare_sequence-suc s h = ground arith
