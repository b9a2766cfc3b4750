-- ===== src/Binary/Base64/Groups.antt =====
-- The arithmetic of Base64 in src/binary.cpp: the sextets of three bytes, and the bytes of four sextets.
use Prim.Native.Nat.{bit_and, bit_or}
use legio.Prelude.{ℕ, ◌+◌, ◌*◌, ◌/◌, ◌%◌, ◌^◌, ◌≡◌, refl, [], ◌∷◌, arith}
use legio.Prelude.Bits.{or_next, mask_3, mask_15}
use legio.ByteOrder.Laws.{IsByte}
use legio.Binary.Base64.{group_bytes}

-- The bytes of a group, from their sextets.
first_byte :
    (t0 t1 d : ℕ)
    → IsByte d
    → t0 ≡ d / 4
    → t1 / 16 ≡ d % 4
    → bit_or (t0 * 2 ^ 2 % 256) (t1 / 2 ^ 4) ≡ d
first_byte t0 t1 d h p q =
    omega (arith, or_next 2 t0 (t0 * 2 ^ 2 % 256) (t1 / 2 ^ 4) (omega arith) (omega arith))

second_byte :
    (t1 t2 d : ℕ)
    → IsByte d
    → t1 % 16 ≡ d / 16
    → t2 / 4 ≡ d % 16
    → bit_or (t1 * 2 ^ 4 % 256) (t2 / 2 ^ 2) ≡ d
second_byte t1 t2 d h p q =
    omega (arith, or_next 4 (t1 % 16) (t1 * 2 ^ 4 % 256) (t2 / 2 ^ 2) (omega arith) (omega arith))

third_byte :
    (t2 t3 d : ℕ) → IsByte d → t2 % 4 ≡ d / 64 → t3 ≡ d % 64 → bit_or (t2 * 2 ^ 6 % 256) t3 ≡ d
third_byte t2 t3 d h p q =
    omega (arith, or_next 6 (t2 % 4) (t2 * 2 ^ 6 % 256) t3 (omega arith) (omega arith))

-- The sextets that `to_base64_impl` looks up.
pub second_sextet :
    (d0 d1 : ℕ)
    → IsByte d0
    → IsByte d1
    → bit_or (bit_and d0 3 * 2 ^ 4) (d1 / 2 ^ 4) ≡ d0 % 4 * 16 + d1 / 16
second_sextet d0 d1 h0 h1 =
    rw (mask_3 d0 h0)
      (omega (arith, or_next 4 (d0 % 4) (d0 % 4 * 2 ^ 4) (d1 / 2 ^ 4) refl (omega arith)))

pub third_sextet :
    (d1 d2 : ℕ)
    → IsByte d1
    → IsByte d2
    → bit_or (bit_and d1 0x0F * 2 ^ 2) (d2 / 2 ^ 6) ≡ d1 % 16 * 4 + d2 / 64
third_sextet d1 d2 h1 h2 =
    rw (mask_15 d1 h1)
      (omega (arith, or_next 2 (d1 % 16) (d1 % 16 * 2 ^ 2) (d2 / 2 ^ 6) refl (omega arith)))

-- Whole groups of sextets.
pub full_group :
    (t0 t1 t2 t3 d0 d1 d2 : ℕ)
    → IsByte d0
    → IsByte d1
    → IsByte d2
    → t0 ≡ d0 / 4
    → t1 ≡ d0 % 4 * 16 + d1 / 16
    → t2 ≡ d1 % 16 * 4 + d2 / 64
    → t3 ≡ d2 % 64
    → group_bytes (t0 ∷ t1 ∷ t2 ∷ t3 ∷ []) ≡ d0 ∷ d1 ∷ d2 ∷ []
unfolding group_bytes
full_group t0 t1 t2 t3 d0 d1 d2 h0 h1 h2 e0 e1 e2 e3 = λ i.
    first_byte t0 t1 d0 h0 e0 (omega arith) i
    ∷ second_byte t1 t2 d1 h1 (omega arith) (omega arith) i
    ∷ third_byte t2 t3 d2 h2 (omega arith) e3 i
    ∷ []

pub two_bytes :
    (t0 t1 t2 d0 d1 : ℕ)
    → IsByte d0
    → IsByte d1
    → t0 ≡ d0 / 4
    → t1 ≡ d0 % 4 * 16 + d1 / 16
    → t2 ≡ d1 % 16 * 4
    → group_bytes (t0 ∷ t1 ∷ t2 ∷ []) ≡ d0 ∷ d1 ∷ 0 ∷ []
unfolding group_bytes
two_bytes t0 t1 t2 d0 d1 h0 h1 e0 e1 e2 = λ i.
    first_byte t0 t1 d0 h0 e0 (omega arith) i
    ∷ second_byte t1 t2 d1 h1 (omega arith) (omega arith) i
    ∷ third_byte t2 0 0 (omega arith) (omega arith) refl i
    ∷ []

pub one_byte :
    (t0 t1 d0 : ℕ)
    → IsByte d0
    → t0 ≡ d0 / 4
    → t1 ≡ d0 % 4 * 16
    → group_bytes (t0 ∷ t1 ∷ []) ≡ d0 ∷ 0 ∷ []
unfolding group_bytes
one_byte t0 t1 d0 h0 e0 e1 = λ i.
    first_byte t0 t1 d0 h0 e0 (omega arith) i
    ∷ second_byte t1 0 0 (omega arith) (omega arith) refl i
    ∷ []
