-- ===== src/Prelude/Bits.antt =====
-- `&` and `|` on machine words as arithmetic: the lowest digit, fields that do not overlap, masks.
use Prim.Native.Nat.{
  ℕ, zero, suc, ◌+◌, ◌*◌, ◌/◌, ◌%◌, ◌^◌, ◌≤◌, ◌<◌, max, digits, bit_or, bit_and, bit_or-bitwise,
}
use mathlib.Core.Path.{◌≡◌, refl, ap}
use mathlib.Core.Bool.{Bool, true, ◌&&◌}
use native.Mathlib.Omega.{arith}
use native.Mathlib.Nat.{pow-suc}
use legio.Prelude.Tests.{◌==◌, ==_iff}

-- Every value below a bound, checked by evaluation.
unfoldable pub all_below : ℕ → (ℕ → Bool) → Bool
all_below zero test = true
all_below (suc bound) test = test bound && all_below bound test

pub all_below_sound :
    (bound : ℕ) (test : ℕ → Bool) (value : ℕ)
    → all_below bound test ≡ true
    → value < bound
    → test value ≡ true
unfolding all_below
all_below_sound zero test value passed below = absurd (omega arith)
all_below_sound (suc bound) test value passed below =
    ground (arith, all_below_sound bound test value)

-- Two budgets of digits agree where both cover the first number.
module _ (tail : ℕ → ℕ) (op : ℕ → ℕ → ℕ) where
  digits-agree : (m n a b : ℕ) → a ≤ m → a ≤ n → digits tail op m a b ≡ digits tail op n a b
  digits-agree (suc m) (suc n) (suc a) b p q =
      omega (arith, digits-agree m n (suc a / 2) (b / 2) (omega arith) (omega arith))
  digits-agree (suc m) (suc n) zero b p q = refl
  digits-agree zero zero a b p q = refl
  digits-agree zero (suc n) (suc a) b p q = absurd (omega arith)
  digits-agree (suc m) zero (suc a) b p q = absurd (omega arith)
  digits-agree zero (suc n) zero b p q = refl
  digits-agree (suc m) zero zero b p q = refl

or_step : (a b : ℕ) → bit_or a b ≡ bit_or (a / 2) (b / 2) * 2 + max (a % 2) (b % 2)
or_step zero b = omega (arith, bit_or-bitwise 0 b, bit_or-bitwise 0 (b / 2))
or_step (suc a) b = omega (
  arith,
  bit_or-bitwise (suc a) b,
  bit_or-bitwise (suc a / 2) (b / 2),
  digits-agree (λ y. y) max a (suc a / 2) (suc a / 2) (b / 2) (omega arith) (omega arith),
)

or_zero : (n a : ℕ) → a ≤ n → bit_or a 0 ≡ a
or_zero n zero h = refl
or_zero zero (suc a) h = absurd (omega arith)
or_zero (suc n) (suc a) h = omega (arith, or_step (suc a) 0, or_zero n (suc a / 2) (omega arith))

-- A field shifted above another one is added to it.
pub or_disjoint : (k q r : ℕ) → r < 2 ^ k → bit_or (q * 2 ^ k) r ≡ q * 2 ^ k + r
or_disjoint zero q r h =
    let z : r ≡ 0 = omega arith in rw z (omega (arith, or_zero (q * 2 ^ 0) (q * 2 ^ 0)))
or_disjoint (suc k) q r h =
    let w = pow-suc 2 k in
    let half : q * 2 ^ suc k / 2 ≡ q * 2 ^ k = omega (arith, ap (λ (t : ℕ). q * t) w) in
    let even : q * 2 ^ suc k % 2 ≡ 0 = omega (arith, ap (λ (t : ℕ). q * t) w) in
    omega (
      arith,
      or_step (q * 2 ^ suc k) r,
      ap (λ (t : ℕ). bit_or t (r / 2)) half,
      or_disjoint k q (r / 2) (omega (arith, w)),
      even,
      ap (λ (t : ℕ). q * t) w,
    )

mask_table_3 : all_below 256 (λ x. bit_and x 3 == x % 4) ≡ true
unfolding all_below
mask_table_3 = refl

mask_table_15 : all_below 256 (λ x. bit_and x 15 == x % 16) ≡ true
unfolding all_below
mask_table_15 = refl

mask_table_63 : all_below 256 (λ x. bit_and x 63 == x % 64) ≡ true
unfolding all_below
mask_table_63 = refl

-- The masks `& 3`, `& 0x0F` and `& 0x3F` on a byte.
pub mask_3 : (x : ℕ) → x < 256 → bit_and x 3 ≡ x % 4
mask_3 x h = (==_iff _ _).0 (all_below_sound 256 _ x mask_table_3 h)

pub mask_15 : (x : ℕ) → x < 256 → bit_and x 15 ≡ x % 16
mask_15 x h = (==_iff _ _).0 (all_below_sound 256 _ x mask_table_15 h)

pub mask_63 : (x : ℕ) → x < 256 → bit_and x 63 ≡ x % 64
mask_63 x h = (==_iff _ _).0 (all_below_sound 256 _ x mask_table_63 h)

-- The same where the field is known by an equation.
pub or_next : (k q a b : ℕ) → a ≡ q * 2 ^ k → b < 2 ^ k → bit_or a b ≡ a + b
or_next k q a b e h = rw e (or_disjoint k q b h)
