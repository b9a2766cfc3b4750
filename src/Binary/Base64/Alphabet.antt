-- ===== src/Binary/Base64/Alphabet.antt =====
-- The two alphabets of Base64 in src/binary.cpp: each of their characters is decoded to its place.
use legio.Prelude.{
  ℕ, ◌<◌, ◌≡◌, refl, Bool, true, false, ◌&&◌, not, ◌==◌, List, get_or, Option, none, some, arith,
}
use legio.Prelude.Bits.{all_below, all_below_sound}
use legio.Binary.Base64.{base64_tab, base64url_tab, is_space, digit}

-- A character that stands for the six bits `v`.
pub record Stands (c v : ℕ) : Type 0 where
  pub value : digit c ≡ some v
  pub visible : is_space c ≡ false
  pub inner : (c == b'=') ≡ false

abbrev pub IsAlphabet : List ℕ → Type 0
IsAlphabet tab = (v : ℕ) → v < 64 → Stands (get_or tab v 0) v

is_digit_of : ℕ → Option ℕ → Bool
is_digit_of v none = false
is_digit_of v (some w) = w == v

stands : List ℕ → ℕ → Bool
stands tab v =
    let c = get_or tab v 0 in is_digit_of v (digit c) && not (is_space c) && not (c == b'=')

stands_sound : (tab : List ℕ) (v : ℕ) → stands tab v ≡ true → Stands (get_or tab v 0) v
unfolding stands is_digit_of
stands_sound tab v h = record { value = ground arith; visible = ground arith; inner = ground arith }

base64_table : all_below 64 (stands base64_tab) ≡ true
unfolding all_below stands is_digit_of digit is_space
base64_table = refl

base64url_table : all_below 64 (stands base64url_tab) ≡ true
unfolding all_below stands is_digit_of digit is_space
base64url_table = refl

pub base64_tab-IsAlphabet : IsAlphabet base64_tab
base64_tab-IsAlphabet v h =
    stands_sound base64_tab v (all_below_sound 64 (stands base64_tab) v base64_table h)

pub base64url_tab-IsAlphabet : IsAlphabet base64url_tab
base64url_tab-IsAlphabet v h =
    stands_sound base64url_tab v (all_below_sound 64 (stands base64url_tab) v base64url_table h)
