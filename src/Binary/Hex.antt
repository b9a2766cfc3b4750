-- ===== src/Binary/Hex.antt =====
-- `to_hex` and `from_hex` of src/binary.cpp. The stream extractions that they use read and write
-- as the C++ library says: `>> std::hex >> value` skips spaces, takes a sign and a prefix `0x`,
-- reads digits as long as there are some, and fails without any.
use Prim.Native.Nat.{bit_and}
use legio.Prelude.{
  ℕ, ◌+◌, ◌-◌, ◌*◌, ◌/◌, ◌%◌, ◌^◌, ◌≡◌, ◌≢◌, refl, Bool, true, false, ◌&&◌, ◌||◌, leb, ltb, ◌==◌,
  ==_iff, if◌then◌else◌, List, [], ◌∷◌, All, Option, none, some, Result, ok, or_throw,
  invalid_hexadecimal, ◌>>=◌, arith, ap, ◌<◌, ◌≤◌, length, le→leb,
}
use legio.Prelude.Int.{int_max}
use legio.Prelude.Bits.{all_below, all_below_sound}
use legio.ByteOrder.Laws.{IsByte}
use legio.Binary.Base64.{is_space}

-- `std::hex << std::uppercase`
unfoldable pub hex_digit : ℕ → ℕ
hex_digit v = if ltb v 10 then b'0' + v else b'A' + (v - 10)

-- The loop of `to_hex`: two digits for each byte, filled with '0'.
unfoldable pub write_hex : List ℕ → List ℕ
unfolding hex_digit
write_hex [] = []
write_hex (b ∷ bin) = hex_digit (b / 16) ∷ hex_digit (b % 16) ∷ write_hex bin

-- `string to_hex(const binary &bin)`: `none` is the undefined behaviour of `++i` at the largest `int`.
unfoldable pub to_hex : List ℕ → Option (List ℕ)
unfolding write_hex
to_hex bin = if leb (length bin) int_max then some (write_hex bin) else none

unfoldable pub hex_value : ℕ → Option ℕ
hex_value c =
    if leb b'0' c && leb c b'9'
    then some (c - b'0')
    else if leb b'a' c && leb c b'f'
    then some (c - b'a' + 10)
    else if leb b'A' c && leb c b'F'
    then some (c - b'A' + 10)
    else none

-- The digits at the front, on top of `acc`.
unfoldable pub leading : ℕ → List ℕ → ℕ
unfolding hex_value
leading acc [] = acc
leading acc (c ∷ s) = elim (hex_value c) [ none ↦ acc | some v ↦ leading (acc * 16 + v) s ]

unfoldable pub some_digits : List ℕ → Option ℕ
unfolding leading
some_digits [] = none
some_digits (c ∷ s) = elim (hex_value c) [ none ↦ none | some v ↦ some (leading v s) ]

unfoldable pub unsigned : List ℕ → Option ℕ
unfolding some_digits
unsigned [] = none
unsigned (c ∷ []) = some_digits (c ∷ [])
unsigned (c ∷ d ∷ s) =
    if c == b'0' && (d == b'x' || d == b'X') then some_digits s else some_digits (c ∷ d ∷ s)

-- The value of `unsigned` after a minus sign.
unfoldable pub negated : Option ℕ → Option ℕ
negated none = none
negated (some v) = some ((2 ^ 32 - v) % 2 ^ 32)

unfoldable pub signed : List ℕ → Option ℕ
unfolding unsigned negated
signed [] = none
signed (c ∷ s) =
    if c == b'-' then negated (unsigned s) else if c == b'+' then unsigned s else unsigned (c ∷ s)

-- `iss >> std::hex >> value`
unfoldable pub extract_hex : List ℕ → Option ℕ
unfolding signed is_space
extract_hex [] = none
extract_hex (c ∷ s) = let rest = extract_hex s in if is_space c then rest else signed (c ∷ s)

-- The loop of `from_hex`: an odd last digit is taken with a '0' behind it.
unfoldable pub read_hex : List ℕ → Result (List ℕ)
unfolding extract_hex
read_hex [] = ok []
read_hex (c ∷ []) = or_throw (extract_hex (c ∷ b'0' ∷ [])) invalid_hexadecimal >>= λ value.
    ok (bit_and value 0xFF ∷ [])
read_hex (c ∷ d ∷ str) =
    let rest = read_hex str in
    or_throw (extract_hex (c ∷ d ∷ [])) invalid_hexadecimal >>= λ value.
    rest >>= λ out. ok (bit_and value 0xFF ∷ out)

-- `binary from_hex(const string &str)`: beyond 2^31 characters, `i * 2` or the count of the bytes is
-- more than an `int` can hold; `none` leaves open what is done then.
unfoldable pub from_hex : List ℕ → Option (Result (List ℕ))
unfolding read_hex
from_hex str = if leb (length str) (int_max + 1) then some (read_hex str) else none

is_some_of : ℕ → Option ℕ → Bool
is_some_of v none = false
is_some_of v (some w) = bit_and w 0xFF == v

read_byte : ℕ → Option ℕ
unfolding extract_hex hex_digit
read_byte b = extract_hex (hex_digit (b / 16) ∷ hex_digit (b % 16) ∷ [])

byte_table : all_below 256 (λ b. is_some_of b (read_byte b)) ≡ true
unfolding all_below is_some_of read_byte
byte_table = refl

step_of :
    (b : ℕ) (o : Option ℕ) (r : Result (List ℕ)) (out : List ℕ)
    → is_some_of b o ≡ true
    → r ≡ ok out
    → (or_throw o invalid_hexadecimal >>= λ value. r >>= λ out. ok (bit_and value 0xFF ∷ out))
      ≡ ok (b ∷ out)
unfolding is_some_of
step_of b none r out h e = cc
step_of b (some w) r out h e = rw (e, (==_iff _ _).0 h)

read_hex-write_hex : (bin : List ℕ) → All IsByte bin → read_hex (write_hex bin) ≡ ok bin
unfolding read_hex write_hex read_byte
read_hex-write_hex [] h = refl
read_hex-write_hex (b ∷ bin) h =
    step_of b (read_byte b) (read_hex (write_hex bin)) bin
      (all_below_sound 256 (λ x. is_some_of x (read_byte x)) b byte_table h.0)
      (read_hex-write_hex bin h.1)

length-write_hex : (bin : List ℕ) → length (write_hex bin) ≡ 2 * length bin
unfolding write_hex
length-write_hex [] = omega arith
length-write_hex (b ∷ bin) = omega (arith, length-write_hex bin)

-- `to_hex` writes every string of at most 2^30 bytes, and `from_hex` gives it back.
pub from_hex-to_hex :
    (bin : List ℕ)
    → All IsByte bin
    → length bin ≤ 2 ^ 30
    → (str : List ℕ) × (to_hex bin ≡ some str) × (from_hex str ≡ some (ok bin))
unfolding to_hex from_hex
from_hex-to_hex bin h k = (
  write_hex bin,
  rw (le→leb (length bin) int_max (omega arith)) refl,
  rw
      (
        le→leb (length (write_hex bin)) (int_max + 1) (omega (arith, length-write_hex bin)),
        read_hex-write_hex bin h,
      )
      refl,
)

hex_value-lt : (c v : ℕ) → hex_value c ≡ some v → v < 16
unfolding hex_value
hex_value-lt c v h = ground arith

byte_mask : all_below 16 (λ v. bit_and v 0xFF == v) ≡ true
unfolding all_below
byte_mask = refl

extract_lenient :
    (c d v : ℕ)
    → hex_value c ≡ some v
    → hex_value d ≡ none
    → d ≢ b'x'
    → d ≢ b'X'
    → extract_hex (c ∷ d ∷ []) ≡ some v
unfolding extract_hex
extract_lenient c d v hc hd x y = ground arith

-- A second character that is no digit is dropped without an error, and `from_hex` takes the first
-- one for the whole byte: so for each digit and each other character, but an `x` after a '0'.
pub from_hex_lenient :
    (c d v : ℕ)
    → hex_value c ≡ some v
    → hex_value d ≡ none
    → d ≢ b'x'
    → d ≢ b'X'
    → from_hex (c ∷ d ∷ []) ≡ some (ok (v ∷ []))
unfolding from_hex read_hex
from_hex_lenient c d v hc hd x y = rw (extract_lenient c d v hc hd x y) (
    ap (λ (t : ℕ). some (ok (t ∷ [])))
      ((==_iff _ _).0 (all_below_sound 16 _ v byte_mask (hex_value-lt c v hc))))
