-- ===== src/Binary/Text.antt =====
-- Joined bytes, text and hash values: `operator+=`, `to_string`, `to_binary` and `binary_hash` of
-- src/binary.cpp, and `hash_combine` of src/include/legio/utils.hpp. `char` is signed, and `size_t`
-- has 64 bits.
use Prim.Native.Nat.{bit_xor}
use legio.Prelude.{
  ℕ, ◌+◌, ◌-◌, ◌*◌, ◌/◌, ◌%◌, ◌^◌, ◌<◌, ◌≡◌, refl, ap, ltb, List, [], ◌∷◌, ◌++◌, map, All,
  if◌then◌else◌, arith,
}
use legio.Prelude.Int.{ℤ, pos, negsuc}

-- `binary &operator+=(binary &a, const binary &b)`, and `operator+`
unfoldable pub append_assign : List ℕ → List ℕ → List ℕ
append_assign a b = a ++ b

-- `to_integer<char>(b)`, and `byte(c)`
unfoldable pub char_of : ℕ → ℤ
char_of b = if ltb b 128 then pos b else negsuc (255 - b)

unfoldable pub byte_of : ℤ → ℕ
byte_of (pos c) = c % 256
byte_of (negsuc c) = 255 - c % 256

-- `string to_string(const binary &bin)`
unfoldable pub to_string : List ℕ → List ℤ
unfolding char_of
to_string bin = map char_of bin

-- `binary to_binary(const string &str)`
unfoldable pub to_binary : List ℤ → List ℕ
unfolding byte_of
to_binary str = map byte_of str

-- `hash_combine(std::size_t &seed, const T &v)`, for the value `hash` of `std::hash` at `v`
unfoldable pub hash_combine : ℕ → ℕ → ℕ
hash_combine seed hash =
    bit_xor seed ((hash + 0x9e3779b9 + seed * 2 ^ 6 % 2 ^ 64 + seed / 2 ^ 2) % 2 ^ 64)

-- The loop of `binary_hash`, where `hash` is `std::hash<byte>`.
unfoldable pub combine_each : (ℕ → ℕ) → ℕ → List ℕ → ℕ
unfolding hash_combine
combine_each hash seed [] = seed
combine_each hash seed (b ∷ bin) = combine_each hash (hash_combine seed (hash b)) bin

-- `size_t binary_hash::operator()(const binary &bin) const`
unfoldable pub binary_hash : (ℕ → ℕ) → List ℕ → ℕ
unfolding combine_each
binary_hash hash bin = combine_each hash 0 bin

byte_of-char_of : (b : ℕ) → b < 256 → byte_of (char_of b) ≡ b
unfolding byte_of char_of
byte_of-char_of b h = ground arith

-- Bytes are not changed by the way to text and back.
pub to_binary-to_string :
    (bin : List ℕ) → All (λ (b : ℕ). b < 256) bin → to_binary (to_string bin) ≡ bin
unfolding to_binary to_string
to_binary-to_string [] h = refl
to_binary-to_string (b ∷ bin) (h, k) =
    rw (byte_of-char_of b h) (ap (λ (l : List ℕ). b ∷ l) (to_binary-to_string bin k))

-- The hash of joined bytes goes on from the hash of the first ones.
pub binary_hash-append_assign :
    (hash : ℕ → ℕ) (a b : List ℕ)
    → binary_hash hash (append_assign a b) ≡ combine_each hash (binary_hash hash a) b
unfolding binary_hash append_assign combine_each
binary_hash-append_assign hash a b = go 0 a
  where
    go :
        (seed : ℕ) (a : List ℕ)
        → combine_each hash seed (a ++ b) ≡ combine_each hash (combine_each hash seed a) b
    go seed [] = refl
    go seed (x ∷ a) = go (hash_combine seed (hash x)) a
