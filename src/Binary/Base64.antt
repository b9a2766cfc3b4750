-- ===== src/Binary/Base64.antt =====
-- `to_base64`, `to_base64url` and `from_base64` of src/binary.cpp.
mod Alphabet
mod Groups
pub mod RoundTrip
use Prim.Native.Nat.{bit_and, bit_or}
use Prim.Native.Char.{code}
use Prim.Native.String.{String}
use legio.Prelude.Int.{int_max}
use legio.Prelude.{
  ℕ, zero, suc, ◌+◌, ◌-◌, ◌*◌, ◌/◌, ◌%◌, ◌^◌, Bool, true, false, ◌&&◌, ◌||◌, leb, ltb, ◌==◌,
  if◌then◌else◌, List, [], ◌∷◌, ◌++◌, length, get_or, Option, none, some,
}

abbrev codes : String → List ℕ
codes String.[] = []
codes (String.◌∷◌ c s) = code c ∷ codes s

abbrev pub base64_tab : List ℕ
base64_tab = codes "ABCDEFGHIJKLMNOPQRSTUVWXYZabcdefghijklmnopqrstuvwxyz0123456789+/"

abbrev pub base64url_tab : List ℕ
base64url_tab = codes "ABCDEFGHIJKLMNOPQRSTUVWXYZabcdefghijklmnopqrstuvwxyz0123456789-_"

-- `out += '='` under `if (padding)`
abbrev pad : Bool → List ℕ
pad padding = if padding then b'=' ∷ [] else []

-- The loop of `to_base64_impl` and what follows it: the list is what `i` has not passed.
unfoldable pub encode_groups : List ℕ → List ℕ → Bool → List ℕ
encode_groups [] tab padding = []
encode_groups (d0 ∷ []) tab padding =
    get_or tab (d0 / 2 ^ 2) 0 ∷ get_or tab (bit_and d0 3 * 2 ^ 4) 0 ∷ pad padding ++ pad padding
encode_groups (d0 ∷ d1 ∷ []) tab padding =
    get_or tab (d0 / 2 ^ 2) 0
    ∷ get_or tab (bit_or (bit_and d0 3 * 2 ^ 4) (d1 / 2 ^ 4)) 0
    ∷ get_or tab (bit_and d1 0x0F * 2 ^ 2) 0
    ∷ pad padding
encode_groups (d0 ∷ d1 ∷ d2 ∷ rest) tab padding =
    get_or tab (d0 / 2 ^ 2) 0
    ∷ get_or tab (bit_or (bit_and d0 3 * 2 ^ 4) (d1 / 2 ^ 4)) 0
    ∷ get_or tab (bit_or (bit_and d1 0x0F * 2 ^ 2) (d2 / 2 ^ 6)) 0
    ∷ get_or tab (bit_and d2 0x3F) 0
    ∷ encode_groups rest tab padding

-- `string to_base64_impl(const binary &bin, const char *tab, bool padding)`: `none` is the undefined
-- behaviour of an index beyond the largest `int`.
unfoldable pub to_base64_impl : List ℕ → List ℕ → Bool → Option (List ℕ)
unfolding encode_groups
to_base64_impl bin tab padding =
    if leb (length bin) (int_max + 1) then some (encode_groups bin tab padding) else none

unfoldable pub to_base64 : List ℕ → Bool → Option (List ℕ)
unfolding to_base64_impl
to_base64 bin padding = to_base64_impl bin base64_tab padding

unfoldable pub to_base64url : List ℕ → Bool → Option (List ℕ)
unfolding to_base64_impl
to_base64url bin padding = to_base64_impl bin base64url_tab padding

-- `std::isspace` in the "C" locale
unfoldable pub is_space : ℕ → Bool
is_space c = c == 32 || (leb 9 c && leb c 13)

-- The six bits of a character, in either alphabet.
unfoldable pub digit : ℕ → Option ℕ
digit c =
    if leb b'A' c && leb c b'Z'
    then some (c - b'A')
    else if leb b'a' c && leb c b'z'
    then some (c + 26 - b'a')
    else if leb b'0' c && leb c b'9'
    then some (c + 52 - b'0')
    else if c == b'+' || c == b'-'
    then some 62
    else if c == b'/' || c == b'_'
    then some 63
    else none

-- `unfinished` and `overflow` are no results of the code: the given number of rounds did not end the
-- loop, or the text is longer than an `int` can index, which leaves open what is done.
pub data Decoded (A : Type 0) : Type 0 where
  done : A → Decoded A
  invalid_character unfinished overflow : Decoded A

infixl 5 ◌>>=◌
abbrev pub ◌>>=◌ : {A B : Type 0} → Decoded A → (A → Decoded B) → Decoded B
done a >>= f = f a
invalid_character >>= f = invalid_character
unfinished >>= f = unfinished
overflow >>= f = overflow

-- The inner loop: `tab` holds the `j` digits that it has read. At a space `continue` goes to the
-- next round with `i` and `j` as they are.
unfoldable pub read_group : ℕ → List ℕ → List ℕ → Decoded (List ℕ × List ℕ)
unfolding is_space digit
read_group zero str tab = unfinished
read_group (suc fuel) [] tab = done (tab, [])
read_group (suc fuel) (c ∷ str) tab =
    let again = read_group fuel (c ∷ str) tab in
    let next : Decoded (List ℕ × List ℕ) = elim (digit c) [
      | none ↦ invalid_character
      | some v ↦ read_group fuel str (tab ++ v ∷ [])
    ] in
    if leb 4 (length tab)
    then done (tab, c ∷ str)
    else if is_space c
    then again
    else if c == b'='
    then done (tab, c ∷ str)
    else next

-- `byte` arithmetic on the zero-filled `tab[4]`: what is pushed for `j` digits.
unfoldable pub group_bytes : List ℕ → List ℕ
group_bytes tab =
    let t0 = get_or tab 0 0 in
    let t1 = get_or tab 1 0 in
    let t2 = get_or tab 2 0 in
    let t3 = get_or tab 3 0 in
    let b0 = bit_or (t0 * 2 ^ 2 % 256) (t1 / 2 ^ 4) in
    let b1 = bit_or (t1 * 2 ^ 4 % 256) (t2 / 2 ^ 2) in
    let b2 = bit_or (t2 * 2 ^ 6 % 256) t3 in
    if ltb 0 (length tab)
    then b0 ∷ (if ltb 1 (length tab) then b1 ∷ (if ltb 2 (length tab) then b2 ∷ [] else []) else [])
    else []

-- The outer loop of `from_base64_impl`.
unfoldable pub decode_groups : ℕ → List ℕ → Decoded (List ℕ)
decode_groups zero str = unfinished
decode_groups (suc fuel) [] = done []
decode_groups (suc fuel) (c ∷ str) =
    let rest = read_group (suc fuel) (c ∷ str) [] >>= λ (tab, left).
    decode_groups fuel left >>= λ out. done (group_bytes tab ++ out) in
    if c == b'=' then done [] else rest

-- `binary from_base64_impl(const string &str)`
unfoldable pub from_base64_impl : ℕ → List ℕ → Decoded (List ℕ)
unfolding decode_groups
from_base64_impl rounds str =
    let decoded = decode_groups rounds str in if leb (length str) int_max then decoded else overflow
