-- ===== src/ByteOrder.antt =====
-- The byte order functions of include/legio/utils.hpp and src/utils.cpp. A `uintN_t` is a number
-- below `2 ^ N`; its bytes in memory depend on the machine, so the machine's order is a parameter.
pub mod Laws
use mathlib.Core.List.{reverse}
use Prim.Native.Nat.{bit_or}
use legio.Prelude.{ℕ, zero, suc, ◌+◌, ◌*◌, ◌/◌, ◌%◌, ◌^◌, List, [], ◌∷◌, ◌++◌, get_or}

pub data Endian : Type 0 where
  little big : Endian

-- The bytes of a `w`-byte integer, the highest one first, and the integer of such bytes.
unfoldable pub big_endian : ℕ → ℕ → List ℕ
big_endian zero n = []
big_endian (suc w) n = big_endian w (n / 256) ++ n % 256 ∷ []

unfoldable pub from_big_endian : ℕ → List ℕ → ℕ
from_big_endian acc [] = acc
from_big_endian acc (b ∷ bs) = from_big_endian (acc * 256 + b) bs

-- `reinterpret_cast<uint8_t *>(&n)`: the memory of a `w`-byte integer.
unfoldable pub store : Endian → ℕ → ℕ → List ℕ
unfolding big_endian
store big w n = big_endian w n
store little w n = reverse (big_endian w n)

-- The integer whose memory is given.
unfoldable pub load : Endian → List ℕ → ℕ
unfolding from_big_endian
load big bs = from_big_endian 0 bs
load little bs = from_big_endian 0 (reverse bs)

-- `uint16_t htons(uint16_t n)`
unfoldable pub htons : Endian → ℕ → ℕ
unfolding store
htons e n = let p = store e 2 n in bit_or (get_or p 0 0 * 2 ^ 8) (get_or p 1 0)

-- `uint32_t htonl(uint32_t n)`
unfoldable pub htonl : Endian → ℕ → ℕ
unfolding store
htonl e n =
    let p = store e 4 n in
    bit_or (bit_or (bit_or (get_or p 0 0 * 2 ^ 24) (get_or p 1 0 * 2 ^ 16)) (get_or p 2 0 * 2 ^ 8))
      (get_or p 3 0)

-- `uint64_t htonll(uint64_t n)`
unfoldable pub htonll : Endian → ℕ → ℕ
unfolding store
htonll e n =
    let p = store e 8 n in
    let high =
      bit_or
        (bit_or (bit_or (get_or p 0 0 * 2 ^ 56) (get_or p 1 0 * 2 ^ 48)) (get_or p 2 0 * 2 ^ 40))
        (get_or p 3 0 * 2 ^ 32) in
    bit_or
      (bit_or (bit_or (bit_or high (get_or p 4 0 * 2 ^ 24)) (get_or p 5 0 * 2 ^ 16))
        (get_or p 6 0 * 2 ^ 8))
      (get_or p 7 0)

-- `uint16_t ntohs(uint16_t n)`, and for 32 and 64 bits.
unfoldable pub ntohs : Endian → ℕ → ℕ
unfolding htons
ntohs e n = htons e n

unfoldable pub ntohl : Endian → ℕ → ℕ
unfolding htonl
ntohl e n = htonl e n

unfoldable pub ntohll : Endian → ℕ → ℕ
unfolding htonll
ntohll e n = htonll e n
