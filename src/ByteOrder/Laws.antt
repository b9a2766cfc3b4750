-- ===== src/ByteOrder/Laws.antt =====
-- What the byte order functions of src/utils.cpp do, on machines of either order.
use mathlib.Core.List.{reverse, reverse-cons, reverse-reverse}
use Prim.Native.Nat.{bit_or}
use native.Mathlib.Nat.{pow-suc}
use legio.Prelude.{
  ℕ, zero, suc, ◌+◌, ◌*◌, ◌/◌, ◌%◌, ◌^◌, ◌<◌, ◌≡◌, refl, ap, ◌∙◌, List, [], ◌∷◌, ◌++◌, length,
  length-append, All, All-append, All-reverse, length-reverse, arith,
}
use legio.Prelude.Bits.{or_next}
use legio.ByteOrder.{
  Endian, little, big, big_endian, from_big_endian, store, load, htons, htonl, htonll, ntohl, ntohs,
}

abbrev pub IsByte : ℕ → Type 0
IsByte b = b < 256

pub length-big_endian : (w n : ℕ) → length (big_endian w n) ≡ w
unfolding big_endian
length-big_endian zero n = refl
length-big_endian (suc w) n =
    omega
      (arith, length-append (big_endian w (n / 256)) (n % 256 ∷ []), length-big_endian w (n / 256))

pub big_endian-IsByte : (w n : ℕ) → All IsByte (big_endian w n)
unfolding big_endian
big_endian-IsByte zero n = tt
big_endian-IsByte (suc w) n =
    All-append IsByte (big_endian w (n / 256)) _ (big_endian-IsByte w (n / 256)) (omega arith)

from-append :
    (xs : List ℕ) (acc b : ℕ)
    → from_big_endian acc (xs ++ b ∷ []) ≡ from_big_endian acc xs * 256 + b
unfolding from_big_endian
from-append [] acc b = refl
from-append (x ∷ xs) acc b = from-append xs (acc * 256 + x) b

pub from-big_endian : (w n : ℕ) → n < 256 ^ w → from_big_endian 0 (big_endian w n) ≡ n
unfolding big_endian from_big_endian
from-big_endian zero n h = omega arith
from-big_endian (suc w) n h = omega (
  arith,
  from-append (big_endian w (n / 256)) 0 (n % 256),
  from-big_endian w (n / 256) (omega (arith, pow-suc 256 w)),
)

-- A number is determined by its bytes.
pub big_endian-from :
    (ys : List ℕ)
    → All IsByte ys
    → big_endian (length ys) (from_big_endian 0 (reverse ys)) ≡ reverse ys
unfolding big_endian from_big_endian
big_endian-from [] h = refl
big_endian-from (y ∷ ys) h =
    let x = from_big_endian 0 (reverse ys) in
    let high : (x * 256 + y) / 256 ≡ x = omega arith in
    let low : (x * 256 + y) % 256 ≡ y = omega arith in
    rw (reverse-cons y ys, from-append (reverse ys) 0 y, high, low)
      (ap (λ (t : List ℕ). t ++ y ∷ []) (big_endian-from ys h.1))

-- Reading the memory as if it were big-endian, and storing the result, puts the bytes in network
-- order whatever the order of the machine.
pub store-from :
    (e : Endian) (w n : ℕ)
    → n < 256 ^ w
    → store e w (from_big_endian 0 (store e w n)) ≡ big_endian w n
unfolding store
store-from big w n h = rw (from-big_endian w n h)
store-from little w n h =
    let bytes = big_endian-from (big_endian w n) (big_endian-IsByte w n) in
    ap reverse (rw (length-big_endian w n) at bytes) ∙ reverse-reverse (big_endian w n)

-- The same for bytes that arrive.
pub from-store-load :
    (e : Endian) (bs : List ℕ)
    → All IsByte bs
    → from_big_endian 0 (store e (length bs) (load e bs)) ≡ from_big_endian 0 bs
unfolding store load
from-store-load big bs h =
    let bytes = big_endian-from (reverse bs) (All-reverse IsByte bs h) in
    ap (from_big_endian 0) (rw (reverse-reverse, length-reverse) at bytes)
from-store-load little bs h =
    ap (from_big_endian 0) (ap reverse (big_endian-from bs h) ∙ reverse-reverse bs)

or_bytes_2 : (a b : ℕ) → IsByte a → IsByte b → bit_or (a * 2 ^ 8) b ≡ from_big_endian 0 (a ∷ b ∷ [])
unfolding from_big_endian
or_bytes_2 a b ha hb = omega (arith, or_next 8 a (a * 2 ^ 8) b refl hb)

or_bytes_4 :
    (a b c d : ℕ)
    → IsByte a
    → IsByte b
    → IsByte c
    → IsByte d
    → bit_or (bit_or (bit_or (a * 2 ^ 24) (b * 2 ^ 16)) (c * 2 ^ 8)) d
      ≡ from_big_endian 0 (a ∷ b ∷ c ∷ d ∷ [])
unfolding from_big_endian
or_bytes_4 a b c d ha hb hc hd =
    rw
      (
        or_next 24 a (a * 2 ^ 24) (b * 2 ^ 16) refl (omega arith),
        or_next 16 (a * 2 ^ 8 + b) (a * 2 ^ 24 + b * 2 ^ 16) (c * 2 ^ 8) (omega arith)
            (omega arith),
        or_next 8 (a * 2 ^ 16 + b * 2 ^ 8 + c) (a * 2 ^ 24 + b * 2 ^ 16 + c * 2 ^ 8) d (omega arith)
            hd,
      )
      (omega arith)

or_bytes_8 :
    (a b c d e f g h : ℕ)
    → All IsByte (a ∷ b ∷ c ∷ d ∷ e ∷ f ∷ g ∷ h ∷ [])
    → bit_or
        (bit_or
          (bit_or
            (bit_or
              (bit_or (bit_or (bit_or (a * 2 ^ 56) (b * 2 ^ 48)) (c * 2 ^ 40)) (d * 2 ^ 32))
              (e * 2 ^ 24))
            (f * 2 ^ 16))
          (g * 2 ^ 8))
        h
      ≡ from_big_endian 0 (a ∷ b ∷ c ∷ d ∷ e ∷ f ∷ g ∷ h ∷ [])
unfolding from_big_endian
or_bytes_8 a b c d e f g h hs =
    let s2 = a * 2 ^ 56 + b * 2 ^ 48 in
    let s3 = s2 + c * 2 ^ 40 in
    let s4 = s3 + d * 2 ^ 32 in
    let s5 = s4 + e * 2 ^ 24 in
    let s6 = s5 + f * 2 ^ 16 in
    let s7 = s6 + g * 2 ^ 8 in
    rw
      (
        or_next 56 a (a * 2 ^ 56) (b * 2 ^ 48) refl (omega arith),
        or_next 48 (a * 2 ^ 8 + b) s2 (c * 2 ^ 40) (omega arith) (omega arith),
        or_next 40 (a * 2 ^ 16 + b * 2 ^ 8 + c) s3 (d * 2 ^ 32) (omega arith) (omega arith),
        or_next 32 (a * 2 ^ 24 + b * 2 ^ 16 + c * 2 ^ 8 + d) s4 (e * 2 ^ 24) (omega arith)
            (omega arith),
        or_next 24 (a * 2 ^ 32 + b * 2 ^ 24 + c * 2 ^ 16 + d * 2 ^ 8 + e) s5 (f * 2 ^ 16)
            (omega arith) (omega arith),
        or_next 16 (a * 2 ^ 40 + b * 2 ^ 32 + c * 2 ^ 24 + d * 2 ^ 16 + e * 2 ^ 8 + f) s6
            (g * 2 ^ 8) (omega arith) (omega arith),
        or_next 8 (a * 2 ^ 48 + b * 2 ^ 40 + c * 2 ^ 32 + d * 2 ^ 24 + e * 2 ^ 16 + f * 2 ^ 8 + g)
            s7 h (omega arith) (omega arith),
      )
      (omega arith)

pub htons-from : (e : Endian) (n : ℕ) → htons e n ≡ from_big_endian 0 (store e 2 n)
unfolding htons
htons-from big n = or_bytes_2 _ _ (omega arith) (omega arith)
htons-from little n = or_bytes_2 _ _ (omega arith) (omega arith)

pub htonl-from : (e : Endian) (n : ℕ) → htonl e n ≡ from_big_endian 0 (store e 4 n)
unfolding htonl
htonl-from big n = or_bytes_4 _ _ _ _ (omega arith) (omega arith) (omega arith) (omega arith)
htonl-from little n = or_bytes_4 _ _ _ _ (omega arith) (omega arith) (omega arith) (omega arith)

pub htonll-from : (e : Endian) (n : ℕ) → htonll e n ≡ from_big_endian 0 (store e 8 n)
unfolding htonll
htonll-from big n = or_bytes_8 _ _ _ _ _ _ _ _ (omega arith)
htonll-from little n = or_bytes_8 _ _ _ _ _ _ _ _ (omega arith)

pub hton_network_order :
    (e : Endian) (n : ℕ)
    → (n < 2 ^ 16 → store e 2 (htons e n) ≡ big_endian 2 n)
      × (n < 2 ^ 32 → store e 4 (htonl e n) ≡ big_endian 4 n)
      × (n < 2 ^ 64 → store e 8 (htonll e n) ≡ big_endian 8 n)
hton_network_order e n = (
  λ h. rw (htons-from e n) (store-from e 2 n h),
  λ h. rw (htonl-from e n) (store-from e 4 n h),
  λ h. rw (htonll-from e n) (store-from e 8 n h),
)

-- On a machine of either byte order, the memory of `htons(i)`, `htonl(j)` and `htonll(k)` holds the
-- bytes of the number with the highest first, for numbers that the integer type can hold.
pub hton-big_endian :
    (e : Endian) (i j k : ℕ)
    → i < 2 ^ 16
    → j < 2 ^ 32
    → k < 2 ^ 64
    → (store e 2 (htons e i) ≡ big_endian 2 i)
      × (store e 4 (htonl e j) ≡ big_endian 4 j)
      × (store e 8 (htonll e k) ≡ big_endian 8 k)
hton-big_endian e i j k hi hj hk =
    ((hton_network_order e i).0 hi, (hton_network_order e j).1 hj, (hton_network_order e k).2 hk)

-- Bytes in network order, read into memory, give back the number.
pub ntohs-load : (e : Endian) (n : ℕ) → n < 2 ^ 16 → ntohs e (load e (big_endian 2 n)) ≡ n
unfolding ntohs
ntohs-load e n h =
    htons-from e (load e (big_endian 2 n))
    ∙ rw (length-big_endian 2 n) at (from-store-load e (big_endian 2 n) (big_endian-IsByte 2 n))
    ∙ from-big_endian 2 n h

pub ntohl-load : (e : Endian) (n : ℕ) → n < 2 ^ 32 → ntohl e (load e (big_endian 4 n)) ≡ n
unfolding ntohl
ntohl-load e n h =
    htonl-from e (load e (big_endian 4 n))
    ∙ rw (length-big_endian 4 n) at (from-store-load e (big_endian 4 n) (big_endian-IsByte 4 n))
    ∙ from-big_endian 4 n h
