-- ===== src/Binary/Stream/Laws.antt =====
-- The reader never leaves its bytes, and reads back what the writer wrote.
use native.Mathlib.Nat.{zero-add, suc-add}
use mathlib.Core.Path.{ap₂}
use mathlib.Core.List.{append_assoc}
use legio.Prelude.{
  ℕ, zero, suc, ◌+◌, ◌^◌, ◌≤◌, ◌<◌, ◌≡◌, refl, ap, sym, ◌∙◌, List, [], ◌∷◌, ◌++◌, take, drop,
  length, length-append, length-drop, take-append_exact, drop-append_exact, Result, ok, arith,
}
use legio.ByteOrder.{Endian, big_endian, from_big_endian, store, load, ntohs, ntohl, ntohll}
use legio.ByteOrder.Laws.{
  length-big_endian, big_endian-IsByte, from-big_endian, from-store-load, htons-from, htonl-from,
  htonll-from, hton-big_endian,
}
use legio.Binary.Stream.{
  BinaryReader, binary_reader, max_size, read, read_int16, read_int32, read_int64, size, left,
  BinaryWriter, write_int16, write_int32, write_int64, write,
}

-- A reader stands within its vector.
pub record IsWellFormed (r : BinaryReader) : Type 0 where
  pub within : r.position ≤ length r.bin
  pub sized : length r.bin ≤ max_size

pub binary_reader-IsWellFormed :
    (bin : List ℕ) → length bin ≤ max_size → IsWellFormed (binary_reader bin)
unfolding binary_reader
binary_reader-IsWellFormed bin h = omega arith

-- A call that returns `a` and leaves the bytes `rest`.
abbrev pub Yields {ℓ} : {A : Type ℓ} → Result (A × BinaryReader) → A → List ℕ → Type ℓ
Yields m a rest = (r' : BinaryReader) × (m ≡ ok (a, r')) × (left r' ≡ rest) × IsWellFormed r'

drop-nil {ℓ} : {A : Type ℓ} (n : ℕ) → drop {A = A} n [] ≡ []
drop-nil zero = refl
drop-nil (suc n) = refl

drop-drop {ℓ} : {A : Type ℓ} (m n : ℕ) (xs : List A) → drop n (drop m xs) ≡ drop (m + n) xs
drop-drop zero n xs = rw zero-add
drop-drop (suc m) n [] = rw suc-add (drop-nil n)
drop-drop (suc m) n (x ∷ xs) = rw suc-add (drop-drop m n xs)

module _ (r : BinaryReader) (n : ℕ) (v : IsWellFormed r) where
  -- A read that fits returns the first bytes that are left and leaves the others.
  pub read-ok : n ≤ size r → Yields (read r n) (take n (left r)) (drop n (left r))
  unfolding read size left
  read-ok h = (
    record r { position = r.position + n },
    ground (arith, v),
    sym (drop-drop r.position n r.bin),
    omega (arith, v),
  )

pub size-left : (r : BinaryReader) → length (left r) ≡ size r
unfolding size left
size-left r = length-drop r.position r.bin

-- Reading as many bytes as a known front has.
pub read-front :
    (r : BinaryReader) (front rest : List ℕ)
    → IsWellFormed r
    → left r ≡ front ++ rest
    → Yields (read r (length front)) front rest
read-front r front rest v e =
    let n = length front in
    let fits : n ≤ size r =
      unfold size in omega (arith, size-left r, ap length e, length-append front rest) in
    let (r', p, q, v') = read-ok r n v fits in
    (
      r',
      p ∙ ap (λ (t : List ℕ). ok (t, r')) (ap (take n) e ∙ take-append_exact n front rest refl),
      q ∙ ap (drop n) e ∙ drop-append_exact n front rest refl,
      v',
    )

-- The integers that a reader finds are those whose bytes stand there, the highest first.
module _ (e : Endian) (r : BinaryReader) (rest : List ℕ) (v : IsWellFormed r) where
  int_front : (w i : ℕ) → left r ≡ big_endian w i ++ rest → Yields (read r w) (big_endian w i) rest
  int_front w i h = rw (length-big_endian w i) at (read-front r (big_endian w i) rest v h)

  ordered : (w i : ℕ) → i < 256 ^ w → from_big_endian 0 (store e w (load e (big_endian w i))) ≡ i
  ordered w i k =
      rw (length-big_endian w i) at (from-store-load e (big_endian w i) (big_endian-IsByte w i))
      ∙ from-big_endian w i k

  pub read_int16-big_endian :
      (i : ℕ) → i < 2 ^ 16 → left r ≡ big_endian 2 i ++ rest → Yields (read_int16 e r) i rest
  unfolding read_int16 ntohs
  read_int16-big_endian i k h =
      let (r', p, q, v') = int_front 2 i h in
      (
        r',
        rw p (ap (λ (t : ℕ). ok (t, r')) (htons-from e (load e (big_endian 2 i)) ∙ ordered 2 i k)),
        q,
        v',
      )

  pub read_int32-big_endian :
      (i : ℕ) → i < 2 ^ 32 → left r ≡ big_endian 4 i ++ rest → Yields (read_int32 e r) i rest
  unfolding read_int32 ntohl
  read_int32-big_endian i k h =
      let (r', p, q, v') = int_front 4 i h in
      (
        r',
        rw p (ap (λ (t : ℕ). ok (t, r')) (htonl-from e (load e (big_endian 4 i)) ∙ ordered 4 i k)),
        q,
        v',
      )

  pub read_int64-big_endian :
      (i : ℕ) → i < 2 ^ 64 → left r ≡ big_endian 8 i ++ rest → Yields (read_int64 e r) i rest
  unfolding read_int64 ntohll
  read_int64-big_endian i k h =
      let (r', p, q, v') = int_front 8 i h in
      (
        r',
        rw p (ap (λ (t : ℕ). ok (t, r')) (htonll-from e (load e (big_endian 8 i)) ∙ ordered 8 i k)),
        q,
        v',
      )

left_after :
    (w : BinaryWriter) (r : BinaryReader) {xs : List ℕ}
    → r.position ≡ length w.bin
    → r.bin ≡ w.bin ++ xs
    → left r ≡ xs
unfolding left
left_after w r {xs} at_end h = ap₂ drop at_end h ∙ drop-append_exact (length w.bin) w.bin xs refl

-- The bytes that the three writes add.
written :
    (e : Endian) (w : BinaryWriter) (i j k : ℕ) (rest : List ℕ)
    → i < 2 ^ 16
    → j < 2 ^ 32
    → k < 2 ^ 64
    → (write_int64 e (write_int32 e (write_int16 e w i) j) k).bin ++ rest
      ≡ w.bin ++ (big_endian 2 i ++ (big_endian 4 j ++ (big_endian 8 k ++ rest)))
unfolding write_int16 write_int32 write_int64 write
written e w i j k rest hi hj hk =
    let (bi, bj, bk) = hton-big_endian e i j k hi hj hk in rw (bi, bj, bk) (simp append_assoc)

-- Integers of 16, 32 and 64 bits that a machine of order `e` writes one after the other at the end of
-- a vector are read back in that order by a machine of order `e'`, and what follows them is left.
pub read_int-write_int :
    (e e' : Endian) (w : BinaryWriter) (r : BinaryReader) (i j k : ℕ) (rest : List ℕ)
    → IsWellFormed r
    → r.position ≡ length w.bin
    → r.bin ≡ (write_int64 e (write_int32 e (write_int16 e w i) j) k).bin ++ rest
    → i < 2 ^ 16
    → j < 2 ^ 32
    → k < 2 ^ 64
    → (r1 : BinaryReader) × (r2 : BinaryReader) × (r3 : BinaryReader) × (read_int16 e' r
        ≡ ok (i, r1))
      × (read_int32 e' r1 ≡ ok (j, r2))
      × (read_int64 e' r2 ≡ ok (k, r3))
      × (left r3 ≡ rest)
read_int-write_int e e' w r i j k rest v at_end h hi hj hk =
    let start = left_after w r at_end (h ∙ written e w i j k rest hi hj hk) in
    let (r1, p1, q1, v1) =
      read_int16-big_endian e' r (big_endian 4 j ++ (big_endian 8 k ++ rest)) v i hi start in
    let (r2, p2, q2, v2) = read_int32-big_endian e' r1 (big_endian 8 k ++ rest) v1 j hj q1 in
    let (r3, p3, q3, v3) = read_int64-big_endian e' r2 rest v2 k hk q2 in
    (r1, r2, r3, p1, p2, p3, q3)
