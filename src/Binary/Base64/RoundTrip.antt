-- ===== src/Binary/Base64/RoundTrip.antt =====
-- What `from_base64` makes of the texts that `to_base64` writes.
use Prim.Native.Nat.{bit_and, bit_or}
use legio.Prelude.{
  zero, ℕ, suc, ◌+◌, ◌*◌, ◌/◌, ◌%◌, ◌^◌, ◌<◌, ◌≡◌, refl, Bool, true, false, ◌==◌, List, [], ◌∷◌,
  ◌++◌, length, get_or, some, arith, ◌∙◌, ap, All, ◌≤◌, if◌then◌else◌, ◌-◌, length-append, le→leb,
}
use legio.Prelude.Int.{int_max}
use legio.Prelude.Bits.{mask_3, mask_15, mask_63}
use legio.ByteOrder.Laws.{IsByte}
use legio.Binary.Base64.Alphabet.{
  Stands, IsAlphabet, base64_tab-IsAlphabet, base64url_tab-IsAlphabet,
}
use legio.Binary.Base64.Groups.{second_sextet, third_sextet, full_group, two_bytes, one_byte}
use legio.Binary.Base64.{
  base64_tab, base64url_tab, is_space, done, read_group, group_bytes, pad, decode_groups,
  encode_groups, from_base64_impl, to_base64_impl, to_base64, to_base64url,
}

-- The rounds of the inner loop.
read_next :
    (f c v : ℕ) (s tab : List ℕ)
    → length tab < 4
    → Stands c v
    → read_group (suc f) (c ∷ s) tab ≡ read_group f s (tab ++ v ∷ [])
unfolding read_group
read_next f c v s tab h k = ground (arith, k)

read_full : (f : ℕ) (s tab : List ℕ) → length tab ≡ 4 → read_group (suc f) s tab ≡ done (tab, s)
unfolding read_group
read_full f [] tab h = refl
read_full f (c ∷ s) tab h = ground arith

read_pad :
    (f : ℕ) (tab more : List ℕ)
    → length tab < 4
    → read_group (suc f) (b'=' ∷ more) tab ≡ done (tab, b'=' ∷ more)
unfolding read_group is_space
read_pad f tab more h = ground arith

-- One round of the outer loop, on a group that the inner loop has read.
decode_round :
    (f c : ℕ) (str tab left out : List ℕ)
    → (c == b'=') ≡ false
    → read_group (suc f) (c ∷ str) [] ≡ done (tab, left)
    → decode_groups f left ≡ done out
    → decode_groups (suc f) (c ∷ str) ≡ done (group_bytes tab ++ out)
unfolding decode_groups
decode_round f c str tab left out h p q = rw (h, p, q)

decode_pad : (f : ℕ) (padding : Bool) → decode_groups (suc f) (pad padding) ≡ done []
unfolding decode_groups
decode_pad f true = refl
decode_pad f false = refl

decode_pads :
    (f : ℕ) (padding : Bool) → decode_groups (suc f) (pad padding ++ pad padding) ≡ done []
unfolding decode_groups
decode_pads f true = refl
decode_pads f false = refl

read_pads :
    (f : ℕ) (padding : Bool) (g : List ℕ)
    → length g < 4
    → read_group (suc f) (pad padding ++ pad padding) g ≡ done (g, pad padding ++ pad padding)
unfolding read_group
read_pads f true g h = read_pad f g (b'=' ∷ []) h
read_pads f false g h = refl

read_one_pad :
    (f : ℕ) (padding : Bool) (g : List ℕ)
    → length g < 4
    → read_group (suc f) (pad padding) g ≡ done (g, pad padding)
unfolding read_group
read_one_pad f true g h = read_pad f g [] h
read_one_pad f false g h = refl

-- `to_base64_impl` writes only whole groups in full, and `from_base64_impl` pushes one more byte
-- for a group that is not whole.
abbrev surplus : List ℕ → List ℕ
surplus [] = []
surplus (d0 ∷ []) = 0 ∷ []
surplus (d0 ∷ d1 ∷ []) = 0 ∷ []
surplus (d0 ∷ d1 ∷ d2 ∷ rest) = surplus rest

module _ (tab : List ℕ) (alphabet : IsAlphabet tab) where
  abbrev char : ℕ → ℕ
  char v = get_or tab v 0

  read_two :
      (f t0 t1 : ℕ) (s : List ℕ)
      → t0 < 64
      → t1 < 64
      → read_group (suc (suc f)) (char t0 ∷ char t1 ∷ s) [] ≡ read_group f s (t0 ∷ t1 ∷ [])
  read_two f t0 t1 s h0 h1 =
      read_next (suc f) (char t0) t0 (char t1 ∷ s) [] (omega arith) (alphabet t0 h0)
      ∙ read_next f (char t1) t1 s (t0 ∷ []) (omega arith) (alphabet t1 h1)

  one_left :
      (f d0 : ℕ) (padding : Bool)
      → IsByte d0
      → decode_groups (suc (suc (suc (suc (suc (suc f)))))) (encode_groups (d0 ∷ []) tab padding)
        ≡ done (d0 ∷ 0 ∷ [])
  unfolding encode_groups
  one_left f d0 padding h0 =
      let t0 = d0 / 2 ^ 2 in
      let t1 = bit_and d0 3 * 2 ^ 4 in
      let e1 = mask_3 d0 h0 in
      let read =
        read_two (suc (suc (suc (suc f)))) t0 t1 (pad padding ++ pad padding) (omega arith)
          (omega arith)
        ∙ read_pads (suc (suc (suc f))) padding (t0 ∷ t1 ∷ []) (omega arith) in
      decode_round (suc (suc (suc (suc (suc f))))) (char t0) _ (t0 ∷ t1 ∷ [])
        (pad padding ++ pad padding) [] (alphabet t0 (omega arith)).inner read
        (decode_pads (suc (suc (suc (suc f)))) padding)
      ∙ ap (λ (g : List ℕ). done (g ++ [])) (one_byte t0 t1 d0 h0 refl (omega arith))

  two_left :
      (f d0 d1 : ℕ) (padding : Bool)
      → IsByte d0
      → IsByte d1
      → decode_groups
          (suc (suc (suc (suc (suc (suc f))))))
          (encode_groups (d0 ∷ d1 ∷ []) tab padding)
        ≡ done (d0 ∷ d1 ∷ 0 ∷ [])
  unfolding encode_groups
  two_left f d0 d1 padding h0 h1 =
      let t0 = d0 / 2 ^ 2 in
      let t1 = bit_or (bit_and d0 3 * 2 ^ 4) (d1 / 2 ^ 4) in
      let t2 = bit_and d1 0x0F * 2 ^ 2 in
      let e1 = second_sextet d0 d1 h0 h1 in
      let e2 = mask_15 d1 h1 in
      let read =
        read_two (suc (suc (suc (suc f)))) t0 t1 (char t2 ∷ pad padding) (omega arith) (omega arith)
        ∙ read_next (suc (suc (suc f))) (char t2) t2 (pad padding) (t0 ∷ t1 ∷ []) (omega arith)
            (alphabet t2 (omega arith))
        ∙ read_one_pad (suc (suc f)) padding (t0 ∷ t1 ∷ t2 ∷ []) (omega arith) in
      decode_round (suc (suc (suc (suc (suc f))))) (char t0) _ (t0 ∷ t1 ∷ t2 ∷ []) (pad padding) []
        (alphabet t0 (omega arith)).inner read (decode_pad (suc (suc (suc (suc f)))) padding)
      ∙ ap (λ (g : List ℕ). done (g ++ [])) (two_bytes t0 t1 t2 d0 d1 h0 h1 refl e1 (omega arith))

  three_left :
      (f d0 d1 d2 : ℕ) (rest out : List ℕ) (padding : Bool)
      → IsByte d0
      → IsByte d1
      → IsByte d2
      → decode_groups (suc (suc (suc (suc (suc f))))) (encode_groups rest tab padding) ≡ done out
      → decode_groups
          (suc (suc (suc (suc (suc (suc f))))))
          (encode_groups (d0 ∷ d1 ∷ d2 ∷ rest) tab padding)
        ≡ done (d0 ∷ d1 ∷ d2 ∷ out)
  unfolding encode_groups
  three_left f d0 d1 d2 rest out padding h0 h1 h2 ih =
      let t0 = d0 / 2 ^ 2 in
      let t1 = bit_or (bit_and d0 3 * 2 ^ 4) (d1 / 2 ^ 4) in
      let t2 = bit_or (bit_and d1 0x0F * 2 ^ 2) (d2 / 2 ^ 6) in
      let t3 = bit_and d2 0x3F in
      let e1 = second_sextet d0 d1 h0 h1 in
      let e2 = third_sextet d1 d2 h1 h2 in
      let e3 = mask_63 d2 h2 in
      let s = encode_groups rest tab padding in
      let read =
        read_two (suc (suc (suc (suc f)))) t0 t1 (char t2 ∷ char t3 ∷ s) (omega arith) (omega arith)
        ∙ read_next (suc (suc (suc f))) (char t2) t2 (char t3 ∷ s) (t0 ∷ t1 ∷ []) (omega arith)
            (alphabet t2 (omega arith))
        ∙ read_next (suc (suc f)) (char t3) t3 s (t0 ∷ t1 ∷ t2 ∷ []) (omega arith)
            (alphabet t3 (omega arith))
        ∙ read_full (suc f) s (t0 ∷ t1 ∷ t2 ∷ t3 ∷ []) refl in
      decode_round (suc (suc (suc (suc (suc f))))) (char t0) _ (t0 ∷ t1 ∷ t2 ∷ t3 ∷ []) s out
        (alphabet t0 (omega arith)).inner read ih
      ∙ ap (λ (g : List ℕ). done (g ++ out))
          (full_group t0 t1 t2 t3 d0 d1 d2 h0 h1 h2 refl e1 e2 e3)

  round_trip :
      (n : ℕ) (bin : List ℕ) (padding : Bool)
      → All IsByte bin
      → length bin ≤ n
      → decode_groups (suc (suc (suc (suc (suc n))))) (encode_groups bin tab padding)
        ≡ done (bin ++ surplus bin)
  round_trip n [] padding h k = unfold decode_groups encode_groups in refl
  round_trip zero (d0 ∷ rest) padding h k = absurd (omega arith)
  round_trip (suc n) (d0 ∷ []) padding h k = one_left n d0 padding h.0
  round_trip (suc n) (d0 ∷ d1 ∷ []) padding h k = two_left n d0 d1 padding h.0 h.1.0
  round_trip (suc n) (d0 ∷ d1 ∷ d2 ∷ rest) padding h k =
      three_left n d0 d1 d2 rest (rest ++ surplus rest) padding h.0 h.1.0 h.1.1.0
        (round_trip n rest padding h.1.1.1 (omega arith))

-- One zero byte too many, unless the length is a multiple of three.
surplus-mod : (bin : List ℕ) → surplus bin ≡ (if length bin % 3 == 0 then [] else 0 ∷ [])
surplus-mod [] = refl
surplus-mod (d0 ∷ []) = refl
surplus-mod (d0 ∷ d1 ∷ []) = refl
surplus-mod (d0 ∷ d1 ∷ d2 ∷ rest) =
    let same : length (d0 ∷ d1 ∷ d2 ∷ rest) % 3 ≡ length rest % 3 = omega arith in
    rw same (surplus-mod rest)

length-pad : (padding : Bool) → length (pad padding) ≤ 1
length-pad true = omega arith
length-pad false = omega arith

-- Four characters for each group of three bytes, at most.
pub length-encode_groups :
    (bin tab : List ℕ) (padding : Bool)
    → length (encode_groups bin tab padding) ≤ 4 * ((length bin + 2) / 3)
unfolding encode_groups
length-encode_groups [] tab padding = omega arith
length-encode_groups (d0 ∷ []) tab padding =
    omega (arith, length-append (pad padding) (pad padding), length-pad padding)
length-encode_groups (d0 ∷ d1 ∷ []) tab padding = omega (arith, length-pad padding)
length-encode_groups (d0 ∷ d1 ∷ d2 ∷ rest) tab padding =
    omega (arith, length-encode_groups rest tab padding)

-- What is written in an alphabet fits an `int`, and is decoded.
decoded_of :
    (tab : List ℕ) (n : ℕ) (bin : List ℕ) (padding : Bool)
    → IsAlphabet tab
    → All IsByte bin
    → length bin ≤ n
    → 4 * ((length bin + 2) / 3) ≤ int_max
    → (text : List ℕ) × (to_base64_impl bin tab padding ≡ some text)
      × (from_base64_impl (suc (suc (suc (suc (suc n))))) text ≡ done (bin ++ surplus bin))
unfolding to_base64_impl from_base64_impl
decoded_of tab n bin padding alphabet h l k = (
  encode_groups bin tab padding,
  rw (le→leb (length bin) (int_max + 1) (omega arith)) refl,
  rw
      (
        le→leb (length (encode_groups bin tab padding)) int_max
            (omega (arith, length-encode_groups bin tab padding)),
        round_trip tab alphabet n bin padding h l,
      )
      refl,
)

-- If four characters for each group of three bytes, whole or not, are no more than an `int` can count,
-- `to_base64` and `to_base64url` write a text, with padding or without, and `from_base64` decodes it to
-- the same bytes and, if their number is no multiple of three, one zero byte behind them. Five rounds
-- more than there are bytes are enough for its loops.
pub from_base64-to_base64 :
    (rounds : ℕ) (bin : List ℕ) (padding : Bool)
    → All IsByte bin
    → 4 * ((length bin + 2) / 3) ≤ int_max
    → length bin + 5 ≤ rounds
    → let decoded = done (bin ++ (if length bin % 3 == 0 then [] else 0 ∷ [])) in
      ((text : List ℕ) × (to_base64 bin padding ≡ some text)
        × (from_base64_impl rounds text ≡ decoded))
      × ((text : List ℕ) × (to_base64url bin padding ≡ some text)
          × (from_base64_impl rounds text ≡ decoded))
unfolding to_base64 to_base64url
from_base64-to_base64 rounds bin padding h k l =
    let n = rounds - 5 in
    let enough : rounds ≡ suc (suc (suc (suc (suc n)))) = omega arith in
    rw (enough, ← surplus-mod bin)
      (
        decoded_of base64_tab n bin padding base64_tab-IsAlphabet h (omega arith) k,
        decoded_of base64url_tab n bin padding base64url_tab-IsAlphabet h (omega arith) k,
      )
