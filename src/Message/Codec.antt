-- ===== src/Message/Codec.antt =====
-- The wire format of `Message`, described byte by byte, and the round trip through it.
use Prim.Native.Nat.{bit_and}
use legio.Prelude.{
  ℕ, suc, ◌-◌, ◌^◌, ◌<◌, ◌≤◌, ◌≡◌, refl, ap, sym, ◌∙◌, true, not, ◌==◌, List, [], ◌∷◌, ◌++◌,
  append_assoc, append-nil, length, take, drop, get_or, length-append, take-append_exact,
  drop-append_exact, Option, none, some, has_value, ok, err, arith,
}
use legio.ByteOrder.{Endian, big_endian, load, ntohs, ntohl}
use legio.ByteOrder.Laws.{length-big_endian, hton_network_order, ntohs-load, ntohl-load}
use legio.Binary.Stream.{BinaryReader, binary_reader, max_size, left, BinaryWriter, write}
use legio.Binary.Stream.Laws.{IsWellFormed, binary_reader-IsWellFormed, Yields, read-front}
use legio.Crypto.{CryptoPp, CryptoLaws, ecdsa_public, public_key}
use legio.Message.{
  Message, header_bytes, flag_source, flag_destination, write_optional, flags_of, to_binary,
  read_optional, check_signature, parse, body_too_long, leb,
}

lt→leb : (a b : ℕ) → a < suc b → leb a b ≡ true
lt→leb a b h = ground arith

-- The byte of flags: 1 for a source and 2 for a destination.
abbrev pub wire_flags : {Identifier : Type 0} → Option Identifier → Option Identifier → ℕ
wire_flags none none = 0
wire_flags (some s) none = 1
wire_flags none (some d) = 2
wire_flags (some s) (some d) = 3

flags_of-wire : {Identifier : Type 0} (s d : Option Identifier) → flags_of s d ≡ wire_flags s d
unfolding flags_of
flags_of-wire none none = refl
flags_of-wire none (some d) = refl
flags_of-wire (some s) none = refl
flags_of-wire (some s) (some d) = refl

flags-source :
    {Identifier : Type 0} (s d : Option Identifier)
    → not (bit_and (wire_flags s d) flag_source == 0) ≡ has_value s
flags-source none none = refl
flags-source none (some d) = refl
flags-source (some s) none = refl
flags-source (some s) (some d) = refl

flags-destination :
    {Identifier : Type 0} (s d : Option Identifier)
    → not (bit_and (wire_flags s d) flag_destination == 0) ≡ has_value d
flags-destination none none = refl
flags-destination none (some d) = refl
flags-destination (some s) none = refl
flags-destination (some s) (some d) = refl

-- What the header can say of a message, and keys that `Validate` accepts.
module _ (c : CryptoPp) where
  open c use {Point, PrivateKey, make_public_key, validate, encode_point}

  abbrev pub IsValidKey : Option Point → Type 0
  IsValidKey none = Unit {0}
  IsValidKey (some p) = validate p ≡ true

  pub record IsEncodable (m : Message Point) : Type 0 where
    pub type_byte : m.type < 256
    pub sequence_word : m.sequence < 2 ^ 32
    pub body_size : length m.body < 2 ^ 16
    pub source_valid : IsValidKey m.source
    pub destination_valid : IsValidKey m.destination

  -- The bytes of an optional identifier.
  abbrev pub optional_bytes : Option Point → List ℕ
  optional_bytes none = []
  optional_bytes (some p) = encode_point p

  unfoldable pub wire_header : Message Point → List ℕ
  wire_header m =
      m.type ∷ wire_flags m.source m.destination ∷ big_endian 2 (length m.body)
      ++ big_endian 4 m.sequence

  unfoldable pub wire_rest : Message Point → List ℕ
  wire_rest m = optional_bytes m.source ++ (optional_bytes m.destination ++ (m.body ++ m.signature))

  -- Type, flags, size of the body and sequence number with the highest byte first, the identifiers
  -- that there are, body and signature.
  unfoldable pub wire : Message Point → List ℕ
  unfolding wire_header wire_rest
  wire m = wire_header m ++ wire_rest m

  write_optional-bin :
      (w : BinaryWriter) (o : Option Point) → (write_optional c w o).bin ≡ w.bin ++ optional_bytes o
  unfolding write_optional write public_key
  write_optional-bin w none = sym (append-nil w.bin)
  write_optional-bin w (some p) = refl

  module _ (e : Endian) where
    header_bytes-wire :
        (m : Message Point)
        → IsEncodable m
        → header_bytes e m.type (flags_of m.source m.destination) (length m.body) m.sequence
          ≡ wire_header m
    unfolding header_bytes wire_header
    header_bytes-wire m v = rw (
      flags_of-wire m.source m.destination,
      (hton_network_order e (length m.body)).0 v.body_size,
      (hton_network_order e m.sequence).1 v.sequence_word,
    )

    -- A message with a type, a number, a body and keys that the format can hold is written as its
    -- wire format on machines of either byte order: the type, the flags, 1 for a source and 2 for
    -- a destination, the size of the body in two bytes and the number in four, the highest first,
    -- the source and the destination that there are, the body, and the signature.
    pub to_binary-wire : (m : Message Point) → IsEncodable m → to_binary c e m ≡ ok (wire m)
    unfolding to_binary wire wire_rest write
    to_binary-wire m v =
        rw
          (
            lt→leb (length m.body) 65535 v.body_size,
            write_optional-bin,
            write_optional-bin,
            header_bytes-wire m v,
          )
          (simp append_assoc)

    -- A longer body is refused.
    pub to_binary-too_long :
        (m : Message Point) → 2 ^ 16 ≤ length m.body → to_binary c e m ≡ err body_too_long
    unfolding to_binary
    to_binary-too_long m h = ground arith

module _ (c : CryptoPp) (laws : CryptoLaws c) where
  open c use {Point, PrivateKey, make_public_key, validate, encode_point}

  pub ecdsa_public-encode : (p : Point) → validate p ≡ true → ecdsa_public c (encode_point p) ≡ ok p
  unfolding ecdsa_public
  ecdsa_public-encode p h = rw (laws.decode-encode p, h)

  -- An identifier is read exactly if its flag is set.
  read_optional-bytes :
      (r : BinaryReader) (o : Option Point) (rest : List ℕ)
      → IsWellFormed r
      → IsValidKey c o
      → left r ≡ optional_bytes c o ++ rest
      → Yields (read_optional c (has_value o) r) o rest
  unfolding read_optional
  read_optional-bytes r none rest v k h = (r, refl, h, v)
  read_optional-bytes r (some p) rest v k h =
      let (r', e, q, v') = rw (laws.length-encode p) at (read-front r (encode_point p) rest v h) in
      (r', rw (e, ecdsa_public-encode p k), q, v')

  -- The bytes that a signature covers.
  unfoldable pub signed_bytes : Message Point → List ℕ
  signed_bytes m = wire c (record m { signature = [] })

  -- A message whose source, if it has one, signed it.
  abbrev pub IsAuthentic : Message Point → Type 0
  IsAuthentic m = check_signature c m.source (signed_bytes m) m.signature ≡ ok tt

  pub length-header : (m : Message Point) → length (wire_header c m) ≡ 8
  unfolding wire_header
  length-header m = omega (
    arith,
    length-append (big_endian 2 (length m.body)) (big_endian 4 m.sequence),
    length-big_endian 2 (length m.body),
    length-big_endian 4 m.sequence,
  )

  -- The fields of a header that was read.
  header-size :
      (e : Endian) (m : Message Point)
      → IsEncodable c m
      → ntohs e (load e (take 2 (drop 2 (wire_header c m)))) ≡ length m.body
  unfolding wire_header
  header-size e m v =
      ap (λ (t : List ℕ). ntohs e (load e t))
        (take-append_exact 2 (big_endian 2 (length m.body)) (big_endian 4 m.sequence)
          (length-big_endian 2 (length m.body)))
      ∙ ntohs-load e (length m.body) v.body_size

  header-sequence :
      (e : Endian) (m : Message Point)
      → IsEncodable c m
      → ntohl e (load e (drop 4 (wire_header c m))) ≡ m.sequence
  unfolding wire_header
  header-sequence e m v =
      ap (λ (t : List ℕ). ntohl e (load e t))
        (drop-append_exact 2 (big_endian 2 (length m.body)) (big_endian 4 m.sequence)
          (length-big_endian 2 (length m.body)))
      ∙ ntohl-load e m.sequence v.sequence_word

  header-flags :
      (m : Message Point) → get_or (wire_header c m) 1 0 ≡ wire_flags m.source m.destination
  unfolding wire_header
  header-flags m = refl

  header-type : (m : Message Point) → get_or (wire_header c m) 0 0 ≡ m.type
  unfolding wire_header
  header-type m = refl

  signed-append : (m : Message Point) → signed_bytes m ++ m.signature ≡ wire c m
  unfolding signed_bytes wire wire_rest wire_header
  signed-append m = simp (append-nil, append_assoc)

  signed-take :
      (m : Message Point)
      → take (length (wire c m) - length m.signature) (wire c m) ≡ signed_bytes m
  signed-take m = rw (← signed-append m) (
      take-append_exact _ (signed_bytes m) m.signature
        (omega (arith, length-append (signed_bytes m) m.signature)))

  left-wire :
      (m : Message Point) → left (binary_reader (wire c m)) ≡ wire_header c m ++ wire_rest c m
  unfolding left binary_reader wire
  left-wire m = refl

  wire_rest-parts :
      (m : Message Point)
      → wire_rest c m
        ≡ optional_bytes c m.source ++ (optional_bytes c m.destination ++ (m.body ++ m.signature))
  unfolding wire_rest
  wire_rest-parts m = refl

  module _ (e : Endian) where
    -- The receiver of an authentic message reads back every field of it.
    pub parse-wire :
        (m : Message Point)
        → IsEncodable c m
        → IsAuthentic m
        → length (wire c m) ≤ max_size
        → parse c e (wire c m) ≡ ok m
    unfolding parse
    parse-wire m v a k =
        let bin = wire c m in
        let start = binary_reader-IsWellFormed bin k in
        let (r0, e0, q0, v0) =
          rw (length-header m) at (
            read-front (binary_reader bin) (wire_header c m) (wire_rest c m) start (left-wire m)) in
        let (r1, e1, q1, v1) =
          read_optional-bytes r0 m.source
            (optional_bytes c m.destination ++ (m.body ++ m.signature)) v0 v.source_valid
            (q0 ∙ wire_rest-parts m) in
        let (r2, e2, q2, v2) =
          read_optional-bytes r1 m.destination (m.body ++ m.signature) v1 v.destination_valid q1 in
        let (r3, e3, q3, v3) = read-front r2 m.body m.signature v2 q2 in
        rw (
          e0,
          header-flags m,
          flags-source m.source m.destination,
          e1,
          flags-destination m.source m.destination,
          e2,
          header-size e m v,
          e3,
          q3,
          signed-take m,
          a,
          header-sequence e m v,
          header-type m,
        )
