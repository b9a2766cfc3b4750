-- ===== src/Message/Authentic.antt =====
-- What signatures give: the receiver of a message that `Message::Create` made reads back that
-- message, and no message with a source is accepted unless its signature verifies.
use legio.Prelude.{
  ℕ, ◌-◌, ◌^◌, ◌<◌, ◌≤◌, ◌≡◌, refl, List, [], ◌++◌, length, take, Option, none, some, ok, arith,
  true, length-append,
}
use legio.ByteOrder.{Endian}
use legio.Binary.Stream.{max_size}
use legio.Crypto.{CryptoPp, CryptoLaws, verify, sign}
use legio.Message.{Message, check_signature, parse, to_binary, sign_with, create}
use legio.Message.Codec.{
  IsValidKey, IsEncodable, IsAuthentic, wire, signed_bytes, to_binary-wire, parse-wire,
  optional_bytes, wire_header, wire_rest, length-header,
}

abbrev pub public_of : (c : CryptoPp) → Option c.PrivateKey → Option c.Point
public_of c none = none
public_of c (some k) = some (c.make_public_key k)

module _ (c : CryptoPp) (laws : CryptoLaws c) (e e' : Endian) where
  open c use {Point, PrivateKey, make_public_key, sign_message}

  -- A message without source or signature.
  abbrev pub draft : ℕ → ℕ → List ℕ → Option Point → Message Point
  draft type sequence body destination = record {
    type = type;
    sequence = sequence;
    source = none;
    destination = destination;
    body = body;
    signature = [];
  }

  abbrev pub claimed : PrivateKey → Message Point → Message Point
  claimed k m = record m { source = some (make_public_key k); signature = [] }

  abbrev pub signature_of : ℕ → Message Point → Option PrivateKey → List ℕ
  signature_of seed m none = []
  signature_of seed m (some k) = sign_message seed k (wire c (claimed k m))

  -- What `create` returns.
  abbrev pub created : ℕ → Message Point → Option PrivateKey → Message Point
  created seed m pair = record m { source = public_of c pair; signature = signature_of seed m pair }

  pub create-ok :
      (seed type sequence : ℕ) (body : List ℕ) (pair : Option PrivateKey)
      (destination : Option Point)
      → IsEncodable c (draft type sequence body destination)
      → create c e seed type sequence body pair destination
        ≡ ok (created seed (draft type sequence body destination) pair)
  unfolding create sign_with sign
  create-ok seed type sequence body none destination v = refl
  create-ok seed type sequence body (some k) destination v =
      let m = claimed k (draft type sequence body destination) in
      let fits : IsEncodable c m = record {
        type_byte = v.type_byte;
        sequence_word = v.sequence_word;
        body_size = v.body_size;
        source_valid = laws.valid_public k;
        destination_valid = v.destination_valid;
      } in
      rw (sign_with, to_binary-wire c e m fits)

  length-optional : (o : Option Point) → length (optional_bytes c o) ≤ 33
  length-optional none = omega arith
  length-optional (some p) = omega (arith, laws.length-encode p)

  length-wire :
      (m : Message Point) → IsEncodable c m → length m.signature ≤ 64 → length (wire c m) ≤ max_size
  unfolding wire wire_rest
  length-wire m v k =
      let s = optional_bytes c m.source in
      let d = optional_bytes c m.destination in
      omega (
        arith,
        length-append (wire_header c m) (wire_rest c m),
        length-header c laws m,
        length-append s (d ++ (m.body ++ m.signature)),
        length-append d (m.body ++ m.signature),
        length-append m.body m.signature,
        length-optional m.source,
        length-optional m.destination,
        v,
      )

  created-source : (pair : Option PrivateKey) → IsValidKey c (public_of c pair)
  created-source none = tt
  created-source (some k) = laws.valid_public k

  created-IsAuthentic :
      (seed : ℕ) (m : Message Point) (pair : Option PrivateKey)
      → IsAuthentic c laws (created seed m pair)
  unfolding check_signature signed_bytes verify
  created-IsAuthentic seed m none = refl
  created-IsAuthentic seed m (some k) = rw (laws.verify-sign seed k (wire c (claimed k m)))

  length-signature :
      (seed : ℕ) (m : Message Point) (pair : Option PrivateKey)
      → length (signature_of seed m pair) ≤ 64
  length-signature seed m none = omega arith
  length-signature seed m (some k) = laws.length-sign seed k _

  -- Under the laws of Crypto++, a message that `create` makes of a type below 256, a sequence number
  -- below 2^32, a body of less than 2^16 bytes and a valid destination key, if any, is made and
  -- written without an error by a machine of order `e`, and the constructor from bytes, on a machine of order `e'`, gives it back: type, sequence number, body
  -- and destination as they were given, and the signer's key as its source.
  pub parse-create :
      (seed type sequence : ℕ) (body : List ℕ) (pair : Option PrivateKey)
      (destination : Option Point)
      → type < 256
      → sequence < 2 ^ 32
      → length body < 2 ^ 16
      → IsValidKey c destination
      → (m : Message Point) × (bin : List ℕ) × (create c e seed type sequence body pair destination
          ≡ ok m)
        × (to_binary c e m ≡ ok bin)
        × (parse c e' bin ≡ ok m)
        × (m.type ≡ type)
        × (m.sequence ≡ sequence)
        × (m.source ≡ public_of c pair)
        × (m.destination ≡ destination)
        × (m.body ≡ body)
  parse-create seed type sequence body pair destination ht hs hb hd =
      let d = draft type sequence body destination in
      let v : IsEncodable c d = record {
        type_byte = ht;
        sequence_word = hs;
        body_size = hb;
        source_valid = tt;
        destination_valid = hd;
      } in
      let m = created seed d pair in
      let v' : IsEncodable c m = record {
        type_byte = ht;
        sequence_word = hs;
        body_size = hb;
        source_valid = created-source pair;
        destination_valid = hd;
      } in
      let fits = length-wire m v' (length-signature seed d pair) in
      (
        m,
        wire c m,
        create-ok seed type sequence body pair destination v,
        to_binary-wire c e m v',
        parse-wire c laws e' m v' (created-IsAuthentic seed d pair) fits,
        refl,
        refl,
        refl,
        refl,
        refl,
      )

  -- A message that `parse` accepts carries, if it names a source, a signature of that source over
  -- all the bytes before the signature.
  pub parse-authentic :
      (bin : List ℕ) (m : Message Point) (p : Point)
      → parse c e bin ≡ ok m
      → m.source ≡ some p
      → verify c p (take (length bin - length m.signature) bin) m.signature ≡ true
  unfolding parse check_signature
  parse-authentic bin m p h k = ground arith
