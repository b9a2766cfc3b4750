-- ===== src/Message.antt =====
-- src/impl/message.hpp and message.cpp: the header, `Message` and `compare_sequence`.
pub mod Sequence
pub mod Codec
pub mod Authentic
use Prim.Native.Nat.{bit_and, bit_or}
use legio.Prelude.{
  ℕ, zero, suc, ◌+◌, ◌-◌, ◌*◌, ◌%◌, ◌^◌, Bool, true, false, not, ltb, leb, ◌==◌, if◌then◌else◌,
  List, [], ◌∷◌, ◌++◌, length, take, drop, get_or, Option, none, some, has_value, Result, ok, err,
  guard, ◌>>=◌, ◌>>◌, body_too_long, invalid_signature,
}
use legio.ByteOrder.{Endian, store, load, htons, htonl, ntohs, ntohl}
use legio.Binary.Stream.{
  BinaryReader, binary_reader, read, left, BinaryWriter, binary_writer, write,
}
use legio.Crypto.{CryptoPp, identifier_size, ecdsa_public, public_key, verify, sign}

-- `Message::Type`, an `uint8_t`: any byte may arrive.
abbrev pub hello_type : ℕ
hello_type = 0x01

abbrev pub state_type : ℕ
state_type = 0x02

abbrev pub signaling_type : ℕ
signaling_type = 0x10

abbrev pub user_type : ℕ
user_type = 0x80

-- `Message::Flags`
abbrev pub flag_source : ℕ
flag_source = 0x01

abbrev pub flag_destination : ℕ
flag_destination = 0x02

-- `struct Message`, over the type of identifiers
pub record Message (Identifier : Type 0) : Type 0 where
  pub type : ℕ
  pub sequence : ℕ
  pub source : Option Identifier
  pub destination : Option Identifier
  pub body : List ℕ
  pub signature : List ℕ

-- `struct Header`, packed: the bytes that `write(reinterpret_cast<const byte *>(&header), 8)` takes
unfoldable pub header_bytes : Endian → ℕ → ℕ → ℕ → ℕ → List ℕ
unfolding store htons htonl
header_bytes e type flags size sequence =
    type ∷ flags ∷ store e 2 (htons e size) ++ store e 4 (htonl e sequence)

-- The flags of the header.
unfoldable pub flags_of : {Identifier : Type 0} → Option Identifier → Option Identifier → ℕ
flags_of source destination =
    let flags = if has_value source then bit_or 0 flag_source else 0 in
    if has_value destination then bit_or flags flag_destination else flags

module _ (c : CryptoPp) where
  open c use {Point}

  -- `if (source) writer.write(*source)`
  unfoldable pub write_optional : BinaryWriter → Option Point → BinaryWriter
  write_optional w none = w
  write_optional w (some id) = write w (public_key c id)

  -- `if (header.flags & flag) field = reader.read(Identifier::Size)`
  unfoldable pub read_optional : Bool → BinaryReader → Result (Option Point × BinaryReader)
  read_optional false r = ok (none, r)
  read_optional true r = do
    (bin, r') ← read r identifier_size
    id ← ecdsa_public c bin
    ok (some id, r')

  -- `if (source && !EcdsaPublic(*source).verify(…)) throw`
  unfoldable pub check_signature : Option Point → List ℕ → List ℕ → Result (Unit {0})
  check_signature none signed signature = ok tt
  check_signature (some id) signed signature =
      guard (verify c id signed signature) invalid_signature

module _ (c : CryptoPp) (e : Endian) where
  open c use {Point, PrivateKey, make_public_key}

  -- `Message::operator binary() const`
  unfoldable pub to_binary : Message Point → Result (List ℕ)
  to_binary m = do
    guard (leb (length m.body) 65535) body_too_long
    let header = header_bytes e m.type (flags_of m.source m.destination) (length m.body) m.sequence
    let w = write_optional c (write_optional c (write binary_writer header) m.source) m.destination
    ok (write (write w m.body) m.signature).bin

  -- `Message::Message(const binary &bin)`
  unfoldable pub parse : List ℕ → Result (Message Point)
  parse bin = do
    (header, r0) ← read (binary_reader bin) 8
    let flags = get_or header 1 0
    let size = ntohs e (load e (take 2 (drop 2 header)))
    (source, r1) ← read_optional c (not (bit_and flags flag_source == 0)) r0
    (destination, r2) ← read_optional c (not (bit_and flags flag_destination == 0)) r1
    (body, r3) ← read r2 size
    let signature = left r3
    check_signature c source (take (length bin - length signature) bin) signature
    ok (record {
      type = get_or header 0 0;
      sequence = ntohl e (load e (drop 4 header));
      source = source;
      destination = destination;
      body = body;
      signature = signature;
    })

  -- `void Message::sign(const EcdsaPair &sourceEcdsaPair)`
  unfoldable pub sign_with : ℕ → PrivateKey → Message Point → Result (Message Point)
  sign_with seed pair m = do
    let unsigned = record m { source = some (make_public_key pair); signature = [] }
    bin ← to_binary unsigned
    ok (record unsigned { signature = sign c seed pair bin })

  -- `static Message Message::Create(…)`, and `make_message`
  unfoldable pub create :
      ℕ → ℕ → ℕ → List ℕ → Option PrivateKey → Option Point → Result (Message Point)
  create seed type sequence body pair destination =
      let message : Message Point = record {
        type = type;
        sequence = sequence;
        source = none;
        destination = destination;
        body = body;
        signature = [];
      } in
      elim pair [ none ↦ ok message | some key ↦ sign_with seed key message ]
