-- ===== src/Examples.antt =====
-- Concrete runs of the theorems, on stand-ins where the code calls a library.
mod Network
mod Delivery
mod Updates
mod Connections
mod Nodes
mod Pairs
use legio.Prelude.{
  ℕ, zero, suc, ◌+◌, ◌-◌, ◌*◌, ◌^◌, ◌%◌, ◌<◌, ◌≤◌, ◌≡◌, ◌↔◌, refl, ite, Bool, true, false, not,
  ◌&&◌, ◌==◌, if◌then◌else◌, List, [], ◌∷◌, ◌++◌, length, take, Option, none, some, has_value, find,
  contains, old_or, ℕ_discrete, Result, ok, arith, ltb, sym, append-nil,
}
use legio.ByteOrder.{Endian, little, big, store, htons, htonl, htonll, big_endian}
use legio.ByteOrder.Laws.{hton-big_endian}
use legio.Binary.Stream.{
  BinaryReader, BinaryWriter, binary_reader, binary_writer, max_size, read_int16, read_int32,
  read_int64, left, write_int16, write_int32, write_int64, write,
}
use legio.Binary.Stream.Laws.{binary_reader-IsWellFormed, read_int-write_int}
use legio.Binary.Strings.{pack_strings, unpack_strings, unpack-pack}
use legio.Binary.Hex.{to_hex, from_hex, from_hex-to_hex, from_hex_lenient, hex_value}
use legio.Binary.Base64.{to_base64, to_base64url, from_base64_impl, done}
use legio.Binary.Base64.RoundTrip.{from_base64-to_base64}
use legio.Crypto.{verify}
use legio.Crypto.Sample.{toy, toy-CryptoLaws}
use legio.Message.{Message, create, to_binary, parse, check_signature}
use legio.Message.Codec.{
  IsEncodable, IsAuthentic, wire, to_binary-wire, parse-wire, wire_header, signed_bytes, wire_rest,
}
use legio.Message.Authentic.{parse-create, parse-authentic, public_of}
use legio.Message.Sequence.{
  compare_sequence, newer, older, compare_sequence-newer, compare_sequence-reverse,
  compare_sequence_both_older, compare_sequence-suc,
}

abbrev two_bytes : List ℕ
two_bytes = 1 ∷ 255 ∷ []

abbrev toy_message : Message ℕ
toy_message = record {
  type = 1;
  sequence = 5;
  source = some 7;
  destination = some 9;
  body = two_bytes;
  signature = 7 ∷ [];
}

toy_message-IsEncodable : IsEncodable toy toy_message
toy_message-IsEncodable = record {
  type_byte = omega arith;
  sequence_word = omega arith;
  body_size = omega arith;
  source_valid = refl;
  destination_valid = refl;
}

parse-create_example :
    (m : Message ℕ) × (bin : List ℕ) × (create toy little 0 1 5 two_bytes (some 7) (some 9) ≡ ok m)
    × (to_binary toy little m ≡ ok bin)
    × (parse toy big bin ≡ ok m)
    × (m.type ≡ 1)
    × (m.sequence ≡ 5)
    × (m.source ≡ some 7)
    × (m.destination ≡ some 9)
    × (m.body ≡ two_bytes)
parse-create_example =
    parse-create toy toy-CryptoLaws little big 0 1 5 two_bytes (some 7) (some 9) (omega arith)
      (omega arith) (omega arith) refl

to_binary-wire_example : to_binary toy little toy_message ≡ ok (wire toy toy_message)
to_binary-wire_example = to_binary-wire toy little toy_message toy_message-IsEncodable

toy_message-IsAuthentic : IsAuthentic toy toy-CryptoLaws toy_message
unfolding check_signature signed_bytes verify
toy_message-IsAuthentic = refl

wire_size : length (wire toy toy_message) ≤ max_size
unfolding wire wire_header wire_rest big_endian
wire_size = omega arith

wire_parsed : parse toy little (wire toy toy_message) ≡ ok toy_message
wire_parsed =
    parse-wire toy toy-CryptoLaws little toy_message toy_message-IsEncodable toy_message-IsAuthentic
      wire_size

parse-wire_example : parse toy little (wire toy toy_message) ≡ ok toy_message
parse-wire_example =
    parse-wire toy toy-CryptoLaws little toy_message toy_message-IsEncodable toy_message-IsAuthentic
      wire_size

parse-authentic_example :
    verify toy 7 (take (length (wire toy toy_message) - 1) (wire toy toy_message)) (7 ∷ []) ≡ true
parse-authentic_example =
    parse-authentic toy toy-CryptoLaws little little (wire toy toy_message) toy_message 7
      wire_parsed refl

hton-big_endian_example :
    (store little 2 (htons little 258) ≡ big_endian 2 258)
    × (store little 4 (htonl little 258) ≡ big_endian 4 258)
    × (store little 8 (htonll little 258) ≡ big_endian 8 258)
hton-big_endian_example =
    hton-big_endian little 258 258 258 (omega arith) (omega arith) (omega arith)

compare_sequence-newer_example :
    (compare_sequence 1 4294967295 ≡ newer)
    ↔ ((1 ≤ (1 + 2 ^ 32 - 4294967295) % 2 ^ 32) × ((1 + 2 ^ 32 - 4294967295) % 2 ^ 32 < 2 ^ 31 - 1))
compare_sequence-newer_example = compare_sequence-newer 1 4294967295 (omega arith) (omega arith)

compare_sequence_both_older_example :
    ((compare_sequence 2147483648 0 ≡ older) × (compare_sequence 0 2147483648 ≡ older)) ↔ (
      (2 ^ 31 - 1 ≤ (2147483648 + 2 ^ 32 - 0) % 2 ^ 32)
      × ((2147483648 + 2 ^ 32 - 0) % 2 ^ 32 ≤ 2 ^ 31 + 1))
compare_sequence_both_older_example =
    compare_sequence_both_older 2147483648 0 (omega arith) (omega arith)

from_base64-to_base64_example :
    ((text : List ℕ) × (to_base64 two_bytes true ≡ some text)
      × (from_base64_impl 9 text ≡ done (two_bytes ++ 0 ∷ [])))
    × ((text : List ℕ) × (to_base64url two_bytes true ≡ some text)
        × (from_base64_impl 9 text ≡ done (two_bytes ++ 0 ∷ [])))
from_base64-to_base64_example =
    from_base64-to_base64 9 two_bytes true (omega arith, (omega arith, tt)) (omega arith)
      (omega arith)

from_hex-to_hex_example :
    (str : List ℕ) × (to_hex two_bytes ≡ some str) × (from_hex str ≡ some (ok two_bytes))
from_hex-to_hex_example = from_hex-to_hex two_bytes (omega arith, (omega arith, tt)) (omega arith)

unpack-pack_example :
    unpack_strings 2 (pack_strings (two_bytes ∷ [] ∷ []) ++ 3 ∷ []) ≡ two_bytes ∷ [] ∷ []
unpack-pack_example =
    unpack-pack (two_bytes ∷ [] ∷ []) (3 ∷ [])
      ((λ e. omega (arith, e), (λ e. omega (arith, e), tt)), (tt, tt))

abbrev three_integers : List ℕ
three_integers =
    (write_int64 little (write_int32 little (write_int16 little binary_writer 258) 3) 4).bin

read_int-write_int_example :
    (r1 : BinaryReader) × (r2 : BinaryReader) × (r3 : BinaryReader) × (read_int16 big
        (binary_reader three_integers)
      ≡ ok (258, r1))
    × (read_int32 big r1 ≡ ok (3, r2))
    × (read_int64 big r2 ≡ ok (4, r3))
    × (left r3 ≡ [])
unfolding binary_reader
read_int-write_int_example =
    read_int-write_int little big binary_writer (binary_reader three_integers) 258 3 4 []
      (binary_reader-IsWellFormed three_integers
        (unfold write_int64 write_int32 write_int16 write htons htonl htonll store in omega arith))
      refl (sym (append-nil three_integers)) (omega arith) (omega arith) (omega arith)
