-- ===== src/Binary/Stream.antt =====
-- `binary_reader` and `binary_writer` of src/binary.cpp, for machines of either byte order.
pub mod Laws
use legio.Prelude.{
  ℕ, ◌+◌, ◌-◌, ◌%◌, ◌^◌, ◌≤◌, Bool, ◌==◌, leb, List, [], ◌++◌, take, drop, length, Result, ok,
  guard, read_out_of_bounds, length_error, ◌>>=◌, ◌>>◌,
}
use legio.ByteOrder.{Endian, store, load, htons, htonl, htonll, ntohs, ntohl, ntohll}

pub record BinaryReader : Type 0 where
  pub bin : List ℕ
  pub position : ℕ

-- The largest size of a `std::vector<byte>`.
abbrev pub max_size : ℕ
max_size = 2 ^ 63 - 1

-- `binary_reader(binary bin)`
unfoldable pub binary_reader : List ℕ → BinaryReader
binary_reader bin = record { bin = bin; position = 0 }

-- `binary read(size_t size)`: it makes the result vector, and calls `read(byte *, size_t)`, whose
-- sum is one of `size_t`.
unfoldable pub read : BinaryReader → ℕ → Result (List ℕ × BinaryReader)
read r size = do
  guard (leb size max_size) length_error
  guard (leb ((r.position + size) % 2 ^ 64) (length r.bin)) read_out_of_bounds
  ok (take size (drop r.position r.bin), record r { position = r.position + size })

-- `void readInt(uint8_t &i)`
unfoldable pub read_int8 : Endian → BinaryReader → Result (ℕ × BinaryReader)
unfolding read load
read_int8 e r = do (bytes, r') ← read r 1; ok (load e bytes, r')

-- `void readInt(uint16_t &i)`
unfoldable pub read_int16 : Endian → BinaryReader → Result (ℕ × BinaryReader)
unfolding read load ntohs
read_int16 e r = do (bytes, r') ← read r 2; ok (ntohs e (load e bytes), r')

-- `void readInt(uint32_t &i)`
unfoldable pub read_int32 : Endian → BinaryReader → Result (ℕ × BinaryReader)
unfolding read load ntohl
read_int32 e r = do (bytes, r') ← read r 4; ok (ntohl e (load e bytes), r')

-- `void readInt(uint64_t &i)`
unfoldable pub read_int64 : Endian → BinaryReader → Result (ℕ × BinaryReader)
unfolding read load ntohll
read_int64 e r = do (bytes, r') ← read r 8; ok (ntohll e (load e bytes), r')

-- `size_t size() const`, `bool finished() const`, `binary left() const`
unfoldable pub size : BinaryReader → ℕ
size r = length r.bin - r.position

unfoldable pub finished : BinaryReader → Bool
finished r = r.position == length r.bin

unfoldable pub left : BinaryReader → List ℕ
left r = drop r.position r.bin

pub record BinaryWriter : Type 0 where
  pub bin : List ℕ

abbrev pub binary_writer : BinaryWriter
binary_writer = record { bin = [] }

-- `void write(const binary &data)`
unfoldable pub write : BinaryWriter → List ℕ → BinaryWriter
write w bytes = record { bin = w.bin ++ bytes }

-- `void writeInt(uint8_t i)`, and for 16, 32 and 64 bits
unfoldable pub write_int8 : Endian → BinaryWriter → ℕ → BinaryWriter
unfolding write store
write_int8 e w i = write w (store e 1 i)

unfoldable pub write_int16 : Endian → BinaryWriter → ℕ → BinaryWriter
unfolding write store htons
write_int16 e w i = write w (store e 2 (htons e i))

unfoldable pub write_int32 : Endian → BinaryWriter → ℕ → BinaryWriter
unfolding write store htonl
write_int32 e w i = write w (store e 4 (htonl e i))

unfoldable pub write_int64 : Endian → BinaryWriter → ℕ → BinaryWriter
unfolding write store htonll
write_int64 e w i = write w (store e 8 (htonll e i))
