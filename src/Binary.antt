-- ===== src/Binary.antt =====
-- Byte strings: include/legio/binary.hpp and src/binary.cpp. A `binary`, and a `std::string`, is the
-- list of its bytes.
pub mod Stream
pub mod Strings
pub mod Base64
pub mod Hex
pub mod Xor
pub mod Text
