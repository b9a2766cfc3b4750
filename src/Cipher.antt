-- ===== src/Cipher.antt =====
-- `CipherBody` of src/impl/message.hpp and message.cpp: the encrypted body of a message that has a
-- destination.
pub mod Laws
use legio.Prelude.{
  ℕ, List, ◌++◌, Bool, not, length, bytes_eq, Result, ok, guard, ◌>>=◌, ◌>>◌, key_mismatch,
}
use legio.Binary.Stream.{BinaryReader, binary_reader, read, left, binary_writer, write}
use legio.Crypto.{CryptoPp, ecdh_key_size, ecdh_public_key, agree, aes_gcm_encrypt, aes_gcm_decrypt}

pub record CipherBody : Type 0 where
  pub source : List ℕ
  pub destination : List ℕ
  pub iv : List ℕ
  pub ciphertext : List ℕ

-- `CipherBody::CipherBody(const binary &body)`
unfoldable pub parse_cipher : List ℕ → Result CipherBody
parse_cipher body = do
  (source, r0) ← read (binary_reader body) ecdh_key_size
  (destination, r1) ← read r0 ecdh_key_size
  (iv, r2) ← read r1 16
  ok (record { source = source; destination = destination; iv = iv; ciphertext = left r2 })

-- `CipherBody::operator binary() const`
unfoldable pub cipher_binary : CipherBody → List ℕ
cipher_binary b =
    (write (write (write (write binary_writer b.source) b.destination) b.iv) b.ciphertext).bin

module _ (c : CryptoPp) where
  open c use {EcdhKey, sha256}

  -- `static CipherBody Encrypt(const binary &cleartext, const Ecdh &ecdh, binary _destination)`; the
  -- initialisation vector is what `AesGcmEncryption` draws.
  unfoldable pub encrypt : List ℕ → List ℕ → EcdhKey → List ℕ → Result CipherBody
  encrypt iv cleartext ecdh destination = do
    secret ← agree c ecdh destination
    ciphertext ← aes_gcm_encrypt c (sha256 secret) iv cleartext
    ok (record {
      source = ecdh_public_key c ecdh;
      destination = destination;
      iv = iv;
      ciphertext = ciphertext;
    })

  -- `binary CipherBody::decrypt(const Ecdh &ecdh)`
  unfoldable pub decrypt : CipherBody → EcdhKey → Result (List ℕ)
  decrypt b ecdh = do
    guard (bytes_eq (ecdh_public_key c ecdh) b.destination) key_mismatch
    secret ← agree c ecdh b.source
    aes_gcm_decrypt c (sha256 secret) b.iv b.ciphertext
