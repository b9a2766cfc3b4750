-- ===== src/Crypto.antt =====
-- The wrappers of src/impl/ecdsa.cpp, ecdh.cpp, aesgcm.cpp, sha.cpp and identifier.cpp over
-- Crypto++. Crypto++ is no part of the repository: its types and operations are the record
-- `CryptoPp`, and what the code relies on is `CryptoLaws`.
pub mod Sample
use legio.Prelude.{
  refl, ℕ, ◌≡◌, Bool, true, not, ltb, ◌==◌, List, length, Option, none, some, Result, ok, err,
  guard, or_throw, ◌>>=◌, ◌>>◌, invalid_public_key, invalid_key_size, no_shared_secret,
  key_too_short, iv_too_short, take, ◌++◌, ◌≤◌, ◌+◌, ◌↔◌, ite, false, ap, sym, ◌∙◌,
}
use legio.Binary.Xor.{resize}
use legio.Binary.Text.{binary_hash}

pub record CryptoPp : Type 1 where
  -- `ECP::Point`, its comparisons, its coding, and `ECDSA::PublicKey::Validate`
  pub Point : Type 0
  pub same_point : Discrete Point
  pub point_lt : Point → Point → Bool
  pub decode_point : List ℕ → Point
  pub encode_point : Point → List ℕ
  pub validate : Point → Bool
  -- `ECDSA::PrivateKey`, `MakePublicKey`, `SignMessage` (the first argument is the random pool's
  -- contribution) and `VerifyMessage`
  pub PrivateKey : Type 0
  pub make_public_key : PrivateKey → Point
  pub sign_message : ℕ → PrivateKey → List ℕ → List ℕ
  pub verify_message : Point → List ℕ → List ℕ → Bool
  -- `ECDH<ECP>::Domain`: private key blocks, their public blocks, and `Agree`
  pub EcdhKey : Type 0
  pub public_block : EcdhKey → List ℕ
  pub public_key_length : ℕ
  pub agreed_value : EcdhKey → List ℕ → Option (List ℕ)
  -- `SHA256`; and `GCM<AES>` with a key and an initialisation vector: what the counter mode makes of
  -- data, in either direction, and the tag of a ciphertext
  pub sha256 : List ℕ → List ℕ
  pub gcm_stream : List ℕ → List ℕ → List ℕ → List ℕ
  pub gcm_tag : List ℕ → List ℕ → List ℕ → List ℕ

-- `EcdsaPublic::KeySize`, `Identifier::Size`, `Ecdh::KeySize`, `AES::BLOCKSIZE`
abbrev pub identifier_size : ℕ
identifier_size = 33

abbrev pub ecdh_key_size : ℕ
ecdh_key_size = 65

abbrev pub block_size : ℕ
block_size = 16

-- What the program relies on: compressed points have 33 bytes and decode to themselves, a signature
-- over P-256 has at most 64 bytes and verifies under the signer's key, both ends of an agreement find
-- the same secret, the counter mode keeps the number of bytes and undoes itself byte by byte, and a
-- tag has 16 bytes.
pub record CryptoLaws (c : CryptoPp) : Type 0 where
  pub length-encode : (p : c.Point) → length (c.encode_point p) ≡ identifier_size
  pub decode-encode : (p : c.Point) → c.decode_point (c.encode_point p) ≡ p
  pub valid_public : (k : c.PrivateKey) → c.validate (c.make_public_key k) ≡ true
  pub verify-sign :
      (seed : ℕ) (k : c.PrivateKey) (m : List ℕ)
      → c.verify_message (c.make_public_key k) m (c.sign_message seed k m) ≡ true
  pub length-sign :
      (seed : ℕ) (k : c.PrivateKey) (m : List ℕ) → length (c.sign_message seed k m) ≤ 64
  pub length-public_block : (k : c.EcdhKey) → length (c.public_block k) ≡ ecdh_key_size
  pub key_length : c.public_key_length ≡ ecdh_key_size
  pub agree_both :
      (j k : c.EcdhKey)
      → (s : List ℕ) × (c.agreed_value j (c.public_block k) ≡ some s)
        × (c.agreed_value k (c.public_block j) ≡ some s)
  pub length-sha256 : (m : List ℕ) → length (c.sha256 m) ≡ 32
  pub length-gcm_stream : (key iv m : List ℕ) → length (c.gcm_stream key iv m) ≡ length m
  pub length-gcm_tag : (key iv m : List ℕ) → length (c.gcm_tag key iv m) ≡ 16
  pub gcm_stream-gcm_stream :
      (key iv m more : List ℕ)
      → take (length m) (c.gcm_stream key iv (c.gcm_stream key iv m ++ more)) ≡ m

module _ (c : CryptoPp) where
  open c use {
    Point, decode_point, encode_point, validate, PrivateKey, make_public_key, sign_message,
    verify_message, EcdhKey, public_block, public_key_length, agreed_value, sha256, gcm_stream,
    same_point, gcm_tag, point_lt,
  }

  -- `EcdsaPublic(const binary &key)`: the result of `DecodePoint` is not looked at, `Validate` is.
  unfoldable pub ecdsa_public : List ℕ → Result Point
  ecdsa_public key = do
    let point = decode_point key
    guard (validate point) invalid_public_key
    ok point

  -- `binary EcdsaPublic::publicKey() const`, and `Identifier::operator binary`
  unfoldable pub public_key : Point → List ℕ
  public_key point = encode_point point

  -- `bool EcdsaPublic::verify(const byte *message, size_t size, const binary &signature) const`
  unfoldable pub verify : Point → List ℕ → List ℕ → Bool
  verify key message signature = verify_message key message signature

  -- `bool EcdsaPublic::operator==(const EcdsaPublic &other) const`, `operator!=` and `operator<`, and
  -- those of `Identifier`
  unfoldable pub identifier_eq : Point → Point → Bool
  identifier_eq a b = ite (same_point a b) true false

  unfoldable pub identifier_ne : Point → Point → Bool
  unfolding identifier_eq
  identifier_ne a b = not (identifier_eq a b)

  unfoldable pub identifier_lt : Point → Point → Bool
  identifier_lt a b = point_lt a b

  -- `bool EcdsaPublic::operator>(const EcdsaPublic &other) const`, and that of `Identifier`
  unfoldable pub identifier_gt : Point → Point → Bool
  identifier_gt a b = point_lt b a

  -- `EcdsaPublic::hash` and `Identifier::hash`, where `hash` is `std::hash<byte>`
  unfoldable pub identifier_hash : (ℕ → ℕ) → Point → ℕ
  unfolding public_key
  identifier_hash hash point = binary_hash hash (public_key point)

  -- `binary Sha256(const binary &input)`
  unfoldable pub sha_256 : List ℕ → List ℕ
  sha_256 input = sha256 input

  -- `binary EcdsaPair::sign(const binary &message) const`
  unfoldable pub sign : ℕ → PrivateKey → List ℕ → List ℕ
  sign seed key message = sign_message seed key message

  -- `binary Ecdh::publicKey() const`
  unfoldable pub ecdh_public_key : EcdhKey → List ℕ
  ecdh_public_key key = public_block key

  -- `binary Ecdh::agree(const binary &remotePublicKey) const`
  unfoldable pub agree : EcdhKey → List ℕ → Result (List ℕ)
  agree key remote = do
    guard (length remote == public_key_length) invalid_key_size
    or_throw (agreed_value key remote) no_shared_secret

  -- `AesGcmEncryption(binary key)` with the drawn `iv`, and `encrypt(const binary &data)`: the filter
  -- puts the ciphertext and behind it the tag.
  unfoldable pub aes_gcm_encrypt : List ℕ → List ℕ → List ℕ → Result (List ℕ)
  aes_gcm_encrypt key iv cleartext = do
    guard (not (ltb (length key) block_size)) key_too_short
    let ciphertext = gcm_stream key iv cleartext
    ok (ciphertext ++ gcm_tag key iv ciphertext)

  -- `AesGcmDecryption(binary key, binary iv)` and `decrypt(const binary &data)`: its filter is the one
  -- for encryption too, so it takes all of `data` for ciphertext and puts the tag behind the result.
  -- The sink keeps `data.size()` bytes of that and counts all of them.
  unfoldable pub aes_gcm_decrypt : List ℕ → List ℕ → List ℕ → Result (List ℕ)
  aes_gcm_decrypt key iv input = do
    guard (not (ltb (length key) block_size)) key_too_short
    guard (not (ltb (length iv) block_size)) iv_too_short
    let put = gcm_stream key iv input ++ gcm_tag key iv input
    ok (resize (length put) (take (length input) put))

-- Equal identifiers are those with equal bytes.
pub identifier_eq-public_key :
    (c : CryptoPp)
    → CryptoLaws c
    → (a b : c.Point) → (identifier_eq c a b ≡ true) ↔ (public_key c a ≡ public_key c b)
unfolding identifier_eq public_key
identifier_eq-public_key c laws a b =
    elim (c.same_point a b)
      as (λ d. (ite d true false ≡ true) ↔ (c.encode_point a ≡ c.encode_point b)) [
        | yes h ↦ ((λ _. ap c.encode_point h), (λ _. refl))
        | no h ↦ (
          (λ e. cc e),
          (λ e.
              absurd (h (sym (laws.decode-encode a) ∙ ap c.decode_point e ∙ laws.decode-encode b))),
        )
      ]
