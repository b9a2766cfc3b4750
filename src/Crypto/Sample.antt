-- ===== src/Crypto/Sample.antt =====
-- A stand-in for Crypto++ that meets `CryptoLaws`: no security, but every law. Points and keys are
-- numbers below 256, and a point is coded by its number and 32 zero bytes.
use legio.Prelude.{
  ℕ, ◌+◌, refl, true, ltb, ◌==◌, [], ◌∷◌, length, get_or, replicate, some, ℕ_discrete, arith,
  ==_iff, ap, take-append_exact,
}
use native.Mathlib.Nat.{add_comm}
use legio.Crypto.{CryptoPp, CryptoLaws}

abbrev pub toy : CryptoPp
toy = record {
  Point = ℕ;
  same_point = ℕ_discrete;
  point_lt = ltb;
  decode_point = λ bytes. get_or bytes 0 0;
  encode_point = λ p. p ∷ replicate 32 0;
  validate = λ p. true;
  PrivateKey = ℕ;
  make_public_key = λ k. k;
  sign_message = λ seed k m. k ∷ [];
  verify_message = λ p m signature. get_or signature 0 0 == p;
  EcdhKey = ℕ;
  public_block = λ k. k ∷ replicate 64 0;
  public_key_length = 65;
  agreed_value = λ k remote. some ((k + get_or remote 0 0) ∷ []);
  sha256 = λ m. replicate 32 0;
  gcm_stream = λ key iv m. m;
  gcm_tag = λ key iv m. replicate 16 0;
}

pub toy-CryptoLaws : CryptoLaws toy
toy-CryptoLaws = record {
  length-encode = λ p. refl;
  decode-encode = λ p. refl;
  valid_public = λ k. refl;
  verify-sign = λ seed k m. (==_iff k k).1 refl;
  length-sign = λ seed k m. omega arith;
  length-public_block = λ k. refl;
  key_length = refl;
  agree_both = λ j k. ((j + k) ∷ [], refl, ap (λ (t : ℕ). some (t ∷ [])) (add_comm k j));
  length-sha256 = λ m. refl;
  length-gcm_stream = λ key iv m. refl;
  length-gcm_tag = λ key iv m. refl;
  gcm_stream-gcm_stream = λ key iv m more. take-append_exact (length m) m more refl;
}
