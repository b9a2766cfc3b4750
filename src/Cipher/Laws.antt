-- ===== src/Cipher/Laws.antt =====
-- Encryption for a receiver, the bytes in between, and decryption by that receiver.
use legio.Prelude.{
  [], refl, ◌∷◌, suc, zero, ℕ, ◌+◌, ◌≤◌, ◌≡◌, ap, List, ◌++◌, append_assoc, length, length-append,
  bytes_eq_refl, ok, arith, false, some, ltb, replicate, drop, take, length-drop, take-append_exact,
  sym, ◌∙◌, ◌∷◌, ◌-◌, All,
}
use legio.Binary.Stream.{binary_reader, left, max_size, write}
use legio.Binary.Stream.Laws.{binary_reader-IsWellFormed, read-front}
use legio.Binary.Strings.{pack_strings, unpack_strings, IsText, unpack-pack}
use legio.Binary.Xor.{resize}
use legio.Crypto.{CryptoPp, CryptoLaws, ecdh_public_key, agree, aes_gcm_encrypt, aes_gcm_decrypt}
use legio.Cipher.{CipherBody, parse_cipher, cipher_binary, encrypt, decrypt}

-- The keys and the vector have the sizes that the reader expects.
pub record IsSized (b : CipherBody) : Type 0 where
  pub source_size : length b.source ≡ 65
  pub destination_size : length b.destination ≡ 65
  pub iv_size : length b.iv ≡ 16

cipher_binary-parts :
    (b : CipherBody) → cipher_binary b ≡ b.source ++ (b.destination ++ (b.iv ++ b.ciphertext))
unfolding cipher_binary write
cipher_binary-parts b = simp append_assoc

length-cipher_binary :
    (b : CipherBody) → IsSized b → length (cipher_binary b) ≡ length b.ciphertext + 146
length-cipher_binary b s = omega (
  arith,
  ap length (cipher_binary-parts b),
  length-append b.source (b.destination ++ (b.iv ++ b.ciphertext)),
  length-append b.destination (b.iv ++ b.ciphertext),
  length-append b.iv b.ciphertext,
  s,
)

-- A body with fields of these sizes is read back from its bytes.
pub parse_cipher-cipher_binary :
    (b : CipherBody)
    → IsSized b
    → length (cipher_binary b) ≤ max_size
    → parse_cipher (cipher_binary b) ≡ ok b
unfolding parse_cipher
parse_cipher-cipher_binary b s k =
    let bin = cipher_binary b in
    let start = binary_reader-IsWellFormed bin k in
    let (r0, e0, q0, v0) = rw s.source_size at (
      read-front (binary_reader bin) b.source (b.destination ++ (b.iv ++ b.ciphertext)) start
        (unfold left binary_reader in cipher_binary-parts b)) in
    let (r1, e1, q1, v1) =
      rw s.destination_size at (read-front r0 b.destination (b.iv ++ b.ciphertext) v0 q0) in
    let (r2, e2, q2, v2) = rw s.iv_size at (read-front r1 b.iv b.ciphertext v1 q1) in
    rw (e0, e1, e2, q2)

take-all : (n : ℕ) (xs : List ℕ) → length xs ≤ n → take n xs ≡ xs
take-all zero [] h = refl
take-all zero (x ∷ xs) h = ground arith
take-all (suc n) [] h = refl
take-all (suc n) (x ∷ xs) h = ap (◌∷◌ x) (take-all n xs (omega (arith, h)))

take-drop : (n : ℕ) (xs : List ℕ) → take n xs ++ drop n xs ≡ xs
take-drop zero xs = refl
take-drop (suc n) [] = refl
take-drop (suc n) (x ∷ xs) = ap (◌∷◌ x) (take-drop n xs)

split_at :
    (n : ℕ) (xs front more : List ℕ) → take n xs ≡ front → xs ++ more ≡ front ++ (drop n xs ++ more)
split_at n xs front more e =
    ap (λ (t : List ℕ). t ++ more) (sym (take-drop n xs) ∙ ap (λ (t : List ℕ). t ++ drop n xs) e)
    ∙ append_assoc front (drop n xs) more

module _ (c : CryptoPp) (laws : CryptoLaws c) where
  open c use {EcdhKey, public_block, sha256, gcm_stream, gcm_tag, agreed_value}

  sized_key : (secret : List ℕ) → ltb (length (sha256 secret)) 16 ≡ false
  sized_key secret = ground (arith, laws.length-sha256 secret)

  agree-public :
      (k : EcdhKey) (remote : EcdhKey) (s : List ℕ)
      → agreed_value k (public_block remote) ≡ some s
      → agree c k (ecdh_public_key c remote) ≡ ok s
  unfolding agree ecdh_public_key
  agree-public k remote s h = rw (laws.length-public_block remote, laws.key_length, h)

  -- What the sink keeps is what the counter mode made of the input, and zero bytes in place of the tag.
  decrypt-stream :
      (key iv input : List ℕ)
      → ltb (length key) 16 ≡ false
      → length iv ≡ 16
      → aes_gcm_decrypt c key iv input ≡ ok (gcm_stream key iv input ++ replicate 16 0)
  unfolding aes_gcm_decrypt resize
  decrypt-stream key iv input h k =
      let text = gcm_stream key iv input in
      let tag = gcm_tag key iv input in
      let size_of = laws.length-gcm_stream key iv input in
      let kept : take (length input) (text ++ tag) ≡ text =
        take-append_exact (length input) text tag size_of in
      let total : length (text ++ tag) ≡ length input + 16 =
        omega (arith, length-append text tag, size_of, laws.length-gcm_tag key iv input) in
      let rest : length input + 16 - length text ≡ 16 = omega (arith, size_of) in
      let whole : take (length input + 16) text ≡ text =
        take-all (length input + 16) text (omega (arith, size_of)) in
      rw (h, k, total, kept, whole, rest) (λ i. ok (text ++ replicate 16 0))

  -- The receiver rejects no ciphertext that is addressed to its key: whatever the bytes, with a vector of 16 bytes and a sender's key
  -- that yields a secret, `decrypt` returns them run through the counter mode and 16 zero bytes.
  pub decrypt_accepts :
      (b : CipherBody) (receiver : EcdhKey) (secret : List ℕ)
      → b.destination ≡ ecdh_public_key c receiver
      → agree c receiver b.source ≡ ok secret
      → length b.iv ≡ 16
      → decrypt c b receiver ≡ ok (gcm_stream (sha256 secret) b.iv b.ciphertext ++ replicate 16 0)
  unfolding decrypt
  decrypt_accepts b receiver secret d a k =
      rw (d, bytes_eq_refl (ecdh_public_key c receiver), a)
        (decrypt-stream (sha256 secret) b.iv b.ciphertext (sized_key secret) k)

  -- What one node encrypts for another one's key: how long it is, and how it is read and decrypted.
  pub encrypt-sealed :
      (iv cleartext : List ℕ) (sender receiver : EcdhKey)
      → length iv ≡ 16
      → length cleartext + 162 ≤ max_size
      → (b : CipherBody) × (surplus : List ℕ) × (encrypt c iv cleartext sender
            (ecdh_public_key c receiver)
          ≡ ok b)
        × (parse_cipher (cipher_binary b) ≡ ok b)
        × (decrypt c b receiver ≡ ok (cleartext ++ surplus))
        × (length surplus ≡ 32)
        × (b.destination ≡ ecdh_public_key c receiver)
        × (length (cipher_binary b) ≡ length cleartext + 162)
  unfolding encrypt decrypt aes_gcm_encrypt
  encrypt-sealed iv cleartext sender receiver h k =
      let (s, e, e') = laws.agree_both sender receiver in
      let key = sha256 s in
      let text = gcm_stream key iv cleartext in
      let input = text ++ gcm_tag key iv text in
      let plain = gcm_stream key iv input in
      let n = length cleartext in
      let b : CipherBody = record {
        source = ecdh_public_key c sender;
        destination = ecdh_public_key c receiver;
        iv = iv;
        ciphertext = input;
      } in
      let sizes : IsSized b = record {
        source_size = unfold ecdh_public_key in laws.length-public_block sender;
        destination_size = unfold ecdh_public_key in laws.length-public_block receiver;
        iv_size = h;
      } in
      let size_of : length input ≡ n + 16 = omega (
        arith,
        length-append text (gcm_tag key iv text),
        laws.length-gcm_stream key iv cleartext,
        laws.length-gcm_tag key iv text,
      ) in
      (
        b,
        drop n plain ++ replicate 16 0,
        rw (agree-public sender receiver s e, sized_key s),
        parse_cipher-cipher_binary b sizes (omega (arith, length-cipher_binary b sizes, size_of)),
        rw
            (
              bytes_eq_refl (ecdh_public_key c receiver),
              agree-public receiver sender s e',
              decrypt-stream key iv input (sized_key s) h,
            )
            (ap ok (
              split_at n plain cleartext (replicate 16 0)
                (laws.gcm_stream-gcm_stream key iv cleartext (gcm_tag key iv text)))),
        omega (
          arith,
          length-append (drop n plain) (replicate {A = ℕ} 16 0),
          length-drop n plain,
          laws.length-gcm_stream key iv input,
          size_of,
        ),
        refl,
        omega (arith, length-cipher_binary b sizes, size_of),
      )

  -- Under the laws of Crypto++, what one node encrypts within the size limit for another one's key is
  -- sent, read and decrypted there: the result is the cleartext with 32 more bytes behind it, whatever
  -- 16-byte vector was drawn.
  pub decrypt-encrypt :
      (iv cleartext : List ℕ) (sender receiver : EcdhKey)
      → length iv ≡ 16
      → length cleartext + 162 ≤ max_size
      → (b : CipherBody) × (surplus : List ℕ) × (encrypt c iv cleartext sender
            (ecdh_public_key c receiver)
          ≡ ok b)
        × (parse_cipher (cipher_binary b) ≡ ok b)
        × (decrypt c b receiver ≡ ok (cleartext ++ surplus))
        × (length surplus ≡ 32)
  decrypt-encrypt iv cleartext sender receiver h k =
      let (b, surplus, sent, parsed, got, size_of, to, total) =
        encrypt-sealed iv cleartext sender receiver h k in
      (b, surplus, sent, parsed, got, size_of)

  -- Under the laws of Crypto++, strings without zero bytes that are packed within the size limit and
  -- encrypted with a 16-byte vector are what the receiver unpacks: the bytes behind the cleartext do
  -- not reach them.
  pub unpack-decrypt :
      (iv : List ℕ) (strs : List (List ℕ)) (sender receiver : EcdhKey)
      → length iv ≡ 16
      → length (pack_strings strs) + 162 ≤ max_size
      → All IsText strs
      → (b : CipherBody) × (plain : List ℕ) × (encrypt c iv
            (pack_strings strs)
            sender
            (ecdh_public_key c receiver)
          ≡ ok b)
        × (decrypt c b receiver ≡ ok plain)
        × (unpack_strings (length strs) plain ≡ strs)
  unpack-decrypt iv strs sender receiver h k t =
      let (b, surplus, sent, parsed, got, size_of) =
        decrypt-encrypt iv (pack_strings strs) sender receiver h k in
      (b, pack_strings strs ++ surplus, sent, got, unpack-pack strs surplus t)
