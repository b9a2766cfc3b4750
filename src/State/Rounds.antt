-- ===== src/State/Rounds.antt =====
-- The loop of `State::FromMessage` of src/impl/state.cpp ends.
use legio.Prelude.{
  some, none, err, ℕ, zero, suc, ◌≡◌, inl, inr, refl, Bool-cases, Result-cases, has_value, List,
  ◌-◌, ◌<◌, true, ok, arith, Result, Option, leb, sym, length, ap, ◌≤◌, [], ◌∙◌,
}
use legio.Crypto.{CryptoPp, ecdsa_public}
use legio.Binary.Stream.{BinaryReader, read, size, binary_reader}
use legio.State.{read_id, read_ids, read_key, from_message, with_neighbors, set_insert, Message}

-- What is read is gone from what is left.
size-read :
    (r r' : BinaryReader) (n : ℕ) (bytes : List ℕ)
    → read r n ≡ ok (bytes, r')
    → size r' ≡ size r - n
unfolding read size
size-read r r' n bytes h = ground arith

module _ (c : CryptoPp) where
  open c use {Point, point_lt}

  size-read_id :
      (r r' : BinaryReader) (id : Point) → read_id c r ≡ ok (id, r') → size r' ≡ size r - 33
  unfolding read_id
  size-read_id r r' id h = elim (Result-cases (read r 33)) [
    | inl (x, q) ↦ cc (rw (q, read_id) at h)
    | inr ((bin, r''), q) ↦ elim (Result-cases (ecdsa_public c bin)) [
      | inl (x, k) ↦ cc (rw k at (rw (q, read_id) at h))
      | inr (id', k) ↦
          (let e : r'' ≡ r' = cc (rw k at (rw (q, read_id) at h)) in
            sym (ap size e) ∙ size-read r r'' 33 bin q)
    ]
  ]

  has_value-read_ids :
      (rounds : ℕ) (r : BinaryReader) (ids : List Point)
      → size r < rounds
      → has_value (read_ids c rounds r ids) ≡ true
  unfolding read_ids
  has_value-read_ids zero r ids h = absurd (omega (arith, h))
  has_value-read_ids (suc rounds) r ids h = elim (Bool-cases (leb 33 (size r))) [
    | inr b ↦ rw (b, read_ids) refl
    | inl b ↦ elim (Result-cases (read_id c r)) [
      | inl (x, q) ↦ rw (b, q, read_ids) refl
      | inr ((id, r'), q) ↦
          rw (b, q, read_ids)
            (has_value-read_ids rounds r' (set_insert point_lt id ids)
              (ground (arith, size-read_id r r' id q)))
    ]
  ]

  has_value-with_neighbors :
      (source : Point) (sequence : ℕ) (key : List ℕ) (o : Option (Result (List Point)))
      → has_value o ≡ true
      → has_value (with_neighbors c source sequence key o) ≡ true
  unfolding with_neighbors
  has_value-with_neighbors source sequence key none h = cc h
  has_value-with_neighbors source sequence key (some (err x)) h = refl
  has_value-with_neighbors source sequence key (some (ok ids)) h = refl

  size-read_key :
      (m : Message Point) (source : Point) (key : List ℕ) (r : BinaryReader)
      → read_key c m ≡ ok (source, key, r)
      → size r ≤ length m.body
  unfolding read_key read size binary_reader
  size-read_key m source key r h = ground arith

  -- One round more than the body has bytes is enough for the loop of `FromMessage`, whatever the
  -- message is.
  pub has_value-from_message : (m : Message Point) → has_value (from_message c m) ≡ true
  unfolding from_message
  has_value-from_message m = elim (Result-cases (read_key c m)) [
    | inl (x, q) ↦ rw (q, from_message) refl
    | inr ((source, key, r), q) ↦
        rw (q, from_message)
          (has_value-with_neighbors source m.sequence key (read_ids c (suc (length m.body)) r []) (
            has_value-read_ids (suc (length m.body)) r []
              (omega (arith, size-read_key m source key r q))))
  ]
