-- ===== src/State/Codec.antt =====
-- A state that a node announces is the state that the others read.
use legio.Prelude.{
  inl, inr, Bool-cases, ℕ, zero, suc, ◌+◌, ◌*◌, ◌^◌, ◌<◌, ◌≤◌, ◌≡◌, refl, ap, sym, ◌∙◌, Bool, true,
  false, leb, List, [], ◌∷◌, ◌++◌, append_assoc, append-nil, length, length-append, All, none, some,
  ok, arith, Bool-cases,
}
use legio.ByteOrder.{Endian}
use legio.Binary.Stream.{
  BinaryReader, BinaryWriter, binary_reader, read, left, size, write, max_size,
}
use legio.Binary.Stream.Laws.{
  IsWellFormed, Yields, read-front, size-left, binary_reader-IsWellFormed,
}
use legio.Crypto.{CryptoPp, CryptoLaws, public_key}
use legio.Message.{Message, state_type}
use legio.Message.Codec.{IsEncodable, ecdsa_public-encode}
use legio.Message.Authentic.{create-ok, draft, created}
use legio.State.{
  State, set_insert, write_ids, state_body, to_message, read_id, read_ids, read_key, with_neighbors,
  from_message,
}

-- `operator<` of the identifiers is a strict order.
pub record IsStrictOrder {Identifier : Type 0} (less : Identifier → Identifier → Bool)
    : Type 0 where
  pub irreflexive : (a : Identifier) → less a a ≡ false
  pub transitive : (a b d : Identifier) → less a b ≡ true → less b d ≡ true → less a d ≡ true

-- The members of a `std::set`, in order.
abbrev pub IsAscending :
    {Identifier : Type 0} → (Identifier → Identifier → Bool) → List Identifier → Type 0
IsAscending less [] = Unit {0}
IsAscending less (x ∷ xs) = All (λ y. less x y ≡ true) xs × IsAscending less xs

module _ {Identifier : Type 0} (less : Identifier → Identifier → Bool)
    (order : IsStrictOrder less) where
  not-less-back : (a b : Identifier) → less a b ≡ true → less b a ≡ false
  not-less-back a b h = elim (Bool-cases (less b a)) [
    | inl k ↦ cc (order.transitive a b a h k, order.irreflexive a)
    | inr k ↦ k
  ]

  -- A member above all others goes to the end.
  insert_last :
      (x : Identifier) (ids : List Identifier)
      → All (λ y. less y x ≡ true) ids
      → set_insert less x ids ≡ ids ++ x ∷ []
  unfolding set_insert
  insert_last x [] h = refl
  insert_last x (y ∷ ids) h = rw (not-less-back y x h.0, h.0, insert_last x ids h.1)

-- In an ascending list, what stands before a member is below it.
before :
    {Identifier : Type 0} (less : Identifier → Identifier → Bool) (xs : List Identifier)
    (p : Identifier) (ps : List Identifier)
    → IsAscending less (xs ++ p ∷ ps)
    → All (λ y. less y p ≡ true) xs
before less [] p ps o = tt
before {Identifier} less (x ∷ xs) p ps o = (member xs o.0, before less xs p ps o.1)
  where
    member : (ys : List Identifier) → All (λ y. less x y ≡ true) (ys ++ p ∷ ps) → less x p ≡ true
    member [] a = a.0
    member (y ∷ ys) a = member ys a.1

module _ (c : CryptoPp) (laws : CryptoLaws c) (order : IsStrictOrder c.point_lt) where
  open c use {Point, PrivateKey, make_public_key, validate, encode_point, point_lt}

  -- The bytes of identifiers, one after the other.
  abbrev pub id_bytes : List Point → List ℕ
  id_bytes [] = []
  id_bytes (p ∷ ps) = encode_point p ++ id_bytes ps

  length-id_bytes : (ps : List Point) → length (id_bytes ps) ≡ 33 * length ps
  length-id_bytes [] = refl
  length-id_bytes (p ∷ ps) = omega (
    arith,
    length-append (encode_point p) (id_bytes ps),
    laws.length-encode p,
    length-id_bytes ps,
  )

  write_ids-bytes :
      (w : BinaryWriter) (ps : List Point) → (write_ids c w ps).bin ≡ w.bin ++ id_bytes ps
  unfolding write_ids write public_key
  write_ids-bytes w [] = sym (append-nil w.bin)
  write_ids-bytes w (p ∷ ps) =
      write_ids-bytes (write w (public_key c p)) ps
      ∙ append_assoc w.bin (encode_point p) (id_bytes ps)

  read_id-front :
      (r : BinaryReader) (p : Point) (rest : List ℕ)
      → IsWellFormed r
      → validate p ≡ true
      → left r ≡ encode_point p ++ rest
      → Yields (read_id c r) p rest
  unfolding read_id
  read_id-front r p rest v k h =
      let (r', e, q, v') = rw (laws.length-encode p) at (read-front r (encode_point p) rest v h) in
      (r', rw (e, ecdsa_public-encode c laws p k), q, v')

  -- The loop reads the identifiers that stand there, and ends when fewer bytes than one are left.
  read_ids-bytes :
      (rounds : ℕ) (r : BinaryReader) (found ps : List Point)
      → length ps < rounds
      → IsWellFormed r
      → left r ≡ id_bytes ps
      → All (λ p. validate p ≡ true) ps
      → IsAscending point_lt (found ++ ps)
      → read_ids c rounds r found ≡ some (ok (found ++ ps))
  unfolding read_ids
  read_ids-bytes zero r found ps h v e k o = absurd (omega arith)
  read_ids-bytes (suc rounds) r found [] h v e k o =
      let none_left : leb 33 (size r) ≡ false = ground (arith, size-left r, ap length e) in
      rw (none_left, append-nil found)
  read_ids-bytes (suc rounds) r found (p ∷ ps) h v e k o =
      let fits : leb 33 (size r) ≡ true = ground (
        arith,
        size-left r,
        ap length e,
        length-append (encode_point p) (id_bytes ps),
        laws.length-encode p,
      ) in
      let (r', e', q, v') = read_id-front r p (id_bytes ps) v k.0 e in
      rw (fits, e', insert_last point_lt order p found (before point_lt found p ps o))
        (read_ids-bytes rounds r' (found ++ p ∷ []) ps (omega arith) v' q k.1
            (rw (append_assoc found (p ∷ []) ps) o)
          ∙ ap (λ (t : List Point). some (ok t)) (append_assoc found (p ∷ []) ps))

  state_body-bytes : (s : State Point) → state_body c s ≡ s.ecdh_public ++ id_bytes s.neighbors
  unfolding state_body write
  state_body-bytes s = write_ids-bytes (record { bin = s.ecdh_public }) s.neighbors

  -- A state that can be announced: a key of the right size, and neighbours that are a set of valid
  -- identifiers, few enough for one message.
  pub record IsAnnounceable (s : State Point) : Type 0 where
    pub sequence_word : s.sequence < 2 ^ 32
    pub key_size : length s.ecdh_public ≡ 65
    pub valid : All (λ p. validate p ≡ true) s.neighbors
    pub ascending : IsAscending point_lt s.neighbors
    pub few : 33 * length s.neighbors + 65 < 2 ^ 16

  length-body :
      (s : State Point) → IsAnnounceable s → length (state_body c s) ≡ 65 + 33 * length s.neighbors
  length-body s v = omega (
    arith,
    ap length (state_body-bytes s),
    length-append s.ecdh_public (id_bytes s.neighbors),
    length-id_bytes s.neighbors,
    v,
  )

  read_key-step :
      (m : Message Point) (p : Point) (key : List ℕ) (r : BinaryReader)
      → m.type ≡ state_type
      → m.source ≡ some p
      → leb 65 (size (binary_reader m.body)) ≡ true
      → read (binary_reader m.body) 65 ≡ ok (key, r)
      → read_key c m ≡ ok (p, key, r)
  unfolding read_key
  read_key-step m p key r ht hs long e = rw (ht, hs, long, e)

  -- The checks pass on a state message with a source and a key in front.
  read_key-front :
      (m : Message Point) (p : Point) (key rest : List ℕ)
      → m.type ≡ state_type
      → m.source ≡ some p
      → m.body ≡ key ++ rest
      → length key ≡ 65
      → length m.body ≤ max_size
      → (r : BinaryReader) × (read_key c m ≡ ok (p, key, r)) × (left r ≡ rest) × IsWellFormed r
  read_key-front m p key rest ht hs hb hk fits =
      let start = binary_reader-IsWellFormed m.body fits in
      let long : leb 65 (size (binary_reader m.body)) ≡ true =
        unfold size binary_reader in ground (arith, ap length hb, length-append key rest) in
      let (r, e, q, v) =
        rw hk at
          (read-front (binary_reader m.body) key rest start (unfold left binary_reader in hb)) in
      (r, read_key-step m p key r ht hs long e, q, v)

  from_message-key :
      (m : Message Point) (p : Point) (key : List ℕ) (ids : List Point) (r : BinaryReader)
      → read_key c m ≡ ok (p, key, r)
      → read_ids c (suc (length m.body)) r [] ≡ some (ok ids)
      → from_message c m
        ≡ some (
            ok
              (record { ecdsa_key = p; sequence = m.sequence; ecdh_public = key; neighbors = ids }))
  unfolding from_message with_neighbors
  from_message-key m p key ids r e h = rw (e, from_message, h)

  -- Under the laws of Crypto++ and for a strict order of identifiers: the message that a node makes,
  -- with its own pair, of a state with a 65-byte key and valid ascending neighbours that fit one
  -- message is read by the others as that very state: key, sequence number, and set of neighbours.
  pub from_message-to_message :
      (e : Endian) (seed : ℕ) (s : State Point) (pair : PrivateKey)
      → s.ecdsa_key ≡ make_public_key pair
      → IsAnnounceable s
      → (m : Message Point) × (to_message c e seed s pair ≡ ok m) × (from_message c m ≡ some (ok s))
  unfolding to_message from_message
  from_message-to_message e seed s pair own v =
      let body = state_body c s in
      let size_of : length body < 2 ^ 16 = omega (arith, length-body s v, v) in
      let d = draft c laws e e state_type s.sequence body none in
      let m = created c laws e e seed d (some pair) in
      let fits : IsEncodable c d = record {
        type_byte = omega arith;
        sequence_word = v.sequence_word;
        body_size = omega arith;
        source_valid = tt;
        destination_valid = tt;
      } in
      let (r, read, rest, v') =
        read_key-front m (make_public_key pair) s.ecdh_public (id_bytes s.neighbors) refl refl
          (state_body-bytes s) v.key_size (omega arith) in
      (
        m,
        create-ok c laws e e seed state_type s.sequence body (some pair) none fits,
        from_message-key m (make_public_key pair) s.ecdh_public s.neighbors r read (
              read_ids-bytes (suc (length body)) r [] s.neighbors (omega (arith, length-body s v))
                v' rest v.valid v.ascending)
            ∙ ap (λ (p : Point). some (ok (record s { ecdsa_key = p }))) (sym own),
      )

  -- A state with a key of 65 bytes and few enough neighbours can be made a message.
  pub to_message-ok :
      (e : Endian) (seed : ℕ) (s : State Point) (pair : PrivateKey)
      → s.sequence < 2 ^ 32
      → length s.ecdh_public ≡ 65
      → 33 * length s.neighbors + 65 < 2 ^ 16
      → (m : Message Point) × (to_message c e seed s pair ≡ ok m)
  unfolding to_message
  to_message-ok e seed s pair word size few =
      let body = state_body c s in
      let d = draft c laws e e state_type s.sequence body none in
      let fits : IsEncodable c d = record {
        type_byte = omega arith;
        sequence_word = word;
        body_size = omega (
          arith,
          ap length (state_body-bytes s),
          length-append s.ecdh_public (id_bytes s.neighbors),
          length-id_bytes s.neighbors,
        );
        source_valid = tt;
        destination_valid = tt;
      } in
      (
        created c laws e e seed d (some pair),
        create-ok c laws e e seed state_type s.sequence body (some pair) none fits,
      )
