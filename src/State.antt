-- ===== src/State.antt =====
-- src/impl/state.hpp and state.cpp: what a node tells the others of itself.
pub mod Codec
pub mod Source
pub mod Rounds
use legio.Prelude.{
  ℕ, zero, suc, Bool, true, false, ltb, leb, ◌==◌, if◌then◌else◌, List, [], ◌∷◌, ◌++◌, length,
  Option, none, some, Result, ok, err, guard, or_throw, ◌>>=◌, ◌>>◌, not_a_state_message,
  truncated_state_message,
}
use legio.ByteOrder.{Endian}
use legio.Binary.Stream.{
  BinaryReader, binary_reader, read, size, BinaryWriter, binary_writer, write,
}
use legio.Crypto.{CryptoPp, identifier_size, ecdh_key_size, ecdsa_public, public_key}
use legio.Message.{Message, state_type, create}

-- `struct State`
pub record State (Identifier : Type 0) : Type 0 where
  pub ecdsa_key : Identifier
  pub sequence : ℕ
  pub ecdh_public : List ℕ
  pub neighbors : List Identifier

-- `std::set<Identifier>::insert`: the set is the list of its members in the order of `operator<`.
unfoldable pub set_insert :
    {Identifier : Type 0}
    → (Identifier → Identifier → Bool)
    → Identifier
    → List Identifier
    → List Identifier
set_insert less id [] = id ∷ []
set_insert less id (other ∷ ids) =
    let rest = set_insert less id ids in
    if less id other then id ∷ other ∷ ids else if less other id then other ∷ rest else other ∷ ids

module _ (c : CryptoPp) where
  open c use {Point, PrivateKey, point_lt}

  -- `for (const Identifier &id : neighbors) writer.write(id)`
  unfoldable pub write_ids : BinaryWriter → List Point → BinaryWriter
  write_ids w [] = w
  write_ids w (id ∷ ids) = write_ids (write w (public_key c id)) ids

  -- The body that `toMessage` writes.
  unfoldable pub state_body : State Point → List ℕ
  state_body s = (write_ids (write binary_writer s.ecdh_public) s.neighbors).bin

  -- `message_ptr State::toMessage(const EcdsaPair &ecdsaPair) const`
  unfoldable pub to_message : Endian → ℕ → State Point → PrivateKey → Result (Message Point)
  to_message e seed s pair = create c e seed state_type s.sequence (state_body s) (some pair) none

  -- `binary id = reader.read(Identifier::Size)`, and its conversion
  unfoldable pub read_id : BinaryReader → Result (Point × BinaryReader)
  read_id r = do (bin, r') ← read r identifier_size; id ← ecdsa_public c bin; ok (id, r')

  -- `while (reader.size() >= Identifier::Size) …`; `none` means that the rounds did not suffice.
  unfoldable pub read_ids : ℕ → BinaryReader → List Point → Option (Result (List Point))
  read_ids zero r ids = none
  read_ids (suc rounds) r ids =
      let rest : Option (Result (List Point)) = elim (read_id r) [
        | err e ↦ some (err e)
        | ok (id, r') ↦ read_ids rounds r' (set_insert point_lt id ids)
      ] in
      if leb identifier_size (size r) then rest else some (ok ids)

  -- The checks of `FromMessage`, and the key that it reads first.
  unfoldable pub read_key : Message Point → Result (Point × List ℕ × BinaryReader)
  read_key m = do
    guard (m.type == state_type) not_a_state_message
    source ← or_throw m.source not_a_state_message
    let reader = binary_reader m.body
    guard (leb ecdh_key_size (size reader)) truncated_state_message
    (key, r) ← read reader ecdh_key_size
    ok (source, key, r)

  unfoldable pub with_neighbors :
      Point → ℕ → List ℕ → Option (Result (List Point)) → Option (Result (State Point))
  with_neighbors source sequence key none = none
  with_neighbors source sequence key (some (err e)) = some (err e)
  with_neighbors source sequence key (some (ok ids)) =
      some (
        ok (record { ecdsa_key = source; sequence = sequence; ecdh_public = key; neighbors = ids }))

  -- `static State State::FromMessage(message_ptr message)`: each round reads an identifier, so the
  -- length of the body bounds them.
  unfoldable pub from_message : Message Point → Option (Result (State Point))
  from_message m = elim (read_key m) [
    | err e ↦ some (err e)
    | ok (source, key, r) ↦
        with_neighbors source m.sequence key (read_ids (suc (length m.body)) r [])
  ]
