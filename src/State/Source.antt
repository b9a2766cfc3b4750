-- ===== src/State/Source.antt =====
-- Whose state `State::FromMessage` of src/impl/state.cpp reads.
use legio.Prelude.{
  ℕ, ◌≡◌, sym, ◌∙◌, List, Option, none, some, Result, ok, err, inl, inr, arith, ap, suc, length, [],
  Result-cases,
}
use legio.Crypto.{CryptoPp}
use legio.Binary.Stream.{BinaryReader}
use legio.Message.{Message}
use legio.State.{State, read_key, with_neighbors, read_ids, from_message}

module _ (c : CryptoPp) where
  open c use {Point}

  with_neighbors-key :
      (source : Point) (sequence : ℕ) (key : List ℕ) (o : Option (Result (List Point)))
      (s : State Point)
      → with_neighbors c source sequence key o ≡ some (ok s)
      → s.ecdsa_key ≡ source
  unfolding with_neighbors
  with_neighbors-key source sequence key none s h = cc h
  with_neighbors-key source sequence key (some (err x)) s h = cc h
  with_neighbors-key source sequence key (some (ok ids)) s h =
      let t : State Point = record {
        ecdsa_key = source;
        sequence = sequence;
        ecdh_public = key;
        neighbors = ids;
      } in
      let e : t ≡ s = cc h in ap (λ (x : State Point). x.ecdsa_key) (sym e)

  read_key-source :
      (m : Message Point) (got : Point × List ℕ × BinaryReader)
      → read_key c m ≡ ok got
      → m.source ≡ some got.0
  unfolding read_key
  read_key-source m got h = ground arith

  -- The state that a message announces is that of its source.
  pub from_message-source :
      (m : Message Point) (s : State Point)
      → from_message c m ≡ some (ok s)
      → m.source ≡ some s.ecdsa_key
  unfolding from_message
  from_message-source m s h = elim (Result-cases (read_key c m)) [
    | inl (x, e) ↦ cc (rw (e, from_message) at h)
    | inr (got, e) ↦
        read_key-source m got e
        ∙ ap some (
            sym (
              with_neighbors-key got.0 m.sequence got.1 (read_ids c (suc (length m.body)) got.2 [])
                s (rw (e, from_message) at h)))
  ]
