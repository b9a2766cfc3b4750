-- ===== src/Transport/Replay.antt =====
-- A message that arrives again, over whatever channel, is neither delivered nor relayed again.
use legio.Prelude.{
  ◌==◌, inl, inr, ℕ, ◌≡◌, Bool, true, false, [], Option, none, some, find, ok, arith, find-assign,
  find-emplace, Option-cases, if◌then◌else◌, ite,
}
use legio.ByteOrder.{Endian}
use legio.Crypto.{CryptoPp}
use legio.Message.{Message}
use legio.Message.Sequence.{same, compare_sequence}
use legio.Routing.{Channel, Channels, Routing}
use legio.Transport.{Transport, is_newer, check_sequence, incoming, notify, incoming_any}

-- The numbers that are accepted after the last one.
abbrev pub is_fresh : Option ℕ → ℕ → Bool
is_fresh none s = true
is_fresh (some last) s = is_newer (compare_sequence s last)

pub compare_sequence-same : (s : ℕ) → compare_sequence s s ≡ same
unfolding compare_sequence
compare_sequence-same s = ground arith

-- Asking twice for a number: the second time it is refused, and nothing changes.
check_sequence-again :
    {Identifier : Type 0} (equal : Discrete Identifier) (t : Transport Identifier) (id : Identifier)
    (s : ℕ)
    → check_sequence equal (check_sequence equal t id s).0 id s
      ≡ ((check_sequence equal t id s).0, false)
unfolding check_sequence
check_sequence-again equal t id s = ground (
  arith,
  compare_sequence-same s,
  find-emplace equal id id s t.sequences,
  find-assign equal id id s t.sequences,
)

-- A number is accepted exactly if its sender is new or it is newer than the last one accepted, and
-- then it is the last one; the last numbers of other senders stay.
pub check_sequence_lem :
    {Identifier : Type 0} (equal : Discrete Identifier) (t : Transport Identifier)
    (id j : Identifier) (s : ℕ)
    → let fresh = is_fresh (find equal id t.sequences) s in
      let (t', accepted) = check_sequence equal t id s in
      (accepted ≡ fresh)
      × (find equal j t'.sequences ≡ (
          if fresh
          then ite (equal id j) (some s) (find equal j t.sequences)
          else find equal j t.sequences))
unfolding check_sequence
check_sequence_lem equal t id j s =
    ground (arith, find-emplace equal id j s t.sequences, find-assign equal id j s t.sequences)

module _ (c : CryptoPp) (e : Endian) where
  open c use {Point, same_point, PrivateKey, EcdhKey}

  incoming-again :
      (ecdh : EcdhKey) (t : Transport Point) (m : Message Point) (source : Point)
      → incoming c e ecdh (incoming c e ecdh t m source).0 m source
        ≡ ((incoming c e ecdh t m source).0, ok none)
  unfolding incoming
  incoming-again ecdh t m source =
      ground (arith, check_sequence-again same_point t source m.sequence)

  notify-some :
      (ecdh : EcdhKey) (t : Transport Point) (m : Message Point) (source : Point)
      → m.source ≡ some source
      → notify c e ecdh t m
        ≡ (if m.type == t.type then incoming c e ecdh t m source else (t, ok none))
  unfolding notify
  notify-some ecdh t m source h =
      rw (h, notify) (λ i. if m.type == t.type then incoming c e ecdh t m source else (t, ok none))

  notify-none :
      (ecdh : EcdhKey) (t : Transport Point) (m : Message Point)
      → m.source ≡ none
      → notify c e ecdh t m ≡ (t, ok none)
  unfolding notify
  notify-none ecdh t m h = rw (h, notify) (λ i. (t, ok none))

  incoming-type :
      (ecdh : EcdhKey) (t : Transport Point) (m : Message Point) (source : Point)
      → (incoming c e ecdh t m source).0.type ≡ t.type
  unfolding incoming check_sequence
  incoming-type ecdh t m source = ground arith

  pub notify-type :
      (ecdh : EcdhKey) (t : Transport Point) (m : Message Point)
      → (notify c e ecdh t m).0.type ≡ t.type
  notify-type ecdh t m = elim (Option-cases m.source) [
    | inl h ↦ rw (notify-none ecdh t m h)
    | inr (source, h) ↦ ground (arith, notify-some ecdh t m source h, incoming-type ecdh t m source)
  ]

  -- The same message is handled once: when it arrives again, nothing is delivered and the transport
  -- does not change.
  pub notify-again :
      (ecdh : EcdhKey) (t : Transport Point) (m : Message Point)
      → notify c e ecdh (notify c e ecdh t m).0 m ≡ ((notify c e ecdh t m).0, ok none)
  notify-again ecdh t m = elim (Option-cases m.source) [
    | inl h ↦ notify-none ecdh (notify c e ecdh t m).0 m h
    | inr (source, h) ↦
        let t' = (notify c e ecdh t m).0 in
        ground (
          arith,
          notify-some ecdh t m source h,
          notify-some ecdh t' m source h,
          incoming-type ecdh t m source,
          incoming-again ecdh t m source,
        )
  ]

  -- A broadcast is delivered and relayed at most once: when it arrives again, over whatever channel,
  -- nothing is delivered, nothing is sent, and the transport does not change.
  pub incoming_any-again :
      (pair : PrivateKey) (net : Channels) (local : Point) (r r' : Routing Point) (ecdh : EcdhKey)
      (t : Transport Point) (m : Message Point) (source : Point) (from from' : Option Channel)
      → let t' = (incoming_any c e pair net local r ecdh t m source from).0 in
        incoming_any c e pair net local r' ecdh t' m source from' ≡ (t', (ok none, []))
  unfolding incoming_any incoming
  incoming_any-again pair net local r r' ecdh t m source from from' =
      ground (arith, check_sequence-again same_point t source m.sequence)
