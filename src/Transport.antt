-- ===== src/Transport.antt =====
-- src/impl/transport.hpp, transport.cpp, broadcastabletransport.hpp and broadcastabletransport.cpp:
-- numbered messages of one type between nodes. The sequence numbers are `uint32_t`.
pub mod Replay
use legio.Prelude.{
  ℕ, ◌+◌, ◌%◌, ◌^◌, ◌≡◌, Bool, true, false, not, ◌==◌, ◌||◌, if◌then◌else◌, List, [], ◌∷◌, Option,
  none, some, has_value, find, emplace, assign, bytes_eq, Result, ok, err, ◌>>=◌, no_broadcast,
}
use legio.ByteOrder.{Endian}
use legio.Crypto.{CryptoPp, ecdh_public_key}
use legio.Message.{Message, create, to_binary}
use legio.Message.Sequence.{Comparison, older, same, newer, compare_sequence}
use legio.Cipher.{CipherBody, parse_cipher, cipher_binary, encrypt, decrypt}
use legio.State.{State}
use legio.Routing.{Channel, Channels, Routing, Effects, send, broadcast}

-- `class Transport`; the callback's calls are results.
pub record Transport (Identifier : Type 0) : Type 0 where
  pub type : ℕ
  pub send_sequence : ℕ
  pub sequences : List (Identifier × ℕ)

-- `mSendSequence++`
abbrev pub count_up : {Identifier : Type 0} → Transport Identifier → Transport Identifier
count_up t = record t { send_sequence = (t.send_sequence + 1) % 2 ^ 32 }

-- `compare_sequence(…) > 0`
abbrev pub is_newer : Comparison → Bool
is_newer older = false
is_newer same = false
is_newer newer = true

-- `bool checkSequence(const Identifier &id, uint32_t sequence)`
unfoldable pub check_sequence :
    {Identifier : Type 0}
    → Discrete Identifier
    → Transport Identifier
    → Identifier
    → ℕ
    → Transport Identifier × Bool
check_sequence equal t id sequence = elim (find equal id t.sequences) [
  | none ↦ (record t { sequences = emplace equal id sequence t.sequences }, true)
  | some last ↦
      if is_newer (compare_sequence sequence last)
      then (record t { sequences = assign equal id sequence t.sequences }, true)
      else (t, false)
]

module _ (c : CryptoPp) (e : Endian) where
  open c use {Point, same_point, PrivateKey, EcdhKey}

  -- What is handed to the callback.
  abbrev pub Delivered : Type 0
  Delivered = Option (Point × List ℕ)

  -- The rest of `incoming` once the sequence number was accepted, for the local ECDH pair `ecdh`.
  unfoldable pub open_body : EcdhKey → Message Point → Point → Result Delivered
  open_body ecdh m source =
      if has_value m.destination
      then (parse_cipher m.body >>= λ b.
          if bytes_eq b.destination (ecdh_public_key c ecdh)
          then (decrypt c b ecdh >>= λ payload. ok (some (source, payload)))
          else ok none)
      else ok none

  -- `void Transport::incoming(message_ptr message, shared_ptr<Channel> from)` for a message from
  -- `source`
  unfoldable pub incoming :
      EcdhKey → Transport Point → Message Point → Point → Transport Point × Result Delivered
  unfolding open_body check_sequence
  incoming ecdh t m source =
      let (t', fresh) = check_sequence same_point t source m.sequence in
      (t', if fresh then open_body ecdh m source else ok none)

  -- `void Transport::notify(const events::variant &event)` for a message
  unfoldable pub notify :
      EcdhKey → Transport Point → Message Point → Transport Point × Result Delivered
  unfolding incoming
  notify ecdh t m = elim m.source [
    | none ↦ (t, ok none)
    | some source ↦ if m.type == t.type then incoming ecdh t m source else (t, ok none)
  ]

  -- What `routing->send` and `routing->broadcast` need.
  module _ (pair : PrivateKey) (net : Channels) (local : Point) (r : Routing Point) where
    -- `void Transport::send(Identifier remoteId, binary payload)`; `remote` is what `graph->get`
    -- gives, `iv` and `seed` are drawn from the random pool.
    unfoldable pub send_to :
        EcdhKey
        → ℕ
        → List ℕ
        → Transport Point
        → Result (State Point)
        → Point
        → List ℕ
        → Transport Point × Result (Effects Point)
    send_to ecdh seed iv t remote remote_id payload =
        elim (remote >>= λ s. encrypt c iv payload ecdh s.ecdh_public) [
          | err x ↦ (t, err x)
          | ok b ↦ (
            count_up t,
            create c e seed t.type t.send_sequence (cipher_binary b) (some pair) (some remote_id)
                >>= λ m. send same_point (to_binary c e) net local r m,
          )
        ]

    -- `void Transport::broadcast(binary payload)`
    unfoldable pub broadcast_refused : List ℕ → Result (Effects Point)
    broadcast_refused payload = err no_broadcast

    -- `void BroadcastableTransport::broadcast(binary payload)`
    unfoldable pub broadcast_all :
        ℕ → Transport Point → List ℕ → Transport Point × Result (List (Channel × List ℕ))
    broadcast_all seed t payload = (
      count_up t,
      create c e seed t.type t.send_sequence payload (some pair) none >>= λ m.
          ok (broadcast same_point (to_binary c e) net r m none),
    )

    -- `void BroadcastableTransport::incoming(message_ptr message, shared_ptr<Channel> from)`: with
    -- what is written to the channels.
    unfoldable pub incoming_any :
        EcdhKey
        → Transport Point
        → Message Point
        → Point
        → Option Channel
        → Transport Point × (Result Delivered × List (Channel × List ℕ))
    unfolding incoming check_sequence
    incoming_any ecdh t m source from =
        if has_value m.destination
        then (let (t', got) = incoming ecdh t m source in (t', (got, [])))
        else if not (m.type == t.type)
        then (t, (ok none, []))
        else (let (t', fresh) = check_sequence same_point t source m.sequence in
            if fresh
            then (
              t',
              (ok (some (source, m.body)), broadcast same_point (to_binary c e) net r m from),
            )
            else (t', (ok none, [])))

    -- The guard and the call of `incoming` in `Transport::notify`, for the message's source.
    unfoldable pub notify_from :
        EcdhKey
        → Transport Point
        → Message Point
        → Option Channel
        → Option Point
        → Transport Point × (Result Delivered × List (Channel × List ℕ))
    unfolding incoming_any
    notify_from ecdh t m from none = (t, (ok none, []))
    notify_from ecdh t m from (some source) =
        if m.type == t.type then incoming_any ecdh t m source from else (t, (ok none, []))

    -- `void Transport::notify(const events::variant &event)` of a `BroadcastableTransport`, for a
    -- message
    unfoldable pub notify_any :
        EcdhKey
        → Transport Point
        → Message Point
        → Option Channel
        → Transport Point × (Result Delivered × List (Channel × List ℕ))
    unfolding notify_from
    notify_any ecdh t m from = notify_from ecdh t m from m.source
