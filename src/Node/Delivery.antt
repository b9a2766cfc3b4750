-- ===== src/Node/Delivery.antt =====
-- A message of a user from one node to another, from `send` there to the callback here.
use legio.Prelude.{
  ℕ, ◌≡◌, ◌+◌, ◌^◌, ◌<◌, Bool, true, ok, none, some, [], ◌∷◌, ◌++◌, ◌==◌, Result, List, length, inr,
  ap, ◌∙◌, ◌⊎◌, arith, find, if◌then◌else◌,
}
use legio.Crypto.{CryptoPp, CryptoLaws}
use legio.Message.{Message, user_type, parse}
use legio.Transport.{Transport, count_up, send_to}
use legio.Transport.Replay.{is_fresh}
use legio.Routing.{Channel, Effects}
use legio.Graph.Edges.{get_state}
use legio.Graph.World.{World, returned}
use legio.Node.{receive_user}
use legio.Node.Dispatch.{Platform, NodeState, receive_data, wrote, send_user, emit_each, sent_from}
use legio.Node.Handled.{IsWired}
use legio.Node.Delivered.{content, given, notify_user-given}
use legio.Node.Sealed.{IsLinked, send_to-IsSealed}
use legio.Node.Again.{first_arrival}

module _ (c : CryptoPp) (laws : CryptoLaws c) (sender_platform : Platform c) (Sender : Type 0)
    (sender_pair : c.PrivateKey) (receiver_platform : Platform c) (Receiver : Type 0)
    (receiver_pair : c.PrivateKey) where
  open c use {Point, same_point, make_public_key}

  abbrev sender_id : Point
  sender_id = make_public_key sender_pair

  abbrev receiver_id : Point
  receiver_id = make_public_key receiver_pair

  -- The worlds of `a` and `b` are linked over `channel`.
  abbrev pub Linked : Channel → World c → World c → Type 0
  Linked channel a b =
      IsLinked c laws sender_platform.byte_order receiver_platform.byte_order
        sender_platform.channels sender_pair receiver_pair channel a b

  -- The sender `a` can send to the receiver `b`: it is linked to it over `channel`, and its next number
  -- is one that `b` accepts.
  pub record CanSend (channel : Channel) (a : NodeState c sender_platform Sender)
      (b : NodeState c receiver_platform Receiver) : Type 0 where
    pub sender_wired : IsWired c sender_platform Sender sender_pair a
    pub receiver_wired : IsWired c receiver_platform Receiver receiver_pair b
    pub linked : Linked channel a.world b.world
    pub number : a.user.send_sequence < 2 ^ 32
    pub fresh : is_fresh (find same_point sender_id b.user.sequences) a.user.send_sequence ≡ true

  -- What a user message from `a` leaves of `b`, whose channel to `a` is `channel'`.
  pub user_received :
      (rounds : ℕ) (bytes : List ℕ) (channel : Channel) (b : NodeState c receiver_platform Receiver)
      (m : Message Point) (plain : List ℕ)
      → IsWired c receiver_platform Receiver receiver_pair b
      → parse c receiver_platform.byte_order bytes ≡ ok m
      → m.source ≡ some sender_id
      → (m.destination ≡ none) ⊎ (m.destination ≡ some receiver_id)
      → m.type ≡ user_type
      → is_fresh (find same_point sender_id b.user.sequences) m.sequence ≡ true
      → content c receiver_platform.byte_order b.world.ecdh m sender_id
        ≡ ok (some (sender_id, plain))
      → (receive_data c receiver_platform Receiver receiver_pair rounds bytes channel b).0.program
        ≡ receive_user b.message_callback sender_id plain b.program
  user_received rounds bytes channel b m plain v q h d t f o =
      ap (λ (k : NodeState c receiver_platform Receiver). k.program)
        (first_arrival c receiver_platform Receiver receiver_pair rounds bytes channel b m sender_id
          v q h d t)
      ∙ notify_user-given c receiver_platform Receiver receiver_pair m (some channel) b sender_id h
          (ap (λ (k : ℕ). k == b.user.type) t ∙ ap (λ (k : ℕ). user_type == k) v.user_typed)
      ∙ ap
          (λ (fresh : Bool). given c receiver_platform Receiver receiver_pair b (
            if fresh
            then content c receiver_platform.byte_order b.world.ecdh m sender_id
            else ok none))
          f
      ∙ ap (given c receiver_platform Receiver receiver_pair b) o

  -- What a message that was sent without an event leaves.
  sent_on :
      (rounds : ℕ) (t : Transport Point) (out : List (Channel × List ℕ))
      (a : NodeState c sender_platform Sender) (x : Transport Point × Result (Effects Point))
      → x ≡ (t, ok (record { sent = out; events = [] }))
      → sent_from c sender_platform Sender sender_pair rounds x a
        ≡ (wrote c sender_platform Sender sender_pair out (record a { user = t }), returned tt)
  unfolding emit_each
  sent_on rounds t out a x h =
      ap
        (λ (y : Transport Point × Result (Effects Point)).
          sent_from c sender_platform Sender sender_pair rounds y a)
        h

  -- What `send` of `a` to `b` writes to its channel is, when it arrives at `b`, handed to the callback
  -- of `b` with the identifier of `a`: the payload, with 32 more bytes behind it. Required are that `a`
  -- holds a state with the key of `b` and a route to it over the channel, which takes what it is given,
  -- that `b` accepts the next number of `a`, that the transports of both have their types, that the
  -- payload fits a message, and that the vector has 16 bytes.
  pub send_user-receive_data :
      (rounds rounds' seed : ℕ) (iv payload : List ℕ) (channel channel' : Channel)
      (a : NodeState c sender_platform Sender) (b : NodeState c receiver_platform Receiver)
      → CanSend channel a b
      → length iv ≡ 16
      → length payload + 162 < 2 ^ 16
      → (bytes : List ℕ) × (surplus : List ℕ) × (send_user c sender_platform Sender sender_pair
            rounds iv seed receiver_id payload a
          ≡ (
            wrote c sender_platform Sender sender_pair
                ((channel, bytes) ∷ [])
                (record a { user = count_up a.user }),
            returned tt,
          ))
        × (length surplus ≡ 32)
        × ((receive_data c receiver_platform Receiver receiver_pair rounds' bytes channel'
              b).0.program
            ≡ receive_user b.message_callback sender_id (payload ++ surplus) b.program)
  unfolding send_user
  send_user-receive_data rounds rounds' seed iv payload channel channel' a b can hiv fits =
      let (bytes, surplus, m, run, s) =
        send_to-IsSealed c laws sender_platform.byte_order receiver_platform.byte_order
          sender_platform.channels sender_pair receiver_pair seed iv payload channel a.user a.world
          b.world can.linked (omega (arith, can.sender_wired.user_typed)) can.number hiv fits in
      (
        bytes,
        surplus,
        sent_on rounds (count_up a.user) ((channel, bytes) ∷ []) a
            (send_to c sender_platform.byte_order sender_pair sender_platform.channels sender_id
              a.world.routing a.world.ecdh seed iv a.user
              (get_state same_point a.world.vertices receiver_id) receiver_id payload)
            run,
        s.extra,
        user_received rounds' bytes channel' b m (payload ++ surplus) can.receiver_wired s.parsed
            s.sourced (inr s.addressed) (s.typed ∙ can.sender_wired.user_typed)
            (ap (λ (k : ℕ). is_fresh (find same_point sender_id b.user.sequences) k) s.numbered
              ∙ can.fresh)
            s.opened,
      )
