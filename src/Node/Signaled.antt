-- ===== src/Node/Signaled.antt =====
-- A description of one node's WebRTC library on its way to another's.
use legio.Prelude.{
  ℕ, ◌≡◌, ◌+◌, ◌^◌, ◌<◌, true, List, [], ◌∷◌, length, some, Result, ok, inr, ap, ◌∙◌, find, arith,
}
use legio.Binary.Strings.{pack_strings, IsText}
use legio.Crypto.{CryptoPp, CryptoLaws}
use legio.Message.{Message}
use legio.Networking.Links.{Named}
use legio.Transport.{Transport, count_up, send_to}
use legio.Transport.Replay.{is_fresh}
use legio.Routing.{Channel, Effects}
use legio.Graph.World.{returned}
use legio.Node.Dispatch.{Platform, NodeState, Ran, receive_data, wrote, emit_each}
use legio.Graph.Edges.{get_state}
use legio.Node.Signals.{signal_sent, send_description}
use legio.Node.Handled.{IsWired, route_parsed-local}
use legio.Node.Spared.{receive_data-0}
use legio.Node.Taken.{Described, notify_node-Described}
use legio.Node.Sealed.{IsLinked, IsSealed, send_to-IsSealed}

module _ (c : CryptoPp) (laws : CryptoLaws c) (sender_platform : Platform c) (Sender : Type 0)
    (sender_pair : c.PrivateKey) (receiver_platform : Platform c) (Receiver : Type 0)
    (receiver_pair : c.PrivateKey) where
  open c use {Point, same_point, make_public_key}

  abbrev sender_id : Point
  sender_id = make_public_key sender_pair

  abbrev receiver_id : Point
  receiver_id = make_public_key receiver_pair

  -- The sender `a` can signal to the receiver `b`: it is linked to it over `channel`, and the next
  -- number of its signaling is one that `b` accepts. Each peering of `b` is kept under its identifier.
  pub record CanSignal (channel : Channel) (a : NodeState c sender_platform Sender)
      (b : NodeState c receiver_platform Receiver) : Type 0 where
    pub sender_wired : IsWired c sender_platform Sender sender_pair a
    pub receiver_wired : IsWired c receiver_platform Receiver receiver_pair b
    pub linked :
        IsLinked c laws sender_platform.byte_order receiver_platform.byte_order
          sender_platform.channels sender_pair receiver_pair channel a.world b.world
    pub number : a.signaling.send_sequence < 2 ^ 32
    pub fresh :
        is_fresh (find same_point sender_id b.signaling.sequences) a.signaling.send_sequence ≡ true
    pub named : Named same_point b.peerings

  -- The description `d` of the sender's library is `d'` to the receiver's, and fits a message.
  pub record CanDescribe (d : sender_platform.rtc.Description)
      (d' : receiver_platform.rtc.Description) : Type 0 where
    pub type_text : IsText (sender_platform.rtc.type_string d)
    pub sdp_text : IsText (sender_platform.rtc.sdp d)
    pub understood :
        receiver_platform.rtc.describe
          (sender_platform.rtc.sdp d)
          (sender_platform.rtc.type_string d)
        ≡ ok d'
    pub fits :
        length (pack_strings (sender_platform.rtc.type_string d ∷ sender_platform.rtc.sdp d ∷ []))
          + 162
        < 2 ^ 16

  -- The bytes of a message for `b`, when they arrive.
  received :
      (rounds : ℕ) (bytes : List ℕ) (surplus : List ℕ) (channel channel' : Channel)
      (m : Message Point) (a : NodeState c sender_platform Sender)
      (b : NodeState c receiver_platform Receiver) (d : sender_platform.rtc.Description)
      (d' : receiver_platform.rtc.Description)
      → CanSignal channel a b
      → CanDescribe d d'
      → IsSealed c laws sender_platform.byte_order receiver_platform.byte_order
          sender_platform.channels sender_pair receiver_pair a.signaling b.world
          (pack_strings (sender_platform.rtc.type_string d ∷ sender_platform.rtc.sdp d ∷ []))
          bytes
          surplus
          m
      → Described c receiver_platform Receiver receiver_pair sender_id d' b
          (receive_data c receiver_platform Receiver receiver_pair rounds bytes channel' b).0
  received rounds bytes surplus channel channel' m a b d d' can v s =
      let fresh : is_fresh (find same_point sender_id b.signaling.sequences) m.sequence ≡ true =
        ap (λ (x : ℕ). is_fresh (find same_point sender_id b.signaling.sequences) x) s.numbered
        ∙ can.fresh in
      let (b', run, left) =
        notify_node-Described c receiver_platform Receiver receiver_pair rounds m (some channel') b
          sender_id (sender_platform.rtc.type_string d) (sender_platform.rtc.sdp d) surplus d'
          can.receiver_wired (s.typed ∙ can.sender_wired.signaling_typed) s.sourced s.addressed
          fresh s.opened v.type_text v.sdp_text v.understood can.named in
      let end : (receive_data c receiver_platform Receiver receiver_pair rounds bytes channel' b).0
          ≡ b' =
        receive_data-0 c receiver_platform Receiver receiver_pair rounds bytes channel' b (ok m)
          s.parsed
        ∙ ap (λ (x : Ran c receiver_platform Receiver receiver_pair). x.0)
            (route_parsed-local c receiver_platform Receiver receiver_pair rounds channel' m b
                sender_id s.sourced (inr s.addressed)
              ∙ run) in
      (
        ap (λ (k : NodeState c receiver_platform Receiver). k.calls) end ∙ left.0,
        ap (λ (k : NodeState c receiver_platform Receiver). k.program) end ∙ left.1,
      )

  -- What a message that was sent without an event leaves.
  signal_on :
      (rounds : ℕ) (t : Transport Point) (out : List (Channel × List ℕ))
      (a : NodeState c sender_platform Sender) (x : Transport Point × Result (Effects Point))
      → x ≡ (t, ok (record { sent = out; events = [] }))
      → signal_sent c sender_platform Sender sender_pair rounds x a
        ≡ (wrote c sender_platform Sender sender_pair out (record a { signaling = t }), returned tt)
  unfolding emit_each
  signal_on rounds t out a x h =
      ap
        (λ (y : Transport Point × Result (Effects Point)).
          signal_sent c sender_platform Sender sender_pair rounds y a)
        h

  -- A description that `a` sends to `b` is written to the channel between them, and when the bytes
  -- arrive there, the library of `b` is handed it as the remote description of the peering with `a`,
  -- unless it is an offer that `b` ignores, and the user's program has no part in it. Required are that
  -- `a` holds a state with the key of `b` and a route to it over the channel, which takes what it is
  -- given, that `b` accepts the next number of the signaling of `a` and keeps each peering under its
  -- identifier, that the transports of both have their types, that the description fits a message and
  -- is one to the library of `b`, and that the vector has 16 bytes.
  pub send_description-receive_data :
      (rounds rounds' seed : ℕ) (iv : List ℕ) (channel channel' : Channel)
      (a : NodeState c sender_platform Sender) (b : NodeState c receiver_platform Receiver)
      (d : sender_platform.rtc.Description) (d' : receiver_platform.rtc.Description)
      → CanSignal channel a b
      → CanDescribe d d'
      → length iv ≡ 16
      → (bytes : List ℕ) × (send_description c sender_platform Sender sender_pair rounds iv seed
            receiver_id d a
          ≡ (
            wrote c sender_platform Sender sender_pair
                ((channel, bytes) ∷ [])
                (record a { signaling = count_up a.signaling }),
            returned tt,
          ))
        × Described c receiver_platform Receiver receiver_pair sender_id d' b
            (receive_data c receiver_platform Receiver receiver_pair rounds' bytes channel' b).0
  unfolding send_description
  send_description-receive_data rounds rounds' seed iv channel channel' a b d d' can v hiv =
      let payload =
        pack_strings (sender_platform.rtc.type_string d ∷ sender_platform.rtc.sdp d ∷ []) in
      let (bytes, surplus, m, run, s) =
        send_to-IsSealed c laws sender_platform.byte_order receiver_platform.byte_order
          sender_platform.channels sender_pair receiver_pair seed iv payload channel a.signaling
          a.world b.world can.linked (omega (arith, can.sender_wired.signaling_typed)) can.number
          hiv v.fits in
      (
        bytes,
        signal_on rounds (count_up a.signaling) ((channel, bytes) ∷ []) a
            (send_to c sender_platform.byte_order sender_pair sender_platform.channels sender_id
              a.world.routing a.world.ecdh seed iv a.signaling
              (get_state same_point a.world.vertices receiver_id) receiver_id payload)
            run,
        received rounds' bytes surplus channel channel' m a b d d' can v s,
      )
