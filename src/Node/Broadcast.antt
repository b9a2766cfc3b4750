-- ===== src/Node/Broadcast.antt =====
-- A broadcast of a user: what `broadcast` writes on one node, and what another node makes of it.
use legio.Prelude.{ℕ, ◌≡◌, ◌&&◌, ◌++◌, ◌==◌, List, if◌then◌else◌, replicate, []}
use legio.Crypto.{CryptoPp, CryptoLaws}
use legio.Message.{Message}
use legio.Transport.{Transport, Delivered}
use legio.Routing.{Channel, Channels, Routing}
use legio.Routing.Forwarding.{written_to, copies}
use legio.Node.{receive_user}
use legio.Node.Dispatch.{Platform, NodeState, receive_data}

module _ (c : CryptoPp) (laws : CryptoLaws c) (sender_platform : Platform c) (Sender : Type 0)
    (sender_pair : c.PrivateKey) (receiver_platform : Platform c) (Receiver : Type 0)
    (receiver_pair : c.PrivateKey) where
  open c use {Point, same_point, make_public_key}

  abbrev sender_id : Point
  sender_id = make_public_key sender_pair

  -- The times that bytes are written to a channel that is registered in `r`: not at all if it is
  -- closed or does not take them.
  abbrev pub written_times : Channels → Routing Point → Channel → List ℕ → ℕ
  written_times net r channel bytes =
      if net.is_open channel && net.accepts channel bytes then copies channel r.channels else 0

  -- What the broadcast of `bytes` by `a` does on the channel `channel`, and at `b` when they arrive
  -- there over `channel'`: `out` is written by `a`, and `passed` by `b`.
  pub record IsBroadcast (rounds : ℕ) (payload : List ℕ) (channel channel' : Channel)
      (a a' : NodeState c sender_platform Sender) (b : NodeState c receiver_platform Receiver)
      (bytes : List ℕ) (out passed : List (Channel × List ℕ)) : Type 0 where
    pub written : a'.world.sent ≡ a.world.sent ++ out
    pub each_channel :
        written_to channel out
        ≡ replicate (written_times sender_platform.channels a.world.routing channel bytes) bytes
    pub handed :
        (receive_data c receiver_platform Receiver receiver_pair rounds bytes channel' b).0.program
        ≡ receive_user b.message_callback sender_id payload b.program
    pub relayed :
        (receive_data c receiver_platform Receiver receiver_pair rounds bytes channel'
          b).0.world.sent
        ≡ b.world.sent ++ passed
    pub each_other : written_to channel passed ≡ (
        if channel == channel'
        then []
        else replicate
            (written_times receiver_platform.channels b.world.routing channel bytes)
            bytes)
