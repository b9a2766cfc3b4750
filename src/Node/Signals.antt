-- ===== src/Node/Signals.antt =====
-- What the peerings of the whole node send to other nodes: `Peering::sendLocalDescription` of
-- src/impl/peering.cpp over the transport of `Networking`, and the callbacks that call it.
use legio.Prelude.{ℕ, Bool, List, [], ◌∷◌, Option, none, some, Result, if◌then◌else◌}
use legio.Binary.Strings.{pack_strings}
use legio.Crypto.{CryptoPp}
use legio.Routing.{Effects}
use legio.Transport.{Transport, send_to}
use legio.Graph.Edges.{get_state}
use legio.Graph.World.{returned}
use legio.Node.Dispatch.{Platform, Run, routed, emit_each}

module _ (c : CryptoPp) (p : Platform c) (Program : Type 0) (pair : c.PrivateKey) where
  open c use {Point, same_point, make_public_key}

  -- What `send_to` made of the transport, and of the message.
  abbrev pub signal_sent : ℕ → Transport Point × Result (Effects Point) → Run c p Program pair
  signal_sent rounds (t, result) n =
      routed c p Program pair rounds result (record n { signaling = t })

  -- `mTransport->send(mRemoteId, payload)`, with the drawn `iv` and `seed`
  unfoldable pub send_signal : ℕ → List ℕ → ℕ → Point → List ℕ → Run c p Program pair
  unfolding emit_each
  send_signal rounds iv seed remote_id payload n =
      signal_sent rounds
        (send_to c p.byte_order pair p.channels (make_public_key pair) n.world.routing n.world.ecdh
          seed iv n.signaling (get_state same_point n.world.vertices remote_id) remote_id payload)
        n

  -- `void sendLocalDescription(rtc::Description description)`
  unfoldable pub send_description :
      ℕ → List ℕ → ℕ → Point → p.rtc.Description → Run c p Program pair
  unfolding send_signal
  send_description rounds iv seed remote_id d n =
      send_signal rounds iv seed remote_id (pack_strings (p.rtc.type_string d ∷ p.rtc.sdp d ∷ [])) n

  -- The callbacks of `onLocalDescription` and of `onGatheringStateChange` of the peering with
  -- `remote_id`, where `complete` says whether the state is `GatheringState::Complete`
  unfoldable pub description_made :
      Bool → ℕ → List ℕ → ℕ → Point → p.rtc.Description → Run c p Program pair
  unfolding send_description
  description_made complete rounds iv seed remote_id d n =
      let sent = send_description rounds iv seed remote_id d n in
      if complete then sent else (n, returned tt)

  unfoldable pub gathering_changed :
      Bool → ℕ → List ℕ → ℕ → Point → Option p.rtc.Description → Run c p Program pair
  unfolding description_made
  gathering_changed complete rounds iv seed remote_id none n = (n, returned tt)
  gathering_changed complete rounds iv seed remote_id (some d) n =
      description_made complete rounds iv seed remote_id d n
