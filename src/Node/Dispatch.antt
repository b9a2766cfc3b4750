-- ===== src/Node/Dispatch.antt =====
-- The whole node of src/impl/node.hpp and node.cpp: the components' states side by side, the events
-- that `Node::notify` hands to them in the order in which they were constructed, and the calls of
-- src/node.cpp. `Routing`, `Server` and `Networking` ignore events.
use legio.Prelude.{ℕ, Bool, List, [], ◌∷◌, ◌++◌, Option, none, some, Result, ok, err}
use legio.ByteOrder.{Endian}
use legio.Crypto.{CryptoPp, ecdsa_public, identifier_gt}
use legio.Message.{Message, parse, to_binary}
use legio.Routing.{Channel, Channels, Event, message, neighbor, Effects, route}
use legio.Peering.{WebRtc, Peering, Call}
use legio.Networking.{Networking, receive_signaling}
use legio.Transport.{Transport, Delivered, notify, notify_any, send_to, broadcast_all}
use legio.Graph.Edges.{get_state}
use legio.Graph.World.{World, Outcome, returned, thrown, undefined, unfinished}
use legio.Node.{receive_user}
use legio.Node.Receive.{notify_graph}

-- What the node runs on: the machine, the channels and descriptions of the WebRTC library with the
-- signaling states of its connections, and what the random pool yields.
pub record Platform (c : CryptoPp) : Type 1 where
  pub byte_order : Endian
  pub channels : Channels
  pub rtc : WebRtc
  pub have_local_offer : c.Point → Bool
  pub entropy : ℕ → ℕ
  pub address_lt : c.Point → c.Point → Bool

-- The members of `struct Node` and of its components. `world` has those of the graph and the routing;
-- the user's callback acts on a state `Program`.
pub record NodeState (c : CryptoPp) (p : Platform c) (Program : Type 0) : Type 0 where
  pub world : World c
  pub peerings : List (c.Point × Peering c.Point)
  pub calls : List (Call c.Point p.rtc.Description)
  pub created : ℕ
  pub signaling : Transport c.Point
  pub user : Transport c.Point
  pub message_callback : Option (c.Point → List ℕ → Program → Program)
  pub program : Program

module _ (c : CryptoPp) (p : Platform c) (Program : Type 0) (pair : c.PrivateKey) where
  open c use {Point, same_point, make_public_key}

  -- `id()`
  abbrev pub id : Point
  id = make_public_key pair

  abbrev pub Ran : Type 0
  Ran = NodeState c p Program × Outcome (Unit {0})

  abbrev pub Run : Type 0
  Run = NodeState c p Program → Ran

  -- The next statement runs unless the one before it threw.
  abbrev pub followed_by : Run → Ran → Ran
  followed_by next (n, returned done) = next n
  followed_by next (n, thrown x) = (n, thrown x)
  followed_by next (n, undefined) = (n, undefined)
  followed_by next (n, unfinished) = (n, unfinished)

  -- What was written to channels.
  abbrev pub wrote : List (Channel × List ℕ) → NodeState c p Program → NodeState c p Program
  wrote out n = record n { world = record n.world { sent = n.world.sent ++ out } }

  -- `Graph::notify`
  unfoldable pub notify_graph_of : ℕ → Event Point → Run
  notify_graph_of rounds event n =
      let (w, outcome) =
        notify_graph c p.byte_order pair p.channels p.entropy p.address_lt rounds event n.world in
      (record n { world = w }, outcome)

  abbrev pub outcome_of : Result (Unit {0}) → Outcome (Unit {0})
  outcome_of (ok done) = returned tt
  outcome_of (err x) = thrown x

  -- The members of `Networking`, with the routing that its peerings share.
  abbrev pub networking_of : NodeState c p Program → Networking Point p.rtc.Description
  networking_of n = record {
    peerings = n.peerings;
    routing = n.world.routing;
    calls = n.calls;
    created = n.created;
  }

  abbrev pub keep_networking :
      Networking Point p.rtc.Description → NodeState c p Program → NodeState c p Program
  keep_networking g n = record n {
    world = record n.world { routing = g.routing };
    peerings = g.peerings;
    calls = g.calls;
    created = g.created;
  }

  -- `Networking::receive`
  unfoldable pub networking_receive : Point → List ℕ → Run
  networking_receive remote_id payload n =
      let (g, result) =
        receive_signaling p.rtc same_point (identifier_gt c) id p.have_local_offer remote_id payload
          (networking_of n) in
      (keep_networking g n, outcome_of result)

  -- `mReceiveCallback` of the transport of `Networking`, after `Transport::notify`.
  abbrev pub signaled : Transport Point × Result (Delivered c p.byte_order) → Run
  signaled (t, err x) n = (record n { signaling = t }, thrown x)
  signaled (t, ok none) n = (record n { signaling = t }, returned tt)
  signaled (t, ok (some (source, payload))) n =
      networking_receive source payload (record n { signaling = t })

  unfoldable pub notify_signaling : Event Point → Run
  unfolding networking_receive
  notify_signaling (message m from) n =
      signaled (notify c p.byte_order n.world.ecdh n.signaling m) n
  notify_signaling (neighbor remote_id channel) n = (n, returned tt)

  -- `mReceiveCallback` of `userTransport`, which is `Node::receive`
  abbrev pub delivered : Result (Delivered c p.byte_order) → Run
  delivered (err x) n = (n, thrown x)
  delivered (ok none) n = (n, returned tt)
  delivered (ok (some (source, payload))) n =
      (record n { program = receive_user n.message_callback source payload n.program }, returned tt)

  unfoldable pub notify_user : Event Point → Run
  notify_user (message m from) n =
      let (t, got) =
        notify_any c p.byte_order pair p.channels id n.world.routing n.world.ecdh n.user m from in
      delivered got.0 (wrote got.1 (record n { user = t }))
  notify_user (neighbor remote_id channel) n = (n, returned tt)

  -- `void Node::notify(const events::variant &event)`
  unfoldable pub notify_node : ℕ → Event Point → Run
  unfolding notify_graph_of notify_signaling notify_user
  notify_node rounds event n =
      followed_by (notify_user event)
        (followed_by (notify_signaling event) (notify_graph_of rounds event n))

  -- The events that a call of `Routing` emits.
  unfoldable pub emit_each : ℕ → List (Event Point) → Run
  unfolding notify_node
  emit_each rounds [] n = (n, returned tt)
  emit_each rounds (event ∷ events) n =
      followed_by (emit_each rounds events) (notify_node rounds event n)

  -- What a call of `Routing` does.
  abbrev pub routed : ℕ → Result (Effects Point) → Run
  routed rounds (err x) n = (n, thrown x)
  routed rounds (ok effects) n = emit_each rounds effects.events (wrote effects.sent n)

  -- The `catch` of the callback of a channel.
  abbrev pub catch_all : Ran → Ran
  catch_all (n, returned done) = (n, returned tt)
  catch_all (n, thrown x) = (n, returned tt)
  catch_all (n, undefined) = (n, undefined)
  catch_all (n, unfinished) = (n, unfinished)

  abbrev pub route_parsed : ℕ → Channel → Result (Message Point) → Run
  route_parsed rounds channel (err x) n = (n, thrown x)
  route_parsed rounds channel (ok m) n =
      routed rounds
        (route same_point (to_binary c p.byte_order) p.channels id n.world.routing m (some channel))
        n

  -- The callback of `channel->onMessage` of `Routing::addChannel`
  unfoldable pub receive_data : ℕ → List ℕ → Channel → Run
  unfolding emit_each
  receive_data rounds bytes channel n =
      catch_all (route_parsed rounds channel (parse c p.byte_order bytes) n)

  -- What `send_to` made of the transport, and of the message.
  abbrev pub sent_from : ℕ → Transport Point × Result (Effects Point) → Run
  sent_from rounds (t, result) n = routed rounds result (record n { user = t })

  -- `userTransport->send(id, message)` of `Node::send`, with the drawn `iv` and `seed`.
  unfoldable pub send_user : ℕ → List ℕ → ℕ → Point → List ℕ → Run
  unfolding emit_each
  send_user rounds iv seed remote_id payload n =
      sent_from rounds
        (send_to c p.byte_order pair p.channels id n.world.routing n.world.ecdh seed iv n.user
          (get_state same_point n.world.vertices remote_id) remote_id payload)
        n

  -- `void Node::send(binary id, binary message)`
  unfoldable pub node_send : ℕ → List ℕ → ℕ → List ℕ → List ℕ → Run
  unfolding send_user
  node_send rounds iv seed remote payload n = elim (ecdsa_public c remote) [
    | err x ↦ (n, thrown x)
    | ok remote_id ↦ send_user rounds iv seed remote_id payload n
  ]

  abbrev pub broadcasted : Transport Point × Result (List (Channel × List ℕ)) → Run
  broadcasted (t, err x) n = (record n { user = t }, thrown x)
  broadcasted (t, ok out) n = (wrote out (record n { user = t }), returned tt)

  -- `void Node::broadcast(binary message)`
  unfoldable pub node_broadcast : ℕ → List ℕ → Run
  node_broadcast seed payload n =
      broadcasted
        (broadcast_all c p.byte_order pair p.channels id n.world.routing seed n.user payload) n

  -- `void Node::onMessage(std::function<void(binary id, binary message)> callback)`
  unfoldable pub on_message :
      Option (Point → List ℕ → Program → Program) → NodeState c p Program → NodeState c p Program
  on_message callback n = record n { message_callback = callback }
