-- ===== src/Node/Connecting.antt =====
-- `connect` of src/impl/node.cpp on the state of the whole node, and the calls of src/node.cpp that
-- read it.
use legio.Prelude.{
  ℕ, Bool, List, Option, Result, ok, err, ◌||◌, if◌then◌else◌, invalid_base64_character,
}
use legio.Binary.Base64.{Decoded, done, invalid_character, overflow, from_base64_impl}
use legio.Crypto.{CryptoPp, ecdsa_public, public_key}
use legio.Routing.{Channel}
use legio.Networking.{connect_peer}
use legio.Graph.World.{returned, thrown, undefined, Outcome}
use legio.Node.{match_prefix, ws_prefix, wss_prefix, node_is_connected}
use legio.Node.Dispatch.{Platform, NodeState, Run, id}
use legio.Node.Life.{in_networking}

module _ (c : CryptoPp) (p : Platform c) (Program : Type 0) (pair : c.PrivateKey) where
  open c use {Point, same_point}

  -- `binary Node::id() const`
  unfoldable pub node_id : List ℕ
  node_id = public_key c (id c p Program pair)

  -- `bool Node::isConnected() const`; `none` is the use of a null table.
  unfoldable pub is_connected_node : NodeState c p Program → Option Bool
  unfolding node_is_connected
  is_connected_node n = node_is_connected same_point n.world.routing

  -- `networking->connectPeer(…)` of what the bytes are the identifier of
  abbrev pub connect_identified : (ℕ → Channel) → Result Point → Run c p Program pair
  connect_identified fresh (err x) n = (n, thrown x)
  connect_identified fresh (ok remote_id) n =
      (in_networking c p Program pair (connect_peer same_point fresh remote_id) n, returned tt)

  abbrev pub connect_decoded : (ℕ → Channel) → Decoded (List ℕ) → Run c p Program pair
  connect_decoded fresh Decoded.unfinished n = (n, Outcome.unfinished)
  connect_decoded fresh overflow n = (n, undefined)
  connect_decoded fresh invalid_character n = (n, thrown invalid_base64_character)
  connect_decoded fresh (done bin) n = connect_identified fresh (ecdsa_public c bin) n

  -- `void Node::connect(string url)`; a WebSocket changes the state when it opens.
  unfoldable pub connect_node : (ℕ → Channel) → ℕ → List ℕ → Run c p Program pair
  unfolding match_prefix
  connect_node fresh rounds url n =
      let decoded = connect_decoded fresh (from_base64_impl rounds url) n in
      if match_prefix url ws_prefix || match_prefix url wss_prefix
      then (n, returned tt)
      else decoded
