-- ===== src/Node/Reached.antt =====
-- Every state that the node reaches from its constructor.
use legio.Prelude.{ℕ, suc, ◌≡◌, ◌≢◌, Option, some, List, ok, arith}
use legio.Crypto.{CryptoPp, CryptoLaws}
use legio.Message.{Message, parse}
use legio.State.Codec.{IsStrictOrder}
use legio.Routing.{Channel, add_channel}
use legio.Peering.{closed, offered}
use legio.Networking.{connect_peer, at_peering, web_socket_opened, web_socket_closed}
use legio.Server.{Services, Configuration, Server}
use legio.Graph.World.{World, returned}
use legio.Graph.Updates.Total.{own}
use legio.Node.Room.{HasRoom}
use legio.Node.Dispatch.{
  Platform, NodeState, networking_of, receive_data, send_user, node_broadcast, on_message,
}
use legio.Node.Life.{
  construct_node, update_graph, update_networking, data_channel_opened, in_networking,
}
use legio.Node.Kept.{
  remove_channel-fewer, closed-fewer, offered-fewer, at_peering-fewer, connect_peer-fewer,
}
use legio.Node.Signals.{send_description}
use legio.Node.Steps.{
  send_description-IsRunning, IsRunning, networking-IsRunning, update_graph-IsRunning,
  node_broadcast-IsRunning, update_networking-IsRunning, receive_data-IsRunning,
  send_user-IsRunning, data_channel_opened-IsWired,
}
use legio.Node.Constructed.{constructed_node}
use legio.Node.Opened.{data_channel_opened-Ready}

module _ (c : CryptoPp) (laws : CryptoLaws c) (order : IsStrictOrder c.point_lt) (p : Platform c)
    (Program : Type 0) (pair : c.PrivateKey) where
  open c use {Point, same_point, EcdhKey}

  abbrev Node : Type 0
  Node = NodeState c p Program

  abbrev Room : World c → Type 0
  Room w = HasRoom c laws order p.byte_order pair p.channels p.entropy p.address_lt w

  -- One call or callback.
  pub data Step (n : Node) : Node → Type 0 where
    data_arrives :
        (rounds : ℕ) (bytes : List ℕ) (channel : Channel)
        → Step n (receive_data c p Program pair (suc rounds) bytes channel n).0
    sends :
        (rounds : ℕ) (iv : List ℕ) (seed : ℕ) (id : Point) (payload : List ℕ)
        → Step n (send_user c p Program pair rounds iv seed id payload n).0
    describes :
        (rounds : ℕ) (iv : List ℕ) (seed : ℕ) (id : Point) (d : p.rtc.Description)
        → Step n (send_description c p Program pair rounds iv seed id d n).0
    broadcasts :
        (seed : ℕ) (payload : List ℕ) → Step n (node_broadcast c p Program pair seed payload n).0
    sets_callback :
        (callback : Option (Point → List ℕ → Program → Program))
        → Step n (on_message c p Program pair callback n)
    updates_graph : Step n (update_graph c p Program pair n).0
    updates_networking :
        (fresh : ℕ → Channel) (shuffle : List Point → List Point)
        → Step n (update_networking c p Program pair fresh shuffle n).0
    connects :
        (fresh : ℕ → Channel) (id : Point)
        → Step n (in_networking c p Program pair (connect_peer same_point fresh id) n)
    opens_socket :
        (channel : Channel)
        → Step n (in_networking c p Program pair (web_socket_opened same_point channel) n)
    closes_socket :
        (channel : Channel)
        → Step n (in_networking c p Program pair (web_socket_closed same_point channel) n)
    offers_channel :
        (id : Point) (channel : Channel) (label : List ℕ)
        → Step n
            (in_networking c p Program pair (at_peering same_point (offered channel label) id) n)
    closes_channel :
        (id : Point) → Step n (in_networking c p Program pair (at_peering same_point closed id) n)
    opens_channel :
        (rounds : ℕ) (id : Point)
        → Step n (data_channel_opened c p Program pair (suc rounds) id n).0

  -- What a step needs: bytes that arrive, which may be a neighbour's first Hello, and a data channel
  -- that opens need room for a neighbour in the next announcement, and a message that arrives does
  -- not name this node as its source. Nothing is asked of the other steps.
  abbrev pub IsAllowed : {n k : Node} → Step n k → Type 0
  IsAllowed {n} (data_arrives rounds bytes channel) =
      Room n.world
      × ((m : Message Point)
          → parse c p.byte_order bytes ≡ ok m
          → m.source ≢ some (own c laws order p.byte_order pair p.channels p.entropy p.address_lt))
  IsAllowed {n} (sends rounds iv seed id payload) = Unit {0}
  IsAllowed {n} (describes rounds iv seed id d) = Unit {0}
  IsAllowed {n} (broadcasts seed payload) = Unit {0}
  IsAllowed {n} (sets_callback callback) = Unit {0}
  IsAllowed {n} updates_graph = Unit {0}
  IsAllowed {n} (updates_networking fresh shuffle) = Unit {0}
  IsAllowed {n} (connects fresh id) = Unit {0}
  IsAllowed {n} (opens_socket channel) = Unit {0}
  IsAllowed {n} (closes_socket channel) = Unit {0}
  IsAllowed {n} (offers_channel id channel label) = Unit {0}
  IsAllowed {n} (closes_channel id) = Unit {0}
  IsAllowed {n} (opens_channel rounds id) = Room n.world

  pub data Reached (n : Node) : Node → Type 0 where
    here : Reached n n
    next : {k l : Node} → Reached n k → Step k l → Reached n l

  abbrev pub AllAllowed : {n k : Node} → Reached n k → Type 0
  AllAllowed here = Unit {0}
  AllAllowed (next reached step) = AllAllowed reached × IsAllowed step

  abbrev Running : Node → Type 0
  Running n = IsRunning c laws order p Program pair n

  Step-IsRunning : {n k : Node} → (step : Step n k) → IsAllowed step → Running n → Running k
  unfolding on_message web_socket_opened web_socket_closed add_channel
  Step-IsRunning {n} (data_arrives rounds bytes channel) (room, foreign) r =
      receive_data-IsRunning c laws order p Program pair rounds bytes channel n room foreign r
  Step-IsRunning {n} (sends rounds iv seed id payload) allowed r =
      send_user-IsRunning c laws order p Program pair rounds iv seed id payload n r
  Step-IsRunning {n} (describes rounds iv seed id d) allowed r =
      send_description-IsRunning c laws order p Program pair rounds iv seed id d n r
  Step-IsRunning {n} (broadcasts seed payload) allowed r =
      node_broadcast-IsRunning c laws order p Program pair seed payload n r
  Step-IsRunning {n} (sets_callback callback) allowed r = record {
    wired = record { signaling_typed = r.wired.signaling_typed; user_typed = r.wired.user_typed };
    ready = r.ready;
  }
  Step-IsRunning {n} updates_graph allowed r =
      update_graph-IsRunning c laws order p Program pair n r
  Step-IsRunning {n} (updates_networking fresh shuffle) allowed r =
      update_networking-IsRunning c laws order p Program pair fresh shuffle n r
  Step-IsRunning {n} (connects fresh id) allowed r =
      networking-IsRunning c laws order p Program pair
        (connect_peer same_point fresh id (networking_of c p Program pair n)) n
        (omega (arith, connect_peer-fewer same_point fresh id (networking_of c p Program pair n))) r
  Step-IsRunning {n} (opens_socket channel) allowed r =
      networking-IsRunning c laws order p Program pair
        (web_socket_opened same_point channel (networking_of c p Program pair n)) n (omega arith) r
  Step-IsRunning {n} (closes_socket channel) allowed r =
      networking-IsRunning c laws order p Program pair
        (web_socket_closed same_point channel (networking_of c p Program pair n)) n
        (omega (arith, remove_channel-fewer n.world.routing channel)) r
  Step-IsRunning {n} (offers_channel id channel label) allowed r =
      networking-IsRunning c laws order p Program pair
        (at_peering same_point (offered channel label) id (networking_of c p Program pair n)) n
        (omega (
          arith,
          at_peering-fewer same_point (offered channel label) (offered-fewer channel label) id
              (networking_of c p Program pair n),
        ))
        r
  Step-IsRunning {n} (closes_channel id) allowed r =
      networking-IsRunning c laws order p Program pair
        (at_peering same_point closed id (networking_of c p Program pair n)) n
        (omega (
          arith,
          at_peering-fewer same_point closed closed-fewer id (networking_of c p Program pair n),
        ))
        r
  Step-IsRunning {n} (opens_channel rounds id) room r = record {
    wired = data_channel_opened-IsWired c laws order p Program pair (suc rounds) id n r.wired;
    ready = data_channel_opened-Ready c laws order p Program pair rounds id n r.ready room;
  }

  Reached-IsRunning :
      {n k : Node} (reached : Reached n k) → AllAllowed reached → Running n → Running k
  Reached-IsRunning here allowed r = r
  Reached-IsRunning (next reached step) (before, allowed) r =
      Step-IsRunning step allowed (Reached-IsRunning reached before r)

  -- In every state that a node reaches from the one that its constructor returned, in whatever
  -- order its calls and the callbacks of the library come, its transports have their types, its
  -- own state is known to the graph with its own key and a number behind the counter, and its
  -- next announcement, with each neighbour that the routing has, fits a message. Bytes arrive and
  -- data channels open only while there is room for one more neighbour in the next announcement,
  -- and no message that arrives names the node itself as its source; the other steps come at any
  -- time.
  pub constructed-IsRunning :
      (lib : Services) (config : Configuration) (rounds : ℕ) (ecdh : EcdhKey)
      (signaling_number user_number : ℕ) (program : Program) (n k : Node) (server : Option Server)
      → construct_node c p Program pair lib config
          (suc rounds)
          ecdh
          signaling_number
          user_number
          program
        ≡ returned (n, server)
      → (reached : Reached n k) → AllAllowed reached
      → IsRunning c laws order p Program pair k
  constructed-IsRunning lib config rounds ecdh signaling_number user_number program n k server h
        reached allowed =
      Reached-IsRunning reached allowed (
        constructed_node c laws order p Program pair lib config rounds ecdh signaling_number
          user_number program n server h)
