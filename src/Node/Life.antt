-- ===== src/Node/Life.antt =====
-- The constructor of the node, its `update`, and the callbacks of the WebRTC library, of
-- src/impl/node.cpp, networking.cpp and peering.cpp, on the state of the whole node.
use legio.Prelude.{ℕ, Bool, List, [], ◌∷◌, Option, none, some, Result, ok, err, ◌>>=◌, find}
use legio.Crypto.{CryptoPp}
use legio.Message.{user_type, signaling_type}
use legio.Routing.{Channel, init}
use legio.Peering.{opened}
use legio.Networking.{Networking, update, link_of, keep_link}
use legio.Transport.{Transport}
use legio.Server.{Services, Configuration, Server, construct}
use legio.Graph.World.{World, Outcome, returned, thrown, undefined, unfinished}
use legio.Graph.Updates.{start_graph, broadcast_hello}
use legio.Node.Dispatch.{
  Platform, NodeState, Run, followed_by, networking_of, keep_networking, emit_each,
}

-- `Transport(Node *node, Message::Type type, …)`; the counter starts at whatever `number` is there.
unfoldable pub new_transport : {Identifier : Type 0} → ℕ → ℕ → Transport Identifier
new_transport type number = record { type = type; send_sequence = number; sequences = [] }

-- `config.port ? std::make_shared<Server>(config, this) : nullptr`
unfoldable pub construct_server : Services → Configuration → Result (Option Server)
construct_server lib config = elim config.port [
  | none ↦ ok none
  | some port ↦ construct lib config >>= λ s. ok (some s)
]

module _ (c : CryptoPp) (p : Platform c) (Program : Type 0) (pair : c.PrivateKey) where
  open c use {Point, same_point, EcdhKey}

  abbrev Node : Type 0
  Node = NodeState c p Program

  abbrev Constructed : Type 0
  Constructed = Outcome (Node × Option Server)

  -- The members after the server.
  unfoldable pub first_node : ℕ → ℕ → Program → World c → Node
  unfolding new_transport
  first_node signaling_number user_number program w = record {
    world = w;
    peerings = [];
    calls = [];
    created = 0;
    signaling = new_transport signaling_type signaling_number;
    user = new_transport user_type user_number;
    message_callback = none;
    program = program;
  }

  abbrev pub with_server : Node → Result (Option Server) → Constructed
  with_server n (err x) = thrown x
  with_server n (ok server) = returned (n, server)

  abbrev pub after_graph :
      Result (Option Server) → (World c → Node) → World c × Outcome Bool → Constructed
  after_graph server make (w, returned fresh) = with_server (make w) server
  after_graph server make (w, thrown x) = thrown x
  after_graph server make (w, undefined) = undefined
  after_graph server make (w, unfinished) = unfinished

  -- `Node(Configuration _config)`, for a node with the ECDH pair `ecdh`
  unfoldable pub construct_node :
      Services → Configuration → ℕ → EcdhKey → ℕ → ℕ → Program → Constructed
  unfolding first_node construct_server
  construct_node lib config rounds ecdh signaling_number user_number program =
      after_graph (construct_server lib config) (first_node signaling_number user_number program)
        (start_graph c p.byte_order pair p.channels p.entropy p.address_lt rounds ecdh init)

  -- `Graph::update`
  unfoldable pub update_graph : Run c p Program pair
  update_graph n =
      let (w, outcome) =
        broadcast_hello c p.byte_order pair p.channels p.entropy p.address_lt n.world in
      (record n { world = w }, outcome)

  -- `Networking::update`
  unfoldable pub update_networking :
      (ℕ → Channel) → (List Point → List Point) → Run c p Program pair
  update_networking fresh shuffle n =
      elim (update same_point fresh shuffle (networking_of c p Program pair n)) [
        | none ↦ (n, undefined)
        | some g ↦ (keep_networking c p Program pair g n, returned tt)
      ]

  -- `void Node::update()`, where `run` is `scheduler->run()`; the other components' `update` is empty.
  unfoldable pub update_node :
      Run c p Program pair → (ℕ → Channel) → (List Point → List Point) → Run c p Program pair
  unfolding update_graph update_networking
  update_node run fresh shuffle n =
      followed_by c p Program pair run
        (followed_by c p Program pair (update_networking fresh shuffle) (update_graph n))

  -- The callback of `onOpen` of the data channel to `remote_id`.
  unfoldable pub data_channel_opened : ℕ → Point → Run c p Program pair
  unfolding emit_each
  data_channel_opened rounds remote_id n =
      let g = networking_of c p Program pair n in
      elim (find same_point remote_id n.peerings) [
        | none ↦ (n, returned tt)
        | some peering ↦ elim (opened same_point (link_of same_point g peering)) [
          | none ↦ (n, undefined)
          | some (l, event) ↦
              let k = keep_networking c p Program pair (keep_link same_point remote_id g l) n in
              elim event [
                | none ↦ (k, returned tt)
                | some event ↦ emit_each c p Program pair rounds (event ∷ []) k
              ]
        ]
      ]

  -- A call or callback that concerns `Networking` and the routing alone.
  abbrev pub in_networking :
      (Networking Point p.rtc.Description → Networking Point p.rtc.Description) → Node → Node
  in_networking call n =
      keep_networking c p Program pair (call (networking_of c p Program pair n)) n
