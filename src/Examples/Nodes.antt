-- ===== src/Examples/Nodes.antt =====
-- Concrete runs of the theorems on the whole node: node 1, whose program keeps what it is handed, has
-- node 2 as a neighbour on channel 20; node 2 has node 1 as one on channel 40.
use legio.Prelude.{
  ℕ, ◌≡◌, refl, true, List, [], ◌∷◌, none, some, arith, replicate, ltb, ap, Bool, ◌+◌, ◌*◌, ◌^◌,
  ◌<◌, length, ℕ_discrete, ◌∙◌,
}
use legio.ByteOrder.{little}
use legio.Crypto.Sample.{toy, toy-CryptoLaws}
use legio.Message.Codec.{wire}
use legio.Message.{Message, signaling_type, user_type}
use legio.Graph.{new_vertice}
use legio.Graph.World.{World, returned, Outcome}
use legio.Node.Accepted.{Received}
use legio.Node.Dispatch.{Platform, NodeState, receive_data, send_user, node_broadcast, on_message}
use legio.Node.Life.{
  first_node, construct_node, construct_server, after_graph, update_graph, in_networking,
}
use legio.Node.Handled.{IsWired}
use legio.Node.Authentic.{Handed, receive_data-Handed}
use legio.Node.Again.{receive_data-again}
use legio.Node.Whole.{receive_data-Received}
use legio.Examples.Updates.{
  all_open, no_entropy, home, home-Ready, hello, hello_foreign, ltb-IsStrictOrder, linked, news,
}
use legio.Routing.{init, add_channel}
use legio.Networking.{web_socket_opened, web_socket_closed}
use legio.Graph.Updates.{start_graph}
use legio.Server.{Configuration}
use legio.Graph.Updates.Started.{start_graph-IsReady}
use legio.Node.Steps.{IsRunning}
use legio.Node.Reached.{
  Reached, here, next, sets_callback, updates_graph, sends, broadcasts, opens_socket, closes_socket,
  data_arrives, constructed-IsRunning,
}
use legio.Examples.Connections.{offers_only, willing, default_configuration}

abbrev pub platform : Platform toy
platform = record {
  byte_order = little;
  channels = all_open;
  rtc = offers_only;
  have_local_offer = λ id. true;
  entropy = no_entropy;
  address_lt = ltb;
}

-- What was handed over, the last message first.
abbrev pub Inbox : Type 0
Inbox = List (ℕ × List ℕ)

abbrev keep : ℕ → List ℕ → Inbox → Inbox
keep id payload inbox = (id, payload) ∷ inbox

abbrev pub Node : Type 0
Node = NodeState toy platform Inbox

abbrev node_of : World toy → Node
node_of w = record {
  world = w;
  peerings = [];
  calls = [];
  created = 0;
  signaling = record { type = signaling_type; send_sequence = 0; sequences = [] };
  user = record { type = user_type; send_sequence = 3; sequences = [] };
  message_callback = some keep;
  program = [];
}

-- Node 1 knows the state of node 2.
abbrev pub one : Node
one = node_of (record home {
  vertices = (2, record new_vertice { state = some news }) ∷ home.vertices;
  routing = record linked { table = some (record { next_hops = (2, 2) ∷ [] }) };
})

-- Node 2, whose ECDH pair is 6.
abbrev pub two : Node
two = node_of (record home {
  vertices = [];
  ecdh = 6;
  routing = record linked { channels = 40 ∷ []; neighbors = (1, 40) ∷ []; receiving = 40 ∷ [] };
})

pub one-IsWired : IsWired toy platform Inbox 1 one
one-IsWired = record { signaling_typed = refl; user_typed = refl }

pub two-IsWired : IsWired toy platform Inbox 2 two
two-IsWired = record { signaling_typed = refl; user_typed = refl }

abbrev note : Message ℕ
note = record hello { type = user_type; body = 8 ∷ [] }

receive_data-Handed_example :
    Handed toy toy-CryptoLaws platform Inbox 1
      (wire toy note)
      one
      (receive_data toy platform Inbox 1 1 (wire toy note) 30 one).0
receive_data-Handed_example =
    receive_data-Handed toy toy-CryptoLaws platform Inbox 1 1 (wire toy note) 30 one one-IsWired

receive_data-again_example :
    (receive_data toy platform Inbox 1 1
      (wire toy note)
      20
      (receive_data toy platform Inbox 1 1 (wire toy note) 30 one).0).0.program
    ≡ (receive_data toy platform Inbox 1 1 (wire toy note) 30 one).0.program
receive_data-again_example =
    receive_data-again toy platform Inbox 1 1 1 (wire toy note) 30 20 one one-IsWired

receive_data-Received_example :
    (n' : Node) × (receive_data toy platform Inbox 1 1 (wire toy hello) 30 (node_of home)
      ≡ (n', returned tt))
    × Received toy toy-CryptoLaws ltb-IsStrictOrder little 1 all_open no_entropy ltb
        (wire toy hello)
        home
        n'.world
        7
receive_data-Received_example =
    receive_data-Received toy toy-CryptoLaws ltb-IsStrictOrder platform Inbox 1 0 (wire toy hello)
      30 (node_of home) 7 home-Ready (omega arith) hello_foreign

abbrev pub vector : List ℕ
vector = replicate 16 0

abbrev quiet : Configuration
quiet = record default_configuration { port = none }

abbrev started : World toy
started = (start_graph toy little 1 all_open no_entropy ltb 1 8 init).0

-- Node 1 as its constructor leaves it.
abbrev fresh : Node
fresh = first_node toy platform Inbox 1 0 3 [] started

fresh_constructed :
    construct_node toy platform Inbox 1 willing quiet 1 8 0 3 [] ≡ returned (fresh, none)
unfolding construct_node construct_server
fresh_constructed =
    let (w, run, r, n) =
      start_graph-IsReady toy toy-CryptoLaws ltb-IsStrictOrder little 1 all_open no_entropy ltb 0
        8 in
    ap
      (λ (o : Outcome Bool).
        after_graph toy platform Inbox 1 (construct_server willing quiet)
          (first_node toy platform Inbox 1 0 3 []) (started, o))
      (ap (λ (x : World toy × Outcome Bool). x.1) run)

-- It sets its callback, and a socket is opened to it.
abbrev listening : Node
listening =
    in_networking toy platform Inbox 1 (web_socket_opened ℕ_discrete 30)
      (on_message toy platform Inbox 1 (some keep) fresh)

no_neighbors : started.routing.neighbors ≡ []
no_neighbors =
    let (w, run, r, n) =
      start_graph-IsReady toy toy-CryptoLaws ltb-IsStrictOrder little 1 all_open no_entropy ltb 0
        8 in
    ap (λ (x : World toy × Outcome Bool). x.0.routing.neighbors) run ∙ n

listening_room : 33 * length listening.world.routing.neighbors + 98 < 2 ^ 16
unfolding web_socket_opened add_channel on_message first_node
listening_room = omega (arith, ap (λ (m : List (ℕ × ℕ)). length m) no_neighbors)

-- A Hello of node 7 arrives over that socket.
abbrev neighbored : Node
neighbored = (receive_data toy platform Inbox 1 1 (wire toy hello) 30 listening).0

-- The socket is closed; the node says hello, and sends two messages.
abbrev busy : Node
busy =
    (node_broadcast toy platform Inbox 1 0 (8 ∷ [])
      (send_user toy platform Inbox 1 1 vector 0 2 (9 ∷ [])
        (update_graph toy platform Inbox 1
          (in_networking toy platform Inbox 1 (web_socket_closed ℕ_discrete 30) neighbored)).0).0).0

abbrev busy_path : Reached toy toy-CryptoLaws ltb-IsStrictOrder platform Inbox 1 fresh busy
busy_path =
    next
      (next
        (next
          (next
            (next (next (next here (sets_callback (some keep))) (opens_socket 30))
              (data_arrives 0 (wire toy hello) 30))
            (closes_socket 30))
          updates_graph)
        (sends 1 vector 0 2 (9 ∷ [])))
      (broadcasts 0 (8 ∷ []))

constructed-IsRunning_example : IsRunning toy toy-CryptoLaws ltb-IsStrictOrder platform Inbox 1 busy
constructed-IsRunning_example =
    constructed-IsRunning toy toy-CryptoLaws ltb-IsStrictOrder platform Inbox 1 willing quiet 0 8 0
      3 [] fresh busy none fresh_constructed busy_path
      (((((((tt, tt), tt), (listening_room, hello_foreign)), tt), tt), tt), tt)
