-- ===== src/Graph/Updates.antt =====
-- How `Graph` of src/impl/graph.cpp takes in states, neighbours and messages, and announces its own.
-- An event that `Routing` emits reaches `Graph::notify` by the node at once, so the handler of the
-- emitted event is called in its place.
pub mod Kept
pub mod Total
pub mod Insert
pub mod Started
pub mod Reach
pub mod History
use legio.Prelude.{
  ℕ, zero, suc, ◌+◌, ◌%◌, ◌^◌, Bool, true, false, not, ◌==◌, if◌then◌else◌, List, [], ◌∷◌, ◌++◌,
  length, Option, none, some, find, emplace, assign, bytes_eq, ok, err, ◌-◌,
}
use legio.ByteOrder.{Endian}
use legio.Crypto.{CryptoPp, ecdh_public_key}
use legio.Message.{Message, create, to_binary, hello_type, state_type}
use legio.Message.Sequence.{compare_sequence}
use legio.Transport.{is_newer}
use legio.State.{State, set_insert, to_message, from_message}
use legio.Routing.{Channel, Channels, set_table, add_neighbor, has_neighbor, broadcast, Routing}
use legio.RoutingTable.{empty_table}
use legio.Graph.{Vertice, new_vertice}
use legio.Graph.Paths.{reset, compute_routing_table}
use legio.Graph.Edges.{update_edges}
use legio.Graph.World.{World, returned, thrown, undefined, unfinished, Call, and_then, Outcome}

-- The number of a counter of type `uint32_t` after `++`.
abbrev pub next_number : ℕ → ℕ
next_number n = (n + 1) % 2 ^ 32

-- `vertice->state && compare_sequence(state.sequence, vertice->state->sequence) <= 0`
unfoldable pub is_stale :
    {Identifier : Type 0} → State Identifier → Option (State Identifier) → Bool
is_stale s none = false
is_stale s (some old) = not (is_newer (compare_sequence s.sequence old.sequence))

-- `!vertice->state || vertice->state->ecdhPublic != state.ecdhPublic`
unfoldable pub key_changed :
    {Identifier : Type 0} → State Identifier → Option (State Identifier) → Bool
key_changed s none = true
key_changed s (some old) = not (bytes_eq old.ecdh_public s.ecdh_public)

-- The edges of the vertex `id`: the search visits one vertex for each, and the local one.
unfoldable pub edges_of : {Identifier : Type 0} → Option (Vertice Identifier) → List Identifier
edges_of none = []
edges_of (some v) = v.edges

-- `entropy` is what the random pool yields, `address_lt` the order of the vertices' addresses.
module _ (c : CryptoPp) (e : Endian) (pair : c.PrivateKey) (net : Channels) (entropy : ℕ → ℕ)
    (address_lt : c.Point → c.Point → Bool) where
  open c use {Point, same_point, point_lt, make_public_key}

  -- `node()->id()`
  abbrev pub local_id : Point
  local_id = make_public_key pair

  -- `std::set<Identifier> neighbors`, in the order of its members
  unfoldable pub sorted_neighbors : List (Point × Channel) → List Point
  sorted_neighbors [] = []
  sorted_neighbors ((id, channel) ∷ m) = set_insert point_lt id (sorted_neighbors m)

  -- `node()->routing->broadcast(message, from)`
  unfoldable pub flood : Message Point → Option Channel → Call c (Unit {0})
  flood m from w = (
    record w { sent = w.sent ++ broadcast same_point (to_binary c e) net w.routing m from },
    returned tt,
  )

  -- `computeRoutingTable()`, which resets the vertices before it can throw
  unfoldable pub recompute : Call c (Unit {0})
  recompute w =
      elim (compute_routing_table same_point address_lt
        (suc (length (edges_of (find same_point local_id w.vertices)))) local_id w.vertices) [
          | none ↦ (w, unfinished)
          | some (err x) ↦ (record w { vertices = reset w.vertices }, thrown x)
          | some (ok (found, table)) ↦ (
            record w {
              vertices = found;
              routing_table = table;
              routing = set_table w.routing table;
            },
            returned tt,
          )
        ]

  -- `bool updateEdges(const Identifier &id, const std::set<Identifier> &neighbors)`
  unfoldable pub change_edges : Point → List Point → Call c Bool
  unfolding recompute
  change_edges id neighbors w = elim (update_edges same_point w.vertices id neighbors) [
    | err x ↦ (w, thrown x)
    | ok (vs, changed) ↦
        if changed
        then and_then (λ _ w'. (w', returned true)) (recompute (record w { vertices = vs }))
        else (w, returned false)
  ]

  -- `vertice->state = std::move(state)`
  unfoldable pub store_state : Point → State Point → World c → World c
  store_state id s w = elim (find same_point id w.vertices) [
    | none ↦ w
    | some v ↦ record w { vertices = assign same_point id (record v { state = some s }) w.vertices }
  ]

  -- The end of `updateVertice`.
  unfoldable pub finish_vertice : Point → Call c Bool
  unfolding change_edges
  finish_vertice id w = elim (find same_point id w.vertices) [
    | none ↦ (w, undefined)
    | some v ↦ elim v.state [
      | none ↦ (w, undefined)
      | some s ↦ and_then (λ _ w'. (w', returned true)) (change_edges id s.neighbors w)
    ]
  ]

  -- `bool updateVertice(State state)`, where `again` is `broadcastState()`
  unfoldable pub update_vertice : Call c (Unit {0}) → State Point → Call c Bool
  unfolding finish_vertice store_state
  update_vertice again s w =
      let id = s.ecdsa_key in
      elim (find same_point id w.vertices) [
        | none ↦
            and_then (λ _. finish_vertice id)
              (again (record w {
                vertices = emplace same_point id (record new_vertice { state = some s }) w.vertices;
              }))
        | some v ↦
            if is_stale s v.state
            then (w, returned false)
            else and_then (λ _ w'. finish_vertice id (store_state id s w'))
                (if key_changed s v.state then again w else (w, returned tt))
      ]

  -- The state that `broadcastState` announces.
  unfoldable pub local_state : World c → State Point
  local_state w = record {
    ecdsa_key = local_id;
    sequence = w.state_sequence;
    ecdh_public = ecdh_public_key c w.ecdh;
    neighbors = sorted_neighbors w.routing.neighbors;
  }

  -- `void broadcastState()`, where `update` is `updateVertice`
  unfoldable pub announce : (State Point → Call c Bool) → Call c (Unit {0})
  announce update w =
      let s = local_state w in
      let w' = record w { state_sequence = next_number w.state_sequence; drawn = suc w.drawn } in
      elim (to_message c e (entropy w.drawn) s pair) [
        | err x ↦ (w', thrown x)
        | ok m ↦ and_then (λ _. flood m none) (update s w')
      ]

  -- `broadcastState` and `updateVertice` call one another.
  unfoldable pub broadcast_state : ℕ → Call c (Unit {0})
  unfolding announce update_vertice
  broadcast_state zero w = (w, unfinished)
  broadcast_state (suc rounds) w = announce (update_vertice (broadcast_state rounds)) w

  -- `bool insert(State state)`
  unfoldable pub insert_state : ℕ → State Point → Call c Bool
  unfolding update_vertice broadcast_state
  insert_state rounds s = update_vertice (broadcast_state rounds) s

  -- `Graph(Node *node)` of a node with the ECDH pair `ecdh`
  unfoldable pub start_graph : ℕ → c.EcdhKey → Routing Point → World c × Outcome Bool
  unfolding insert_state
  start_graph rounds ecdh r =
      insert_state rounds
        (record {
          ecdsa_key = local_id;
          sequence = 2 ^ 32 - 1;
          ecdh_public = ecdh_public_key c ecdh;
          neighbors = [];
        })
        (record {
          vertices = [];
          routing_table = empty_table;
          ecdh = ecdh;
          hello_sequence = 0;
          state_sequence = 0;
          routing = r;
          sent = [];
          drawn = 0;
        })

  -- `void broadcastHello()`, and `void update()`
  unfoldable pub broadcast_hello : Call c (Unit {0})
  unfolding flood
  broadcast_hello w =
      let w' = record w { hello_sequence = next_number w.hello_sequence; drawn = suc w.drawn } in
      elim (create c e (entropy w.drawn) hello_type w.hello_sequence [] (some pair) none) [
        | err x ↦ (w', thrown x)
        | ok m ↦ flood m none w'
      ]

  -- `notify` for `events::Neighbor`
  unfoldable pub neighbors_changed : ℕ → Call c (Unit {0})
  unfolding change_edges broadcast_state
  neighbors_changed rounds w =
      and_then (λ changed w'. if changed then broadcast_state rounds w' else (w', returned tt))
        (change_edges local_id (sorted_neighbors w.routing.neighbors) w)

  -- `notify` for a Hello message from `source`
  unfoldable pub hear_hello : ℕ → Point → Option Channel → Call c (Unit {0})
  unfolding neighbors_changed
  hear_hello rounds source none w = (w, returned tt)
  hear_hello rounds source (some channel) w =
      if has_neighbor same_point w.routing source
      then (w, returned tt)
      else (let (r, event) = add_neighbor same_point w.routing source channel in
          elim event [
            | none ↦ (record w { routing = r }, returned tt)
            | some event ↦ neighbors_changed rounds (record w { routing = r })
          ])

  -- `notify` for a State message
  unfoldable pub hear_state : ℕ → Message Point → Option Channel → Call c (Unit {0})
  unfolding insert_state flood
  hear_state rounds m from w = elim (from_message c m) [
    | none ↦ (w, unfinished)
    | some (err x) ↦ (w, thrown x)
    | some (ok s) ↦
        and_then (λ fresh w'. if fresh then flood m from w' else (w', returned tt))
          (insert_state rounds s w)
  ]

  -- `void notify(const events::variant &event)` for `events::Message`: the log line of a Hello or State
  -- message reads the source before it is checked.
  unfoldable pub hear : ℕ → Message Point → Option Channel → Call c (Unit {0})
  unfolding hear_hello hear_state
  hear rounds m from w =
      if m.type == hello_type
      then (elim m.source [ none ↦ (w, undefined) | some source ↦ hear_hello rounds source from w ])
      else if m.type == state_type
      then (elim m.source [ none ↦ (w, undefined) | some source ↦ hear_state rounds m from w ])
      else (w, returned tt)
