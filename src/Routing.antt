-- ===== src/Routing.antt =====
-- src/impl/routing.hpp and routing.cpp: channels, direct neighbours, and where messages go. A
-- channel, `shared_ptr<Channel>`, is a number that stands for its address.
pub mod Neighbors
pub mod Forwarding
use legio.Prelude.{
  ℕ, ◌≡◌, Bool, true, false, not, ◌&&◌, ◌==◌, if◌then◌else◌, ite, List, [], ◌∷◌, ◌++◌, Option, none,
  some, has_value, find, emplace, erase, contains, insert, discard, keys, ℕ_discrete, Result, ok,
  err, missing_source, send_failed, ◌>>=◌,
}
use legio.Message.{Message}
use legio.RoutingTable.{RoutingTable, empty_table, find_next_hop}

abbrev pub Channel : Type 0
Channel = ℕ

-- What the WebRTC library says of the channels: `isOpen()`, and whether `send` returns.
pub record Channels : Type 0 where
  pub is_open : Channel → Bool
  pub accepts : Channel → List ℕ → Bool

-- `events::variant` of src/impl/events.hpp
pub data Event (Identifier : Type 0) : Type 0 where
  message : Message Identifier → Option Channel → Event Identifier
  neighbor : Identifier → Option Channel → Event Identifier

-- The members of `class Routing`; `receiving` are the channels whose `onMessage` calls `route`.
pub record Routing (Identifier : Type 0) : Type 0 where
  pub table : Option (RoutingTable Identifier)
  pub channels : List Channel
  pub neighbors : List (Identifier × Channel)
  pub receiving : List Channel

-- `Routing(Node *node)`
unfoldable pub init : {Identifier : Type 0} → Routing Identifier
init = record { table = some empty_table; channels = []; neighbors = []; receiving = [] }

-- `*it == channel`, also for a null `from`
abbrev pub is_from : Option Channel → Channel → Bool
is_from none channel = false
is_from (some from) channel = channel == from

module _ {Identifier : Type 0} where
  -- `void addChannel(shared_ptr<Channel> channel)`
  unfoldable pub add_channel : Routing Identifier → Channel → Routing Identifier
  add_channel r channel = record r {
    channels = insert ℕ_discrete channel r.channels;
    receiving = insert ℕ_discrete channel r.receiving;
  }

  -- The loop of `removeChannel` over the neighbours.
  unfoldable pub drop_links : Channel → List (Identifier × Channel) → List (Identifier × Channel)
  drop_links channel [] = []
  drop_links channel ((id, c) ∷ m) =
      let rest = drop_links channel m in if c == channel then rest else (id, c) ∷ rest

  -- `void removeChannel(shared_ptr<Channel> channel)`
  unfoldable pub remove_channel : Routing Identifier → Channel → Routing Identifier
  unfolding drop_links
  remove_channel r channel =
      let known = contains ℕ_discrete channel r.channels in
      record r {
        channels = if known then discard ℕ_discrete channel r.channels else r.channels;
        receiving = if known then discard ℕ_discrete channel r.receiving else r.receiving;
        neighbors = drop_links channel r.neighbors;
      }

  -- `void setTable(shared_ptr<RoutingTable> table)`
  unfoldable pub set_table : Routing Identifier → RoutingTable Identifier → Routing Identifier
  set_table r table = record r { table = some table }

module _ {Identifier : Type 0} (same : Discrete Identifier) where
  -- `void addNeighbor(const Identifier &remoteId, shared_ptr<Channel> channel)`, with the event that
  -- it emits
  unfoldable pub add_neighbor :
      Routing Identifier → Identifier → Channel → Routing Identifier × Option (Event Identifier)
  add_neighbor r id channel =
      if contains ℕ_discrete channel r.channels && not (has_value (find same id r.neighbors))
      then (
        record r { neighbors = emplace same id channel r.neighbors },
        some (neighbor id (some channel)),
      )
      else (r, none)

  -- `void removeNeighbor(const Identifier &remoteId, shared_ptr<Channel> channel)`
  unfoldable pub remove_neighbor :
      Routing Identifier → Identifier → Channel → Routing Identifier × Option (Event Identifier)
  remove_neighbor r id channel =
      if is_from (find same id r.neighbors) channel
      then (record r { neighbors = erase same id r.neighbors }, some (neighbor id none))
      else (r, none)

  -- `bool hasNeighbor(const Identifier &remoteId) const`
  unfoldable pub has_neighbor : Routing Identifier → Identifier → Bool
  has_neighbor r id = has_value (find same id r.neighbors)

  -- `std::set<Identifier> neighbors() const`
  unfoldable pub neighbor_set : List (Identifier × Channel) → List Identifier
  neighbor_set [] = []
  neighbor_set ((id, channel) ∷ m) = insert same id (neighbor_set m)

  -- `shared_ptr<Channel> findRoute(const Identifier &remoteId)`
  unfoldable pub find_route : Routing Identifier → Identifier → Option Channel
  find_route r remote_id = elim r.table [
    | none ↦ none
    | some table ↦ elim (find_next_hop same table remote_id) [
      | none ↦ none
      | some next_hop ↦ find same remote_id r.neighbors
    ]
  ]

-- What a call does besides changing the state: bytes sent on channels, and events.
pub record Effects (Identifier : Type 0) : Type 0 where
  pub sent : List (Channel × List ℕ)
  pub events : List (Event Identifier)

-- `encode` is the conversion of a message to bytes, which may throw.
module _ {Identifier : Type 0} (same : Discrete Identifier)
    (encode : Message Identifier → Result (List ℕ)) (net : Channels) where
  -- `channel->send(binary(*message))`
  unfoldable pub send_on : Channel → Message Identifier → Result (Channel × List ℕ)
  send_on channel m =
      encode m >>= λ bin. if net.accepts channel bin then ok (channel, bin) else err send_failed

  -- What a `try` keeps of it.
  abbrev kept : Result (Channel × List ℕ) → List (Channel × List ℕ)
  kept (ok s) = s ∷ []
  kept (err e) = []

  -- The loop of `broadcast`.
  unfoldable pub broadcast_on :
      Message Identifier → Option Channel → List Channel → List (Channel × List ℕ)
  unfolding send_on
  broadcast_on m from [] = []
  broadcast_on m from (channel ∷ channels) =
      let rest = broadcast_on m from channels in
      if not (is_from from channel) && net.is_open channel
      then kept (send_on channel m) ++ rest
      else rest

  -- `void broadcast(message_ptr message, shared_ptr<Channel> from)`
  unfoldable pub broadcast :
      Routing Identifier → Message Identifier → Option Channel → List (Channel × List ℕ)
  unfolding broadcast_on
  broadcast r m from = broadcast_on m from r.channels

  -- `*message->destination == localId()`, or no destination
  unfoldable pub is_local : Identifier → Option Identifier → Bool
  is_local local none = true
  is_local local (some id) = ite (same id local) true false

  unfoldable pub forward :
      Routing Identifier → Message Identifier → Option Identifier → Result (Effects Identifier)
  unfolding send_on
  forward r m none = ok (record { sent = []; events = [] })
  forward r m (some destination) = elim (find_route same r destination) [
    | none ↦ ok (record { sent = []; events = [] })
    | some channel ↦ send_on channel m >>= λ s. ok (record { sent = s ∷ []; events = [] })
  ]

  -- `void route(message_ptr message, shared_ptr<Channel> from)` at the node `local`
  unfoldable pub route :
      Identifier
      → Routing Identifier
      → Message Identifier
      → Option Channel
      → Result (Effects Identifier)
  unfolding forward is_local
  route local r m from =
      if not (has_value m.source)
      then err missing_source
      else if is_local local m.destination
      then ok (record { sent = []; events = message m from ∷ [] })
      else forward r m m.destination

  -- `void send(message_ptr message)`
  unfoldable pub send :
      Identifier → Routing Identifier → Message Identifier → Result (Effects Identifier)
  unfolding route broadcast
  send local r m =
      if has_value m.destination
      then route local r m none
      else ok (record { sent = broadcast r m none; events = [] })
