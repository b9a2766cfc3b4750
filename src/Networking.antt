-- ===== src/Networking.antt =====
-- src/impl/networking.hpp and networking.cpp: which nodes this node keeps a connection to. The library
-- creates data channels with ever new addresses, `fresh n` for the n-th.
pub mod Tidy
pub mod Links
pub mod Steps
pub mod Described
use legio.Prelude.{
  ℕ, suc, Bool, false, ◌||◌, ltb, if◌then◌else◌, List, [], ◌∷◌, length, Option, none, some,
  has_value, find, emplace, assign, Result,
}
use legio.RoutingTable.{nodes}
use legio.Routing.{Channel, Channels, Routing, add_channel, remove_channel}
use legio.Peering.{WebRtc, Peering, Call, Link, is_connected, create_peering_at, connect, receive}

-- `mPeerings` with the node's `routing`, and the calls of the library and of the transport so far.
pub record Networking (Identifier Description : Type 0) : Type 0 where
  pub peerings : List (Identifier × Peering Identifier)
  pub routing : Routing Identifier
  pub calls : List (Call Identifier Description)
  pub created : ℕ

-- `const int targetPeeringCount = 4`
abbrev pub target_peering_count : ℕ
target_peering_count = 4

-- The loop of `isConnected`.
unfoldable pub some_connected :
    {Identifier : Type 0} → Channels → List (Identifier × Peering Identifier) → Bool
some_connected net [] = false
some_connected net ((id, p) ∷ m) = is_connected net p || some_connected net m

module _ {Identifier Description : Type 0} (same : Discrete Identifier) where
  -- `bool isConnected() const`
  unfoldable pub any_connected : Channels → Networking Identifier Description → Bool
  unfolding some_connected
  any_connected net n = some_connected net n.peerings

  -- `shared_ptr<Peering> createPeering(Identifier remoteId)`
  unfoldable pub create_peering :
      Identifier
      → Networking Identifier Description
      → Networking Identifier Description × Peering Identifier
  create_peering remote_id n = elim (find same remote_id n.peerings) [
    | some p ↦ (n, p)
    | none ↦
        let p = create_peering_at remote_id in
        (record n { peerings = emplace same remote_id p n.peerings }, p)
  ]

  -- A peering as a call sees it, and what is kept of the call.
  abbrev pub link_of :
      Networking Identifier Description → Peering Identifier → Link Identifier Description
  link_of n p = record { peering = p; routing = n.routing; calls = n.calls }

  unfoldable pub keep_link :
      Identifier
      → Networking Identifier Description
      → Link Identifier Description
      → Networking Identifier Description
  keep_link id n l = record n {
    peerings = assign same id l.peering n.peerings;
    routing = l.routing;
    calls = l.calls;
  }

  -- `peering->connect()`
  unfoldable pub connect_created :
      (ℕ → Channel)
      → Identifier
      → Networking Identifier Description × Peering Identifier
      → Networking Identifier Description
  unfolding keep_link
  connect_created fresh id (n, p) =
      keep_link id (record n { created = suc n.created }) (connect (fresh n.created) (link_of n p))

  -- `void connectPeer(Identifier remoteId)`
  unfoldable pub connect_peer :
      (ℕ → Channel)
      → Identifier
      → Networking Identifier Description
      → Networking Identifier Description
  unfolding create_peering connect_created
  connect_peer fresh remote_id n = connect_created fresh remote_id (create_peering remote_id n)

  -- The loop of `update` over the shuffled nodes.
  unfoldable pub connect_first :
      (ℕ → Channel)
      → List Identifier
      → Networking Identifier Description
      → Networking Identifier Description
  unfolding connect_peer
  connect_first fresh [] n = n
  connect_first fresh (id ∷ ids) n =
      let rest = connect_first fresh ids n in
      if has_value (find same id n.peerings) then rest else connect_peer fresh id n

  -- `void update()`, where `shuffle` is `std::shuffle` with the random engine of that call; `none` is
  -- the use of a null table.
  unfoldable pub update :
      (ℕ → Channel)
      → (List Identifier → List Identifier)
      → Networking Identifier Description
      → Option (Networking Identifier Description)
  unfolding connect_first
  update fresh shuffle n =
      if ltb (length n.peerings) target_peering_count
      then (elim n.routing.table [
        | none ↦ none
        | some table ↦ some (connect_first fresh (shuffle (nodes same table)) n)
      ])
      else some n

  -- The callbacks of a WebSocket of `connectWebSocket`.
  unfoldable pub web_socket_opened :
      Channel → Networking Identifier Description → Networking Identifier Description
  web_socket_opened channel n = record n { routing = add_channel n.routing channel }

  unfoldable pub web_socket_closed :
      Channel → Networking Identifier Description → Networking Identifier Description
  web_socket_closed channel n = record n { routing = remove_channel n.routing channel }

  -- A callback of the peering with `id`.
  unfoldable pub at_peering :
      (Link Identifier Description → Link Identifier Description)
      → Identifier
      → Networking Identifier Description
      → Networking Identifier Description
  unfolding keep_link
  at_peering callback id n = elim (find same id n.peerings) [
    | none ↦ n
    | some p ↦ keep_link id n (callback (link_of n p))
  ]

module _ (rtc : WebRtc) {Identifier : Type 0} (same : Discrete Identifier) where
  open rtc use {Description}

  -- `void receive(Identifier remoteId, binary payload)`
  unfoldable pub receive_signaling :
      (Identifier → Identifier → Bool)
      → Identifier
      → (Identifier → Bool)
      → Identifier
      → List ℕ
      → Networking Identifier Description
      → Networking Identifier Description × Result (Unit {0})
  unfolding create_peering keep_link
  receive_signaling greater local_id have_local_offer remote_id payload n =
      let (n', p) = create_peering same remote_id n in
      let (l, result) =
        receive rtc greater local_id (have_local_offer remote_id) payload (link_of same n' p) in
      (keep_link same remote_id n' l, result)
