-- ===== src/Node/Kept.antt =====
-- What the calls that do not reach the graph's handlers keep: the graph stays ready.
use legio.Prelude.{
  ℕ, ◌≤◌, ◌≡◌, some, List, [], ◌∷◌, length, arith, find, Option-cases, inl, inr, ap,
}
use legio.RoutingTable.{nodes}
use legio.Routing.{Channel, Routing, drop_links, remove_channel}
use legio.Peering.{Link, connect, disconnect, set_data_channel, closed, offered}
use legio.Networking.{
  Networking, create_peering, connect_created, connect_peer, connect_first, update, at_peering,
  keep_link, link_of,
}

module _ {Identifier : Type 0} where
  length-drop_links :
      (channel : Channel) (m : List (Identifier × Channel))
      → length (drop_links channel m) ≤ length m
  unfolding drop_links
  length-drop_links channel [] = omega arith
  length-drop_links channel ((id, ch) ∷ m) = ground (arith, length-drop_links channel m)

  pub remove_channel-fewer :
      (r : Routing Identifier) (channel : Channel)
      → length (remove_channel r channel).neighbors ≤ length r.neighbors
  unfolding remove_channel
  remove_channel-fewer r channel = length-drop_links channel r.neighbors

module _ {Identifier Description : Type 0} where
  disconnect-fewer :
      (l : Link Identifier Description)
      → length (disconnect l).routing.neighbors ≤ length l.routing.neighbors
  unfolding disconnect
  disconnect-fewer l = elim (Option-cases l.peering.data_channel) [
    | inl k ↦ rw (k, disconnect) (omega arith)
    | inr (channel, k) ↦ rw (k, disconnect) (remove_channel-fewer l.routing channel)
  ]

  connect-fewer :
      (fresh : Channel) (l : Link Identifier Description)
      → length (connect fresh l).routing.neighbors ≤ length l.routing.neighbors
  unfolding connect set_data_channel
  connect-fewer fresh l = disconnect-fewer l

  pub closed-fewer :
      (l : Link Identifier Description)
      → length (closed l).routing.neighbors ≤ length l.routing.neighbors
  unfolding closed
  closed-fewer l = elim (Option-cases l.peering.data_channel) [
    | inl k ↦ rw (k, closed) (omega arith)
    | inr (channel, k) ↦ rw (k, closed) (remove_channel-fewer l.routing channel)
  ]

  pub offered-fewer :
      (channel : Channel) (label : List ℕ) (l : Link Identifier Description)
      → length (offered channel label l).routing.neighbors ≤ length l.routing.neighbors
  unfolding offered set_data_channel
  offered-fewer channel label l = ground arith

module _ {Identifier Description : Type 0} (same : Discrete Identifier) where
  pub at_peering-fewer :
      (callback : Link Identifier Description → Link Identifier Description)
      → ((l : Link Identifier Description)
          → length (callback l).routing.neighbors ≤ length l.routing.neighbors)
      → (id : Identifier) (n : Networking Identifier Description)
      → length (at_peering same callback id n).routing.neighbors ≤ length n.routing.neighbors
  unfolding at_peering keep_link
  at_peering-fewer callback fewer id n = elim (Option-cases (find same id n.peerings)) [
    | inl k ↦ rw (k, at_peering) (omega arith)
    | inr (peering, k) ↦ rw (k, at_peering) (fewer (link_of same n peering))
  ]

  pub create_peering-routing :
      (id : Identifier) (n : Networking Identifier Description)
      → (create_peering same id n).0.routing ≡ n.routing
  unfolding create_peering
  create_peering-routing id n = ground arith

  pub connect_peer-fewer :
      (fresh : ℕ → Channel) (id : Identifier) (n : Networking Identifier Description)
      → length (connect_peer same fresh id n).routing.neighbors ≤ length n.routing.neighbors
  unfolding connect_peer connect_created keep_link
  connect_peer-fewer fresh id n =
      let (k, peering) = create_peering same id n in
      omega (
        arith,
        connect-fewer (fresh k.created) (link_of same k peering),
        ap (λ (r : Routing Identifier). length r.neighbors) (create_peering-routing id n),
      )

  connect_first-fewer :
      (fresh : ℕ → Channel) (ids : List Identifier) (n : Networking Identifier Description)
      → length (connect_first same fresh ids n).routing.neighbors ≤ length n.routing.neighbors
  unfolding connect_first
  connect_first-fewer fresh [] n = omega arith
  connect_first-fewer fresh (id ∷ ids) n =
      ground (arith, connect_first-fewer fresh ids n, connect_peer-fewer fresh id n)

  pub update-fewer :
      (fresh : ℕ → Channel) (shuffle : List Identifier → List Identifier)
      (n n' : Networking Identifier Description)
      → update same fresh shuffle n ≡ some n'
      → length n'.routing.neighbors ≤ length n.routing.neighbors
  unfolding update
  update-fewer fresh shuffle n n' h = elim (Option-cases n.routing.table) [
    | inl k ↦ ground arith
    | inr (t, k) ↦ ground (arith, connect_first-fewer fresh (shuffle (nodes same t)) n)
  ]
