-- ===== src/Graph/Updates/Reach.antt =====
-- A new neighbour can be reached: what `Graph::updateEdges` of src/impl/graph.cpp makes of the
-- neighbours of `Routing` is what `Routing::findRoute` needs.
use legio.Prelude.{
  ℕ, ◌≡◌, ◌≢◌, ◌⊎◌, refl, ap, ◌∙◌, Bool, true, false, List, [], ◌∷◌, some, has_value, find,
  contains, IsMap, arith,
}
use legio.Crypto.{CryptoPp}
use legio.ByteOrder.{Endian}
use legio.State.{set_insert}
use legio.RoutingTable.{find_next_hop}
use legio.Routing.{Channel, Channels, find_route}
use legio.Routing.Forwarding.{find_route_iff}
use legio.Graph.{Vertice, Vertices}
use legio.Graph.Edges.{update_edges, update_edges_lem, update_edges-IsMap, update_edges-new}
use legio.Graph.World.{World, returned}
use legio.Graph.Updates.{sorted_neighbors, recompute, change_edges, ok}
use legio.Graph.Updates.Kept.{me, recompute-IsKept, IsDirected}

module _ (c : CryptoPp) (e : Endian) (pair : c.PrivateKey) (net : Channels) (entropy : ℕ → ℕ)
    (address_lt : c.Point → c.Point → Bool) where
  open c use {Point, same_point, point_lt}

  -- Of two different identifiers one is less.
  abbrev pub IsTotal : Type 0
  IsTotal = (a b : Point) → (a ≡ b) ⊎ (point_lt a b ≡ true) ⊎ (point_lt b a ≡ true)

  contains-set_insert :
      (total : IsTotal) (id : Point) (ids : List Point)
      → contains same_point id (set_insert point_lt id ids) ≡ true
  unfolding contains set_insert
  contains-set_insert total id [] = ground arith
  contains-set_insert total id (j ∷ ids) =
      ground (arith, contains-set_insert total id ids, total id j)

  still-set_insert :
      (id j : Point) (ids : List Point)
      → contains same_point j ids ≡ true
      → contains same_point j (set_insert point_lt id ids) ≡ true
  unfolding contains set_insert
  still-set_insert id j [] h = cc h
  still-set_insert id j (k ∷ ids) h = ground (arith, still-set_insert id j ids, h)

  -- A neighbour is a member of the set of neighbours.
  contains-sorted_neighbors :
      (total : IsTotal) (id : Point) (channel : Channel) (m : List (Point × Channel))
      → find same_point id m ≡ some channel
      → contains same_point id (sorted_neighbors c e pair net entropy address_lt m) ≡ true
  unfolding find sorted_neighbors
  contains-sorted_neighbors total id channel [] h = cc h
  contains-sorted_neighbors total id channel ((j, ch) ∷ m) h = elim (same_point j id) [
    | yes p ↦
        rw p (contains-set_insert total id (sorted_neighbors c e pair net entropy address_lt m))
    | no n ↦
        still-set_insert j id _
          (contains-sorted_neighbors total id channel m (ground (arith, h, n)))
  ]

  change_edges-step :
      (w w' : World c) (ws : Vertices Point) (id : Point) (ids : List Point)
      → update_edges same_point w.vertices id ids ≡ ok (ws, true)
      → recompute c e pair net entropy address_lt (record w { vertices = ws }) ≡ (w', returned tt)
      → change_edges c e pair net entropy address_lt id ids w ≡ (w', returned true)
  unfolding change_edges
  change_edges-step w w' ws id ids run ran = rw (run, change_edges) (rw ran refl)

  -- A table that was computed for the new edges has a hop to the neighbour.
  routed :
      (w : World c) (v : Vertice Point) (ws : Vertices Point) (id : Point) (channel : Channel)
      → IsDirected c e pair net entropy address_lt v ws w
      → has_value (find same_point id ws) ≡ true
      → contains same_point id v.edges ≡ true
      → me c e pair net entropy address_lt ≢ id
      → find same_point id w.routing.neighbors ≡ some channel
      → find_route same_point w.routing id ≡ some channel
  routed w v ws id channel directed known edge d n =
      let hop : has_value (find_next_hop same_point w.routing_table id) ≡ true =
        ground (arith, directed.hops id, known, edge, d) in
      (find_route_iff same_point w.routing w.routing_table id channel directed.shared).1 (hop, n)

  -- After the node took over the neighbours of `Routing` as its own edges, a neighbour `id` that had
  -- no edge before has a route, and it is its own channel. The local vertex `v` is known, the
  -- vertices are a map, and the order of identifiers is total.
  pub change_edges-find_route :
      (total : IsTotal) (w : World c) (v : Vertice Point) (id : Point) (channel : Channel)
      → let own = me c e pair net entropy address_lt in
        let ids = sorted_neighbors c e pair net entropy address_lt w.routing.neighbors in
        find same_point own w.vertices ≡ some v
        → IsMap same_point w.vertices
        → find same_point id w.routing.neighbors ≡ some channel
        → contains same_point id v.edges ≡ false
        → own ≢ id
        → (w' : World c) × (change_edges c e pair net entropy address_lt own ids w
            ≡ (w', returned true))
          × (find_route same_point w'.routing id ≡ some channel)
  change_edges-find_route total w v id channel at m n fresh d =
      let own = me c e pair net entropy address_lt in
      let ids = sorted_neighbors c e pair net entropy address_lt w.routing.neighbors in
      let member = contains-sorted_neighbors total id channel w.routing.neighbors n in
      let (ws, changed, v', run, state, edges, all) =
        update_edges_lem same_point w.vertices own ids v at in
      let new : changed ≡ true =
        update_edges-new same_point w.vertices ws own id ids v changed at member fresh run in
      let w1 : World c = record w { vertices = ws } in
      let (w2, ran, kept, directed) =
        recompute-IsKept c e pair net entropy address_lt w1 v' (all own ∙ ground arith)
          (update_edges-IsMap same_point w.vertices ws own ids v changed at m run) in
      (
        w2,
        change_edges-step w w2 ws own ids (rw new at run) ran,
        routed w2 v' ws id channel directed (ground (arith, all id, d, member, fresh))
            (edges id ∙ member) d (ap (find same_point id) kept.neighbors ∙ n),
      )
