-- ===== src/Graph/Paths.antt =====
-- `Graph::computeRoutingTable` of src/impl/graph.cpp. The priority queue is the list of its pairs
-- in the order of `std::greater<pair>`: by distance, then by the address of the vertex, which is a
-- parameter. A pair that is pushed is farther than the top, so the reference to the top stays.
pub mod Settled
pub mod Start
pub mod Reached
pub mod Kept
use legio.Prelude.{
  ℕ, zero, suc, Bool, true, false, not, ◌&&◌, ◌||◌, if◌then◌else◌, List, [], ◌∷◌, Option, none,
  some, has_value, find, assign, Result, ok, err, missing_local_node,
}
use legio.Prelude.Int.{ℤ, pos, negsuc, ltb_ℤ, increment}
use legio.RoutingTable.{RoutingTable, empty_table, add}
use legio.Graph.{Vertice, Vertices, find_vertice}

abbrev pub Queue : Type 0 → Type 0
Queue Identifier = List (ℤ × Identifier)

-- The reset at the start.
unfoldable pub reset : {Identifier : Type 0} → Vertices Identifier → Vertices Identifier
reset [] = []
reset ((id, v) ∷ vs) =
    (id, record v { next_hop = none; distance = negsuc 0; visited = false }) ∷ reset vs

module _ {Identifier : Type 0} (same : Discrete Identifier)
    (address_lt : Identifier → Identifier → Bool) where
  -- `queue.push(pair)`
  unfoldable pub push : ℤ × Identifier → Queue Identifier → Queue Identifier
  push (d, id) [] = (d, id) ∷ []
  push (d, id) ((d', id') ∷ queue) =
      let rest = push (d, id) queue in
      if ltb_ℤ d d' || (not (ltb_ℤ d' d) && address_lt id id')
      then (d, id) ∷ (d', id') ∷ queue
      else (d', id') ∷ rest

  -- `node->nextHop ? node->nextHop : neighbor`
  abbrev hop_or : Option Identifier → Identifier → Option Identifier
  hop_or none id = some id
  hop_or (some hop) id = some hop

  -- The body of the loop over the edges of a vertex with the next hop `hop`, for the edge to `id`.
  unfoldable pub relax :
      Option Identifier
      → ℤ
      → Identifier
      → Vertices Identifier
      → Queue Identifier
      → Vertices Identifier × Queue Identifier
  unfolding push
  relax hop distance id vs queue = elim (find_vertice same vs id) [
    | none ↦ (vs, queue)
    | some neighbor ↦
        let tentative = increment distance in
        let updated = record neighbor { next_hop = hop_or hop id; distance = tentative } in
        if not neighbor.visited && (not (has_value hop) || ltb_ℤ tentative neighbor.distance)
        then (assign same id updated vs, push (tentative, id) queue)
        else (vs, queue)
  ]

  unfoldable pub relax_all :
      Option Identifier
      → ℤ
      → List Identifier
      → Vertices Identifier
      → Queue Identifier
      → Vertices Identifier × Queue Identifier
  unfolding relax
  relax_all hop distance [] vs queue = (vs, queue)
  relax_all hop distance (id ∷ ids) vs queue =
      let (vs', queue') = relax hop distance id vs queue in relax_all hop distance ids vs' queue'

  -- One round for the top `(distance, id)` of the queue, before the pop.
  unfoldable pub visit :
      ℤ
      → Identifier
      → Vertices Identifier
      → Queue Identifier
      → Vertices Identifier × Queue Identifier
  unfolding relax_all
  visit distance id vs queue = elim (find_vertice same vs id) [
    | none ↦ (vs, queue)
    | some node ↦
        if node.visited
        then (vs, queue)
        else relax_all node.next_hop distance node.edges
            (assign same id (record node { visited = true }) vs) queue
  ]

  abbrev pop : Queue Identifier → Queue Identifier
  pop [] = []
  pop (top ∷ queue) = queue

  -- `while (!queue.empty())`; `none` means that the rounds did not suffice.
  unfoldable pub search_loop :
      ℕ → Vertices Identifier → Queue Identifier → Option (Vertices Identifier)
  unfolding visit
  search_loop rounds vs [] = some vs
  search_loop zero vs (top ∷ queue) = none
  search_loop (suc rounds) vs ((distance, id) ∷ queue) =
      let (vs', queue') = visit distance id vs ((distance, id) ∷ queue) in
      search_loop rounds vs' (pop queue')

  -- The table of the next hops that were found.
  unfoldable pub build_table :
      Vertices Identifier → RoutingTable Identifier → RoutingTable Identifier
  build_table [] table = table
  build_table ((id, v) ∷ vs) table = elim v.next_hop [
    | none ↦ build_table vs table
    | some hop ↦ build_table vs (add same table id hop)
  ]

  -- `void computeRoutingTable()` at the node `local`: the vertices and the new table.
  unfoldable pub compute_routing_table :
      ℕ
      → Identifier
      → Vertices Identifier
      → Option (Result (Vertices Identifier × RoutingTable Identifier))
  unfolding reset
  compute_routing_table rounds local vertices =
      let vs = reset vertices in
      elim (find_vertice same vs local) [
        | none ↦ some (err missing_local_node)
        | some v ↦
            let start = assign same local (record v { next_hop = none; distance = pos 0 }) vs in
            elim (search_loop rounds start ((pos 0, local) ∷ [])) [
              | none ↦ none
              | some found ↦ some (ok (found, build_table found empty_table))
            ]
      ]
