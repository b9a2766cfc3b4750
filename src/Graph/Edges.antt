-- ===== src/Graph/Edges.antt =====
-- `Graph::get`, `nodes`, `count` and the part of `Graph::updateEdges` before it computes the routing
-- table anew, of src/impl/graph.cpp. A `std::set` of neighbours is the list of its members.
use legio.Prelude.{
  ◌≡◌, refl, ite, Bool, true, false, not, ◌&&◌, ◌||◌, if◌then◌else◌, List, [], ◌∷◌, Option, none,
  some, has_value, find, emplace, assign, contains, insert, discard, contains-insert,
  contains-discard, find-emplace, find-assign, Result, ok, err, unknown_node, unknown_state,
  vertice_not_found, arith, inl, inr, Bool-cases, IsMap, sym, emplace-IsMap, ◌∙◌, assign-IsMap, ap,
}
use legio.State.{State}
use legio.Graph.{Vertice, Vertices, new_vertice}

module _ {Identifier : Type 0} (same : Discrete Identifier) where
  -- `const State Graph::get(Identifier nodeId) const`
  unfoldable pub get_state : Vertices Identifier → Identifier → Result (State Identifier)
  get_state vs node_id = elim (find same node_id vs) [
    | none ↦ err unknown_node
    | some v ↦ elim v.state [ none ↦ err unknown_state | some state ↦ ok state ]
  ]

  -- `std::vector<Identifier> Graph::nodes() const`
  unfoldable pub known_nodes : Vertices Identifier → List Identifier
  known_nodes [] = []
  known_nodes ((id, v) ∷ vs) =
      let rest = known_nodes vs in if has_value v.state then id ∷ rest else rest

  -- `std::set_difference` of two sets
  unfoldable pub difference : List Identifier → List Identifier → List Identifier
  difference [] s = []
  difference (id ∷ ids) s =
      let rest = difference ids s in if contains same id s then rest else id ∷ rest

  -- `for (const auto &id : removed) vertice->edges.erase(id)`
  unfoldable pub discard_all : List Identifier → List Identifier → List Identifier
  discard_all [] s = s
  discard_all (id ∷ ids) s = discard_all ids (discard same id s)

  -- The edges that the loop over `added` makes, and the vertices.
  unfoldable pub insert_all : List Identifier → List Identifier → List Identifier
  insert_all [] s = s
  insert_all (id ∷ ids) s = insert_all ids (insert same id s)

  unfoldable pub emplace_all : List Identifier → Vertices Identifier → Vertices Identifier
  emplace_all [] vs = vs
  emplace_all (id ∷ ids) vs = emplace_all ids (emplace same id new_vertice vs)

  abbrev is_empty : List Identifier → Bool
  is_empty [] = true
  is_empty (id ∷ ids) = false

  -- `bool updateEdges(const Identifier &id, const std::set<Identifier> &neighbors)` up to the call of
  -- `computeRoutingTable`, which follows where it is true: the vertices, and
  -- whether they changed.
  unfoldable pub update_edges :
      Vertices Identifier → Identifier → List Identifier → Result (Vertices Identifier × Bool)
  update_edges vs id neighbors = elim (find same id vs) [
    | none ↦ err vertice_not_found
    | some v ↦
        let added = difference neighbors v.edges in
        let removed = difference v.edges neighbors in
        let edges = insert_all added (discard_all removed v.edges) in
        if is_empty added && is_empty removed
        then ok (vs, false)
        else ok (emplace_all added (assign same id (record v { edges = edges }) vs), true)
  ]

  contains-difference :
      (j : Identifier) (ids s : List Identifier)
      → contains same j (difference ids s) ≡ (contains same j ids && not (contains same j s))
  unfolding contains difference
  contains-difference j [] s = refl
  contains-difference j (id ∷ ids) s = ground (arith, contains-difference j ids s)

  contains-discard_all :
      (j : Identifier) (ids s : List Identifier)
      → contains same j (discard_all ids s) ≡ (contains same j s && not (contains same j ids))
  unfolding contains discard_all
  contains-discard_all j [] s = ground arith
  contains-discard_all j (id ∷ ids) s =
      ground (arith, contains-discard_all j ids (discard same id s), contains-discard same id j s)

  contains-insert_all :
      (j : Identifier) (ids s : List Identifier)
      → contains same j (insert_all ids s) ≡ (contains same j s || contains same j ids)
  unfolding contains insert_all
  contains-insert_all j [] s = ground arith
  contains-insert_all j (id ∷ ids) s =
      ground (arith, contains-insert_all j ids (insert same id s), contains-insert same id j s)

  abbrev pub or_new : Option (Vertice Identifier) → Bool → Option (Vertice Identifier)
  or_new none fresh = if fresh then some new_vertice else none
  or_new (some v) fresh = some v

  find-emplace_all :
      (j : Identifier) (ids : List Identifier) (vs : Vertices Identifier)
      → find same j (emplace_all ids vs) ≡ or_new (find same j vs) (contains same j ids)
  unfolding contains emplace_all
  find-emplace_all j [] vs = ground arith
  find-emplace_all j (id ∷ ids) vs = ground (
    arith,
    find-emplace_all j ids (emplace same id new_vertice vs),
    find-emplace same id j new_vertice vs,
  )

  contains-empty :
      (j : Identifier) (ids : List Identifier) → is_empty ids ≡ true → contains same j ids ≡ false
  unfolding contains
  contains-empty j [] h = refl
  contains-empty j (id ∷ ids) h = ground arith

  new_edges : List Identifier → List Identifier → List Identifier
  new_edges edges neighbors =
      insert_all (difference neighbors edges) (discard_all (difference edges neighbors) edges)

  contains-new_edges :
      (j : Identifier) (edges neighbors : List Identifier)
      → contains same j (new_edges edges neighbors) ≡ contains same j neighbors
  unfolding new_edges
  contains-new_edges j edges neighbors = ground (
    arith,
    contains-insert_all j (difference neighbors edges)
        (discard_all (difference edges neighbors) edges),
    contains-discard_all j (difference edges neighbors) edges,
    contains-difference j neighbors edges,
    contains-difference j edges neighbors,
  )

  pub update_edges_lem :
      (vs : Vertices Identifier) (id : Identifier) (neighbors : List Identifier)
      (v : Vertice Identifier)
      → find same id vs ≡ some v
      → (ws : Vertices Identifier) × (changed : Bool) × (w : Vertice Identifier) × (update_edges vs
            id neighbors
          ≡ ok (ws, changed))
        × (w.state ≡ v.state)
        × ((j : Identifier) → contains same j w.edges ≡ contains same j neighbors)
        × ((j : Identifier)
            → find same j ws
              ≡ ite (same id j) (some w) (
                  or_new
                    (find same j vs)
                    (contains same j neighbors && not (contains same j v.edges))))
  unfolding update_edges new_edges
  update_edges_lem vs id neighbors v h =
      let added = difference neighbors v.edges in
      let removed = difference v.edges neighbors in
      let w : Vertice Identifier = record v { edges = new_edges v.edges neighbors } in
      elim (Bool-cases (is_empty added && is_empty removed)) [
        | inl e ↦ (
          vs,
          false,
          v,
          rw (h, update_edges) (rw e (λ i. ok (vs, false))),
          refl,
          λ j. ground (
            arith,
            e,
            contains-empty j added,
            contains-empty j removed,
            contains-difference j neighbors v.edges,
            contains-difference j v.edges neighbors,
          ),
          λ j.
              ground (arith, e, h, contains-empty j added, contains-difference j neighbors v.edges),
        )
        | inr e ↦ (
          emplace_all added (assign same id w vs),
          true,
          w,
          rw (h, update_edges) (rw e (λ i. ok (emplace_all added (assign same id w vs), true))),
          refl,
          λ j. contains-new_edges j v.edges neighbors,
          λ j. ground (
            arith,
            h,
            find-emplace_all j added (assign same id w vs),
            find-assign same id j w vs,
            contains-difference j neighbors v.edges,
          ),
        )
      ]

  emplace_all-IsMap :
      (ids : List Identifier) (vs : Vertices Identifier)
      → IsMap same vs
      → IsMap same (emplace_all ids vs)
  unfolding emplace_all
  emplace_all-IsMap [] vs m = m
  emplace_all-IsMap (id ∷ ids) vs m =
      emplace_all-IsMap ids (emplace same id new_vertice vs)
        (emplace-IsMap same id new_vertice vs m)

  first_of : (a b : Vertices Identifier × Bool) → ok a ≡ ok b → IsMap same a.0 → IsMap same b.0
  first_of a b h m = let e : a ≡ b = cc h in rw (← e) m

  -- Vertices stay a map.
  pub update_edges-IsMap :
      (vs ws : Vertices Identifier) (id : Identifier) (neighbors : List Identifier)
      (v : Vertice Identifier) (changed : Bool)
      → find same id vs ≡ some v
      → IsMap same vs
      → update_edges vs id neighbors ≡ ok (ws, changed)
      → IsMap same ws
  unfolding update_edges
  update_edges-IsMap vs ws id neighbors v changed h m k =
      let added = difference neighbors v.edges in
      let removed = difference v.edges neighbors in
      let w : Vertice Identifier = record v {
        edges = insert_all added (discard_all removed v.edges);
      } in
      let more : Vertices Identifier × Bool = (emplace_all added (assign same id w vs), true) in
      elim (Bool-cases (is_empty added && is_empty removed)) [
        | inl e ↦
            first_of (vs, false) (ws, changed)
              (sym (rw (h, update_edges) (rw e (λ i. ok (vs, false)))) ∙ k) m
        | inr e ↦
            first_of more (ws, changed) (sym (rw (h, update_edges) (rw e (λ i. ok more))) ∙ k)
              (emplace_all-IsMap added _ (assign-IsMap same id w vs m))
      ]

  -- A neighbour without an edge changes the edges.
  pub update_edges-new :
      (vs ws : Vertices Identifier) (id j : Identifier) (neighbors : List Identifier)
      (v : Vertice Identifier) (changed : Bool)
      → find same id vs ≡ some v
      → contains same j neighbors ≡ true
      → contains same j v.edges ≡ false
      → update_edges vs id neighbors ≡ ok (ws, changed)
      → changed ≡ true
  unfolding update_edges
  update_edges-new vs ws id j neighbors v changed h k n run =
      let added = difference neighbors v.edges in
      let removed = difference v.edges neighbors in
      let w : Vertice Identifier = record v {
        edges = insert_all added (discard_all removed v.edges);
      } in
      let more : Vertices Identifier × Bool = (emplace_all added (assign same id w vs), true) in
      let got : Vertices Identifier × Bool = (ws, changed) in
      let some_new : (is_empty added && is_empty removed) ≡ false =
        ground (arith, contains-empty j added, contains-difference j neighbors v.edges, k, n) in
      let same_result : ok more ≡ ok got =
        sym (rw (h, update_edges) (rw some_new (λ i. ok more))) ∙ run in
      let e : more ≡ got = cc same_result in sym (ap (λ (p : Vertices Identifier × Bool). p.1) e)
