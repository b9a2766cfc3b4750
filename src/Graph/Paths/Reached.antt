-- ===== src/Graph/Paths/Reached.antt =====
-- What `computeRoutingTable` of src/impl/graph.cpp computes.
use legio.Prelude.{
  ℕ, zero, suc, ◌<◌, ◌≡◌, refl, ap, ◌∙◌, ite, Bool, true, false, if◌then◌else◌, List, [], ◌∷◌,
  length, Option, none, some, has_value, find, assign, contains, find-assign, IsMap, assign-IsMap,
  All, arith, inl, inr, ok, Option-cases,
}
use legio.Prelude.Int.{pos, negsuc}
use legio.RoutingTable.{RoutingTable, empty_table, add, find_next_hop, find_next_hop-add}
use legio.Graph.{Vertice, Vertices, find_vertice}
use legio.Graph.Paths.{
  Queue, reset, relax_all, visit, search_loop, build_table, compute_routing_table,
}
use legio.Graph.Paths.Settled.{
  direct_hop, SameKeys, IsDirect, IsSettled, search_loop_ends, search_loop-step,
}
use legio.Graph.Paths.Start.{IsStarted, IsNear, relax_all-start, each_contained}

abbrev fresh : {Identifier : Type 0} → Vertice Identifier → Vertice Identifier
fresh v = record v { next_hop = none; distance = negsuc 0; visited = false }

abbrev started : {Identifier : Type 0} → Vertice Identifier → Vertice Identifier
started v = record v { next_hop = none; distance = pos 0; visited = false }

abbrev marked : {Identifier : Type 0} → Vertice Identifier → Vertice Identifier
marked v = record v { next_hop = none; distance = pos 0; visited = true }

abbrev pub fresh_or :
    {Identifier : Type 0} → Option (Vertice Identifier) → Option (Vertice Identifier)
fresh_or none = none
fresh_or (some v) = some (fresh v)

abbrev first_hop :
    {Identifier : Type 0} → Option Identifier → Option (Vertice Identifier) → Option Identifier
first_hop (some hop) v = some hop
first_hop none none = none
first_hop none (some v) = v.next_hop

module _ {Identifier : Type 0} (same : Discrete Identifier)
    (address_lt : Identifier → Identifier → Bool) (local : Identifier) where
  pub find-reset :
      (id : Identifier) (vs : Vertices Identifier)
      → find same id (reset vs) ≡ fresh_or (find same id vs)
  unfolding find reset
  find-reset id [] = refl
  find-reset id ((j, v) ∷ vs) = ground (arith, find-reset id vs)

  pub reset-IsMap : (vs : Vertices Identifier) → IsMap same vs → IsMap same (reset vs)
  unfolding reset
  reset-IsMap [] m = tt
  reset-IsMap ((j, v) ∷ vs) m = (find-reset j vs ∙ ap fresh_or m.0, reset-IsMap vs m.1)

  find_next_hop-build_table :
      (id : Identifier) (vs : Vertices Identifier) (table : RoutingTable Identifier)
      → IsMap same vs
      → find_next_hop same (build_table same address_lt vs table) id
        ≡ first_hop (find_next_hop same table id) (find same id vs)
  unfolding build_table find
  find_next_hop-build_table id [] table m = ground arith
  find_next_hop-build_table id ((j, v) ∷ vs) table m = elim (Option-cases v.next_hop) [
    | inl e ↦ rw (e, build_table) (ground (arith, m.0, find_next_hop-build_table id vs table m.1))
    | inr (hop, e) ↦
        rw (e, build_table)
          (ground (
            arith,
            m.0,
            find_next_hop-build_table id vs (add same table j hop) m.1,
            find_next_hop-add same table j hop id,
          ))
  ]

  start : Vertice Identifier → Vertices Identifier → Vertices Identifier
  start v vertices = assign same local (started v) (reset vertices)

  opened : Vertice Identifier → Vertices Identifier → Vertices Identifier
  opened v vertices = assign same local (marked v) (start v vertices)

  find-start :
      (id : Identifier) (v : Vertice Identifier) (vertices : Vertices Identifier)
      → find same local vertices ≡ some v
      → find same id (start v vertices)
        ≡ ite (same local id) (some (started v)) (fresh_or (find same id vertices))
  unfolding start
  find-start id v vertices e =
      ground (arith, find-assign same local id (started v) (reset vertices), find-reset id vertices)

  find-opened :
      (id : Identifier) (v : Vertice Identifier) (vertices : Vertices Identifier)
      → find same local vertices ≡ some v
      → find same id (opened v vertices)
        ≡ ite (same local id) (some (marked v)) (fresh_or (find same id vertices))
  unfolding opened
  find-opened id v vertices e =
      ground
        (arith, find-assign same local id (marked v) (start v vertices), find-start id v vertices e)

  opened-IsStarted :
      (v : Vertice Identifier) (vertices : Vertices Identifier)
      → find same local vertices ≡ some v
      → IsStarted same address_lt local v.edges (λ j. false) (opened v vertices)
  opened-IsStarted v vertices e = record {
    at_vertex =
        λ j w h. ground (arith, find-opened j v vertices e, Option-cases (find same j vertices), h);
  }

  -- The first round.
  visit-local :
      (v : Vertice Identifier) (vertices : Vertices Identifier) (queue : Queue Identifier)
      → find same local vertices ≡ some v
      → visit same address_lt (pos 0) local (start v vertices) queue
        ≡ relax_all same address_lt none (pos 0) v.edges (opened v vertices) queue
  unfolding visit opened find_vertice
  visit-local v vertices queue e =
      let found : find same local (start v vertices) ≡ some (started v) =
        find-start local v vertices e ∙ ground arith in
      rw (found, visit) refl

  IsNear-IsDirect :
      (es : List Identifier) (queue : Queue Identifier)
      → All (IsNear same address_lt local es) queue
      → All (IsDirect same address_lt local es) queue
  unfolding IsDirect
  IsNear-IsDirect es [] a = tt
  IsNear-IsDirect es ((d, id) ∷ queue) a = (ground (arith, a.0), IsNear-IsDirect es queue a.1)

  settle :
      (es : List Identifier) (vs : Vertices Identifier)
      → IsStarted same address_lt local es (λ j. contains same j es) vs
      → IsSettled same address_lt local es vs
  settle es vs s = record { hops = λ id v h. ((s.at_vertex id v h).0, (s.at_vertex id v h).1) }

  table_settled :
      (v : Vertice Identifier) (vertices vs : Vertices Identifier) (id : Identifier)
      → find same local vertices ≡ some v
      → IsSettled same address_lt local v.edges vs
      → IsMap same vs
      → SameKeys same address_lt local v.edges (opened v vertices) vs
      → find_next_hop same (build_table same address_lt vs empty_table) id ≡ (
          if has_value (find same id vertices)
          then direct_hop same address_lt local v.edges id
          else none)
  unfolding find_next_hop find
  table_settled v vertices vs id e s m k =
      find_next_hop-build_table id vs empty_table m ∙ elim (Option-cases (find same id vs)) [
        | inl h ↦ ground (arith, find-opened id v vertices e, k id, h)
        | inr (w, h) ↦ ground (arith, find-opened id v vertices e, k id, h, s.hops id w h)
      ]

  compute-search :
      (rounds : ℕ) (v : Vertice Identifier) (vertices vs : Vertices Identifier)
      → find same local vertices ≡ some v
      → search_loop same address_lt rounds (start v vertices) ((pos 0, local) ∷ []) ≡ some vs
      → compute_routing_table same address_lt rounds local vertices
        ≡ some (ok (vs, build_table same address_lt vs empty_table))
  unfolding compute_routing_table start find_vertice
  compute-search rounds v vertices vs e run =
      let found : find same local (reset vertices) ≡ some (fresh v) =
        find-reset local vertices ∙ ap fresh_or e in
      rw (found, compute_routing_table) (rw run refl)

  -- The loop ends after at most one round for the local vertex and one for each of its edges, and the
  -- table of next hops then has exactly the nodes that an edge of the local vertex leads to, the local
  -- one left out, each as its own next hop. This holds of the vertices `vertices`, a map in which
  -- `v` is the local vertex, with at least that number of rounds.
  pub compute_routing_table-direct :
      (rounds : ℕ) (v : Vertice Identifier) (vertices : Vertices Identifier)
      → find same local vertices ≡ some v
      → IsMap same vertices
      → length v.edges < rounds
      → (found : Vertices Identifier) × (table : RoutingTable Identifier) × (compute_routing_table
            same address_lt rounds local vertices
          ≡ some (ok (found, table)))
        × ((id : Identifier)
            → find_next_hop same table id ≡ (
                if has_value (find same id vertices)
                then direct_hop same address_lt local v.edges id
                else none))
  unfolding compute_routing_table start opened find_vertice
  compute_routing_table-direct zero v vertices e m l = ground arith
  compute_routing_table-direct (suc rounds) v vertices e m l =
      let es = v.edges in
      let m1 = assign-IsMap same local (started v) _ (reset-IsMap vertices m) in
      let m2 = assign-IsMap same local (marked v) _ m1 in
      let (ws, queue, run, s, m3, k, near, l1) =
        relax_all-start same address_lt local es (λ j. false) es (opened v vertices) []
          (each_contained same address_lt local es es (λ j c. c)) (opened-IsStarted v vertices e) m2
          tt in
      let (us, ran, s', m4, k') =
        search_loop_ends same address_lt local es rounds ws queue (omega (arith, l1, l))
          (IsNear-IsDirect es queue near) (settle es ws s) m3 in
      (
        us,
        build_table same address_lt us empty_table,
        compute-search (suc rounds) v vertices us e (
            search_loop-step same address_lt local es rounds (pos 0) local (start v vertices) ws []
              queue (visit-local v vertices ((pos 0, local) ∷ []) e ∙ run)
            ∙ ran),
        λ id. table_settled v vertices us id e s' m4 (λ j. k' j ∙ k j),
      )
