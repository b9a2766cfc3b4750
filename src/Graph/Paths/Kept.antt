-- ===== src/Graph/Paths/Kept.antt =====
-- What `computeRoutingTable` of src/impl/graph.cpp leaves as it is.
use legio.Prelude.{
  ℕ, zero, suc, ◌≡◌, refl, ◌∙◌, List, [], ◌∷◌, Option, none, some, find, assign, find-assign, IsMap,
  assign-IsMap, arith, inl, inr, Result, ok, Option-cases, if◌then◌else◌, ap, true, false, sym,
}
use mathlib.Core.Option.{some-injective}
use legio.Prelude.Int.{ℤ, pos}
use legio.RoutingTable.{RoutingTable}
use legio.State.{State}
use legio.Graph.{Vertice, Vertices, find_vertice, Bool}
use legio.Graph.Paths.{
  Queue, reset, relax, relax_all, visit, search_loop, compute_routing_table, err, build_table,
  empty_table, missing_local_node,
}
use legio.Graph.Paths.Reached.{find-reset, reset-IsMap, fresh_or}

-- What is known of a node, apart from the paths to it.
abbrev pub content :
    {Identifier : Type 0}
    → Option (Vertice Identifier)
    → Option (Option (State Identifier) × List Identifier)
content none = none
content (some v) = some (v.state, v.edges)

module _ {Identifier : Type 0} (same : Discrete Identifier)
    (address_lt : Identifier → Identifier → Bool) where
  -- The same vertices, with the same states and edges.
  pub record Keeps (vs ws : Vertices Identifier) : Type 0 where
    pub at : (j : Identifier) → content (find same j ws) ≡ content (find same j vs)
    pub map : IsMap same vs → IsMap same ws

  Keeps-refl : (vs : Vertices Identifier) → Keeps vs vs
  Keeps-refl vs = record { at = λ j. refl; map = λ m. m }

  Keeps-trans : (us vs ws : Vertices Identifier) → Keeps us vs → Keeps vs ws → Keeps us ws
  Keeps-trans us vs ws a b = record { at = λ j. b.at j ∙ a.at j; map = λ m. b.map (a.map m) }

  assign-Keeps :
      (id : Identifier) (v w : Vertice Identifier) (vs : Vertices Identifier)
      → find same id vs ≡ some v
      → content (some w) ≡ content (some v)
      → Keeps vs (assign same id w vs)
  assign-Keeps id v w vs e k = record {
    at = λ j. ground (arith, find-assign same id j w vs, e, k);
    map = assign-IsMap same id w vs;
  }

  if-Keeps :
      (b : Bool) (vs : Vertices Identifier) (a a' : Vertices Identifier × Queue Identifier)
      → Keeps vs a.0
      → Keeps vs a'.0
      → Keeps vs (if b then a else a').0
  if-Keeps true vs a a' h k = h
  if-Keeps false vs a a' h k = k

  relax-Keeps :
      (hop : Option Identifier) (d : ℤ) (id : Identifier) (vs : Vertices Identifier)
      (queue : Queue Identifier)
      → Keeps vs (relax same address_lt hop d id vs queue).0
  unfolding relax find_vertice
  relax-Keeps hop d id vs queue = elim (Option-cases (find same id vs)) [
    | inl e ↦ rw (e, relax) (Keeps-refl vs)
    | inr (v, e) ↦ rw (e, relax) (if-Keeps _ vs _ _ (assign-Keeps id v _ vs e refl) (Keeps-refl vs))
  ]

  relax_all-Keeps :
      (hop : Option Identifier) (d : ℤ) (ids : List Identifier) (vs : Vertices Identifier)
      (queue : Queue Identifier)
      → Keeps vs (relax_all same address_lt hop d ids vs queue).0
  unfolding relax_all
  relax_all-Keeps hop d [] vs queue = Keeps-refl vs
  relax_all-Keeps hop d (id ∷ ids) vs queue =
      let next = relax same address_lt hop d id vs queue in
      Keeps-trans vs next.0 _ (relax-Keeps hop d id vs queue)
        (relax_all-Keeps hop d ids next.0 next.1)

  visit-Keeps :
      (d : ℤ) (id : Identifier) (vs : Vertices Identifier) (queue : Queue Identifier)
      → Keeps vs (visit same address_lt d id vs queue).0
  unfolding visit find_vertice
  visit-Keeps d id vs queue = elim (Option-cases (find same id vs)) [
    | inl e ↦ rw (e, visit) (Keeps-refl vs)
    | inr (v, e) ↦
        rw (e, visit)
          (if-Keeps v.visited vs _ _ (Keeps-refl vs) (
            Keeps-trans vs _ _ (assign-Keeps id v _ vs e refl)
              (relax_all-Keeps v.next_hop d v.edges _ queue)))
  ]

  search_loop-Keeps :
      (rounds : ℕ) (vs ws : Vertices Identifier) (queue : Queue Identifier)
      → search_loop same address_lt rounds vs queue ≡ some ws
      → Keeps vs ws
  unfolding search_loop
  search_loop-Keeps rounds vs ws [] h = rw (← some-injective vs ws h) (Keeps-refl vs)
  search_loop-Keeps zero vs ws (top ∷ queue) h = cc h
  search_loop-Keeps (suc rounds) vs ws ((d, id) ∷ queue) h =
      Keeps-trans vs _ ws (visit-Keeps d id vs ((d, id) ∷ queue))
        (search_loop-Keeps rounds _ ws _ h)

  content-fresh : (o : Option (Vertice Identifier)) → content (fresh_or o) ≡ content o
  content-fresh none = refl
  content-fresh (some v) = refl

  reset-Keeps : (local : Identifier) (vs : Vertices Identifier) → Keeps vs (reset vs)
  reset-Keeps local vs = record {
    at = λ j. ap content (find-reset same address_lt local j vs) ∙ content-fresh (find same j vs);
    map = reset-IsMap same address_lt local vs;
  }

  -- What a search that ends with `us` makes of the vertices.
  abbrev outcome :
      Option (Vertices Identifier) → Option (Result (Vertices Identifier × RoutingTable Identifier))
  outcome none = none
  outcome (some us) = some (ok (us, build_table same address_lt us empty_table))

  started_at : Identifier → Vertice Identifier → Vertices Identifier → Vertices Identifier
  started_at local v vs =
      assign same local (record v { next_hop = none; distance = pos 0 }) (reset vs)

  compute-outcome :
      (rounds : ℕ) (local : Identifier) (v : Vertice Identifier) (vs : Vertices Identifier)
      → find same local (reset vs) ≡ some v
      → compute_routing_table same address_lt rounds local vs
        ≡ outcome (search_loop same address_lt rounds (started_at local v vs) ((pos 0, local) ∷ []))
  unfolding compute_routing_table find_vertice started_at
  compute-outcome rounds local v vs e =
      rw (e, compute_routing_table)
        (elim (Option-cases
          (search_loop same address_lt rounds (started_at local v vs) ((pos 0, local) ∷ []))) [
            | inl k ↦ rw k refl
            | inr (us, k) ↦ rw k refl
          ])

  compute-missing :
      (rounds : ℕ) (local : Identifier) (vs : Vertices Identifier)
      → find same local (reset vs) ≡ none
      → compute_routing_table same address_lt rounds local vs ≡ some (err missing_local_node)
  unfolding compute_routing_table find_vertice
  compute-missing rounds local vs e = rw (e, compute_routing_table) refl

  outcome-inverse :
      (o : Option (Vertices Identifier)) (ws : Vertices Identifier)
      (table : RoutingTable Identifier)
      → outcome o ≡ some (ok (ws, table))
      → o ≡ some ws
  outcome-inverse none ws table h = cc h
  outcome-inverse (some us) ws table h = cc h

  -- The computation changes no state, no edge, and adds no vertex.
  pub compute-Keeps :
      (rounds : ℕ) (local : Identifier) (vs ws : Vertices Identifier)
      (table : RoutingTable Identifier)
      → compute_routing_table same address_lt rounds local vs ≡ some (ok (ws, table))
      → Keeps vs ws
  unfolding started_at
  compute-Keeps rounds local vs ws table h = elim (Option-cases (find same local (reset vs))) [
    | inl e ↦ cc (h, compute-missing rounds local vs e)
    | inr (v, e) ↦
        Keeps-trans vs (started_at local v vs) ws
          (Keeps-trans vs (reset vs) _ (reset-Keeps local vs)
            (assign-Keeps local v _ (reset vs) e refl))
          (search_loop-Keeps rounds _ ws _
            (outcome-inverse _ ws table (sym (compute-outcome rounds local v vs e) ∙ h)))
  ]
