-- ===== src/Graph/Updates/Kept.antt =====
-- What `computeRoutingTable` and `updateEdges` of src/impl/graph.cpp do to a graph whose local vertex
-- is known.
use legio.Prelude.{
  ℕ, suc, [], ◌∷◌, ◌<◌, ◌≤◌, ◌≡◌, refl, ◌∙◌, Bool, true, false, if◌then◌else◌, List, length, Option,
  none, some, has_value, find, IsMap, arith, inl, inr, Bool-cases,
}
use legio.Crypto.{CryptoPp}
use legio.ByteOrder.{Endian}
use legio.State.{State, set_insert}
use legio.RoutingTable.{find_next_hop}
use legio.Routing.{Channel, Channels, set_table}
use legio.Graph.{Vertice, Vertices}
use legio.Graph.Edges.{update_edges_lem, update_edges-IsMap}
use legio.Graph.Paths.Settled.{direct_hop}
use legio.Graph.Paths.Reached.{compute_routing_table-direct}
use legio.Graph.Paths.Kept.{content, compute-Keeps}
use legio.Graph.World.{World, returned}
use legio.Graph.Updates.{local_id, recompute, change_edges, edges_of, set_table, sorted_neighbors}

-- The state that is held of a node.
abbrev pub state_of :
    {Identifier : Type 0} → Option (Vertice Identifier) → Option (State Identifier)
state_of none = none
state_of (some v) = v.state

module _ (c : CryptoPp) (e : Endian) (pair : c.PrivateKey) (net : Channels) (entropy : ℕ → ℕ)
    (address_lt : c.Point → c.Point → Bool) where
  open c use {Point, same_point, point_lt}

  abbrev pub me : Point
  me = local_id c e pair net entropy address_lt

  -- What a new computation of the table and new edges leave.
  pub record IsKept (w w' : World c) : Type 0 where
    pub map : IsMap same_point w'.vertices
    pub known :
        (j : Point)
        → has_value (find same_point j w.vertices) ≡ true
        → has_value (find same_point j w'.vertices) ≡ true
    pub states :
        (j : Point)
        → state_of (find same_point j w'.vertices) ≡ state_of (find same_point j w.vertices)
    pub ecdh : w'.ecdh ≡ w.ecdh
    pub state_sequence : w'.state_sequence ≡ w.state_sequence
    pub neighbors : w'.routing.neighbors ≡ w.routing.neighbors

  -- The table leads to exactly the vertices that `v` has edges to.
  pub record IsDirected (v : Vertice Point) (vs : Vertices Point) (w : World c) : Type 0 where
    pub shared : w.routing.table ≡ some w.routing_table
    pub hops :
        (id : Point)
        → find_next_hop same_point w.routing_table id ≡ (
            if has_value (find same_point id vs)
            then direct_hop same_point address_lt me v.edges id
            else none)

  content-state :
      (o o' : Option (Vertice Point)) → content o' ≡ content o → state_of o' ≡ state_of o
  content-state none none h = refl
  content-state none (some v) h = cc h
  content-state (some v) none h = cc h
  content-state (some v) (some v') h = cc h

  content-known :
      (o o' : Option (Vertice Point))
      → content o' ≡ content o
      → has_value o ≡ true
      → has_value o' ≡ true
  content-known none o' h k = cc k
  content-known (some v) none h k = cc h
  content-known (some v) (some v') h k = refl

  pub recompute-IsKept :
      (w : World c) (v : Vertice Point)
      → find same_point me w.vertices ≡ some v
      → IsMap same_point w.vertices
      → (w' : World c) × (recompute c e pair net entropy address_lt w ≡ (w', returned tt))
        × IsKept w w'
        × IsDirected v w.vertices w'
  unfolding recompute edges_of set_table
  recompute-IsKept w v h m =
      let rounds = suc (length (edges_of (find same_point me w.vertices))) in
      let enough : length v.edges < rounds = rw h (omega arith) in
      let (found, table, run, hops) =
        compute_routing_table-direct same_point address_lt me rounds v w.vertices h m enough in
      let kept = compute-Keeps same_point address_lt rounds me w.vertices found table run in
      (
        record w { vertices = found; routing_table = table; routing = set_table w.routing table },
        rw (run, recompute) refl,
        record {
          map = kept.map m;
          known = λ j. content-known _ _ (kept.at j);
          states = λ j. content-state _ _ (kept.at j);
          ecdh = refl;
          state_sequence = refl;
          neighbors = refl;
        },
        record { shared = refl; hops = hops },
      )

  IsKept-refl : (w : World c) → IsMap same_point w.vertices → IsKept w w
  IsKept-refl w m = record {
    map = m;
    known = λ j k. k;
    states = λ j. refl;
    ecdh = refl;
    state_sequence = refl;
    neighbors = refl;
  }

  pub IsKept-trans : (u v w : World c) → IsKept u v → IsKept v w → IsKept u w
  IsKept-trans u v w a b = record {
    map = b.map;
    known = λ j k. b.known j (a.known j k);
    states = λ j. b.states j ∙ a.states j;
    ecdh = b.ecdh ∙ a.ecdh;
    state_sequence = b.state_sequence ∙ a.state_sequence;
    neighbors = b.neighbors ∙ a.neighbors;
  }

  pub found : (o : Option (Vertice Point)) → has_value o ≡ true → (v : Vertice Point) × (o ≡ some v)
  found none h = cc h
  found (some v) h = (v, refl)

  -- The edges of a known vertex can be changed without an error, whatever the neighbours.
  pub change_edges-IsKept :
      (w : World c) (id : Point) (neighbors : List Point)
      → IsMap same_point w.vertices
      → has_value (find same_point me w.vertices) ≡ true
      → has_value (find same_point id w.vertices) ≡ true
      → (w' : World c) × (changed : Bool) × (change_edges c e pair net entropy address_lt id
            neighbors w
          ≡ (w', returned changed))
        × IsKept w w'
  unfolding change_edges
  change_edges-IsKept w id neighbors m l k =
      let (v, at) = found (find same_point id w.vertices) k in
      let (vs, changed, v', run, state, edges, all) =
        update_edges_lem same_point w.vertices id neighbors v at in
      let w1 : World c = record w { vertices = vs } in
      let kept : IsKept w w1 = record {
        map = update_edges-IsMap same_point w.vertices vs id neighbors v changed at m run;
        known = λ j h. ground (arith, all j, h);
        states = λ j. ground (arith, all j, state, at);
        ecdh = refl;
        state_sequence = refl;
        neighbors = refl;
      } in
      let (lv, local) = found (find same_point me vs) (kept.known me l) in
      let (w2, ran, kept', directed) = recompute-IsKept w1 lv local kept.map in
      elim (Bool-cases changed) [
        | inl b ↦
            (w2, true, rw (run, change_edges) (rw b (rw ran refl)), IsKept-trans w w1 w2 kept kept')
        | inr b ↦ (w, false, rw (run, change_edges) (rw b refl), IsKept-refl w m)
      ]

  length-set_insert :
      (id : Point) (ids : List Point) → length (set_insert point_lt id ids) ≤ suc (length ids)
  unfolding set_insert
  length-set_insert id [] = omega arith
  length-set_insert id (j ∷ ids) = ground (arith, length-set_insert id ids)

  pub length-sorted_neighbors :
      (m : List (Point × Channel))
      → length (sorted_neighbors c e pair net entropy address_lt m) ≤ length m
  unfolding sorted_neighbors
  length-sorted_neighbors [] = omega arith
  length-sorted_neighbors ((id, channel) ∷ m) = omega (
    arith,
    length-set_insert id (sorted_neighbors c e pair net entropy address_lt m),
    length-sorted_neighbors m,
  )
