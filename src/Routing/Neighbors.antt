-- ===== src/Routing/Neighbors.antt =====
-- The registry of channels and neighbours stays consistent under every operation.
use legio.Prelude.{
  ◌&&◌, ◌≡◌, refl, ite, true, false, not, ◌==◌, if◌then◌else◌, List, [], ◌∷◌, Option, none, some,
  find, emplace, erase, contains, insert, discard, ℕ_discrete, contains-insert, contains-discard,
  find-emplace, IsMap, emplace-IsMap, erase-IsMap, arith,
}
use legio.RoutingTable.{RoutingTable}
use legio.Routing.{
  Channel, neighbor, Routing, init, add_channel, drop_links, remove_channel, set_table,
  add_neighbor, remove_neighbor, has_neighbor,
}

-- The calls that change the registry.
pub data Call (Identifier : Type 0) : Type 0 where
  adds_channel removes_channel : Channel → Call Identifier
  adds_neighbor removes_neighbor : Identifier → Channel → Call Identifier
  sets_table : RoutingTable Identifier → Call Identifier

module _ {Identifier : Type 0} (same : Discrete Identifier) where
  pub step : Routing Identifier → Call Identifier → Routing Identifier
  step r (adds_channel c) = add_channel r c
  step r (removes_channel c) = remove_channel r c
  step r (adds_neighbor id c) = (add_neighbor same r id c).0
  step r (removes_neighbor id c) = (remove_neighbor same r id c).0
  step r (sets_table t) = set_table r t

  pub run : Routing Identifier → List (Call Identifier) → Routing Identifier
  run r [] = r
  run r (c ∷ cs) = run (step r c) cs

  -- Every neighbour's channel is known, and so are exactly the channels whose messages are taken.
  abbrev pub Linked : List Channel → List (Identifier × Channel) → Type 0
  Linked channels [] = Unit {0}
  Linked channels ((id, c) ∷ m) = (contains ℕ_discrete c channels ≡ true) × Linked channels m

  pub record IsConsistent (r : Routing Identifier) : Type 0 where
    pub linked : Linked r.channels r.neighbors
    pub receiving_all :
        (c : Channel) → contains ℕ_discrete c r.receiving ≡ contains ℕ_discrete c r.channels
    pub one_link : IsMap same r.neighbors

  insert-Linked :
      (c : Channel) (cs : List Channel) (m : List (Identifier × Channel))
      → Linked cs m
      → Linked (insert ℕ_discrete c cs) m
  insert-Linked c cs [] h = tt
  insert-Linked c cs ((id, d) ∷ m) h =
      ground (arith, contains-insert ℕ_discrete c d cs, insert-Linked c cs m h.1)

  drop_links-Linked :
      (c : Channel) (cs : List Channel) (m : List (Identifier × Channel))
      → Linked cs m
      → Linked (discard ℕ_discrete c cs) (drop_links c m)
  unfolding drop_links
  drop_links-Linked c cs [] h = tt
  drop_links-Linked c cs ((id, d) ∷ m) h =
      ground (arith, contains-discard ℕ_discrete c d cs, drop_links-Linked c cs m h.1)

  drop_links-keeps :
      (c : Channel) (cs : List Channel) (m : List (Identifier × Channel))
      → Linked cs m
      → Linked cs (drop_links c m)
  unfolding drop_links
  drop_links-keeps c cs [] h = tt
  drop_links-keeps c cs ((id, d) ∷ m) h = ground (arith, drop_links-keeps c cs m h.1)

  emplace-Linked :
      (id : Identifier) (c : Channel) (cs : List Channel) (m : List (Identifier × Channel))
      → contains ℕ_discrete c cs ≡ true
      → Linked cs m
      → Linked cs (emplace same id c m)
  unfolding emplace
  emplace-Linked id c cs [] k h = (k, tt)
  emplace-Linked id c cs ((j, d) ∷ m) k h = ground (arith, emplace-Linked id c cs m k h.1)

  erase-Linked :
      (id : Identifier) (cs : List Channel) (m : List (Identifier × Channel))
      → Linked cs m
      → Linked cs (erase same id m)
  unfolding erase
  erase-Linked id cs [] h = tt
  erase-Linked id cs ((j, d) ∷ m) h = ground (arith, erase-Linked id cs m h.1)

  -- What is found after links were dropped, in a map.
  abbrev pub unless_channel : Option Channel → Channel → Option Channel
  unless_channel none c = none
  unless_channel (some d) c = if d == c then none else some d

  find-drop_links :
      (c : Channel) (id : Identifier) (m : List (Identifier × Channel))
      → IsMap same m
      → find same id (drop_links c m) ≡ unless_channel (find same id m) c
  unfolding find drop_links
  find-drop_links c id [] h = refl
  find-drop_links c id ((j, d) ∷ m) h = ground (arith, find-drop_links c id m h.1)

  drop_links-IsMap :
      (c : Channel) (m : List (Identifier × Channel)) → IsMap same m → IsMap same (drop_links c m)
  unfolding drop_links
  drop_links-IsMap c [] h = tt
  drop_links-IsMap c ((j, d) ∷ m) h =
      ground (arith, find-drop_links c j m h.1, drop_links-IsMap c m h.1)

  pub init-IsConsistent : IsConsistent init
  unfolding init
  init-IsConsistent = record { linked = tt; receiving_all = λ c. refl; one_link = tt }

  pub add_channel-IsConsistent :
      (r : Routing Identifier) (c : Channel) → IsConsistent r → IsConsistent (add_channel r c)
  unfolding add_channel
  add_channel-IsConsistent r c v = record {
    linked = insert-Linked c r.channels r.neighbors v.linked;
    receiving_all = λ d. ground (
      arith,
      v.receiving_all d,
      contains-insert ℕ_discrete c d r.channels,
      contains-insert ℕ_discrete c d r.receiving,
    );
    one_link = v.one_link;
  }

  pub remove_channel-IsConsistent :
      (r : Routing Identifier) (c : Channel) → IsConsistent r → IsConsistent (remove_channel r c)
  unfolding remove_channel
  remove_channel-IsConsistent r c v = record {
    linked = ground (
      arith,
      drop_links-Linked c r.channels r.neighbors v.linked,
      drop_links-keeps c r.channels r.neighbors v.linked,
    );
    receiving_all = λ d. ground (
      arith,
      v.receiving_all d,
      contains-discard ℕ_discrete c d r.channels,
      contains-discard ℕ_discrete c d r.receiving,
    );
    one_link = drop_links-IsMap c r.neighbors v.one_link;
  }

  pub add_neighbor-IsConsistent :
      (r : Routing Identifier) (id : Identifier) (c : Channel)
      → IsConsistent r
      → IsConsistent (add_neighbor same r id c).0
  unfolding add_neighbor
  add_neighbor-IsConsistent r id c v = record {
    linked = ground (arith, emplace-Linked id c r.channels r.neighbors);
    receiving_all = λ d. ground (arith, v.receiving_all d);
    one_link = ground (arith, emplace-IsMap same id c r.neighbors v.one_link);
  }

  remove_neighbor-IsConsistent :
      (r : Routing Identifier) (id : Identifier) (c : Channel)
      → IsConsistent r
      → IsConsistent (remove_neighbor same r id c).0
  unfolding remove_neighbor
  remove_neighbor-IsConsistent r id c v = record {
    linked = ground (arith, erase-Linked id r.channels r.neighbors v.linked);
    receiving_all = λ d. ground (arith, v.receiving_all d);
    one_link = ground (arith, erase-IsMap same id r.neighbors v.one_link);
  }

  pub set_table-IsConsistent :
      (r : Routing Identifier) (t : RoutingTable Identifier)
      → IsConsistent r
      → IsConsistent (set_table r t)
  unfolding set_table
  set_table-IsConsistent r t v = record {
    linked = v.linked;
    receiving_all = v.receiving_all;
    one_link = v.one_link;
  }

  -- Each call keeps the registry consistent: every neighbour is linked by a known channel, messages
  -- are taken from exactly the known channels, and no identifier has two links.
  pub step-IsConsistent :
      (r : Routing Identifier) (c : Call Identifier) → IsConsistent r → IsConsistent (step r c)
  unfolding step
  step-IsConsistent r (adds_channel c) v = add_channel-IsConsistent r c v
  step-IsConsistent r (removes_channel c) v = remove_channel-IsConsistent r c v
  step-IsConsistent r (adds_neighbor id c) v = add_neighbor-IsConsistent r id c v
  step-IsConsistent r (removes_neighbor id c) v = remove_neighbor-IsConsistent r id c v
  step-IsConsistent r (sets_table t) v = set_table-IsConsistent r t v

  run_from-IsConsistent :
      (r : Routing Identifier) (cs : List (Call Identifier))
      → IsConsistent r
      → IsConsistent (run r cs)
  unfolding run
  run_from-IsConsistent r [] v = v
  run_from-IsConsistent r (c ∷ cs) v = run_from-IsConsistent (step r c) cs (step-IsConsistent r c v)

  -- After any history of calls on a new `Routing` every neighbour is linked by a known channel,
  -- messages are taken from exactly the known channels, and no identifier has two links.
  pub run-IsConsistent : (cs : List (Call Identifier)) → IsConsistent (run init cs)
  run-IsConsistent cs = run_from-IsConsistent init cs init-IsConsistent

  -- In a consistent registry `removeChannel` forgets the channel and exactly the neighbours that it
  -- linked.
  pub remove_channel-forgets :
      (r : Routing Identifier) (c d : Channel) (id : Identifier)
      → IsConsistent r
      → (contains ℕ_discrete d (remove_channel r c).channels
          ≡ (if c == d then false else contains ℕ_discrete d r.channels))
        × (find same id (remove_channel r c).neighbors
            ≡ unless_channel (find same id r.neighbors) c)
  unfolding remove_channel
  remove_channel-forgets r c d id v = (
    ground (arith, contains-discard ℕ_discrete c d r.channels),
    find-drop_links c id r.neighbors v.one_link,
  )

  -- `addNeighbor` links an identifier that has no link over a known channel and says so by an
  -- event; else it changes nothing and emits nothing.
  pub add_neighbor_lem :
      (r : Routing Identifier) (id j : Identifier) (c : Channel)
      → let fresh = contains ℕ_discrete c r.channels && not (has_neighbor same r id) in
        let after = add_neighbor same r id c in
        (after.1 ≡ (if fresh then some (neighbor id (some c)) else none))
        × (find same j after.0.neighbors ≡ (
            if fresh
            then ite (same id j) (some c) (find same j r.neighbors)
            else find same j r.neighbors))
  unfolding add_neighbor has_neighbor
  add_neighbor_lem r id j c = ground (arith, find-emplace same id j c r.neighbors)
