-- ===== src/RoutingTable.antt =====
-- src/impl/routingtable.hpp and routingtable.cpp: the next hop for each node that can be reached.
use legio.Prelude.{
  ℕ, ◌≡◌, ite, List, [], length, Option, none, some, find, emplace, erase, keys, old_or,
  find-emplace, find-erase, arith,
}

pub record RoutingTable (Identifier : Type 0) : Type 0 where
  pub next_hops : List (Identifier × Identifier)

-- `RoutingTable()`, and `void clear()`
abbrev pub empty_table : {Identifier : Type 0} → RoutingTable Identifier
empty_table = record { next_hops = [] }

module _ {Identifier : Type 0} (same : Discrete Identifier) where
  -- `void add(const Identifier &node, const Identifier &nextHop)`
  unfoldable pub add : RoutingTable Identifier → Identifier → Identifier → RoutingTable Identifier
  add t node next_hop = record { next_hops = emplace same node next_hop t.next_hops }

  unfoldable pub remove_at :
      RoutingTable Identifier
      → Identifier
      → Identifier
      → Option Identifier
      → RoutingTable Identifier
  remove_at t node next_hop none = t
  remove_at t node next_hop (some hop) =
      ite (same hop next_hop) (record { next_hops = erase same node t.next_hops }) t

  -- `void remove(const Identifier &node, const Identifier &nextHop)`
  unfoldable pub remove :
      RoutingTable Identifier → Identifier → Identifier → RoutingTable Identifier
  unfolding remove_at
  remove t node next_hop = remove_at t node next_hop (find same node t.next_hops)

  -- `optional<Identifier> findNextHop(const Identifier &id)`
  unfoldable pub find_next_hop : RoutingTable Identifier → Identifier → Option Identifier
  find_next_hop t id = find same id t.next_hops

  -- `std::vector<Identifier> nodes() const`, `int count() const`
  unfoldable pub nodes : RoutingTable Identifier → List Identifier
  nodes t = keys same t.next_hops

  unfoldable pub count : RoutingTable Identifier → ℕ
  count t = length t.next_hops

  -- The first next hop that is added for a node stays, and no other entry changes.
  pub find_next_hop-add :
      (t : RoutingTable Identifier) (node hop id : Identifier)
      → find_next_hop (add t node hop) id
        ≡ ite (same node id) (some (old_or same (find_next_hop t id) hop)) (find_next_hop t id)
  unfolding find_next_hop add
  find_next_hop-add t node hop id = find-emplace same node id hop t.next_hops

  -- What is left of an entry when its removal with a next hop is asked for.
  abbrev pub unless_hop : Option Identifier → Identifier → Option Identifier
  unless_hop none next_hop = none
  unless_hop (some hop) next_hop = ite (same hop next_hop) none (some hop)

  -- An entry is removed only with the next hop that it has, and every other entry stays.
  pub find_next_hop-remove :
      (t : RoutingTable Identifier) (node hop id : Identifier)
      → find_next_hop (remove t node hop) id
        ≡ ite (same node id) (unless_hop (find_next_hop t id) hop) (find_next_hop t id)
  unfolding find_next_hop remove
  find_next_hop-remove t node hop id = ground (arith, find-erase same node id t.next_hops)
