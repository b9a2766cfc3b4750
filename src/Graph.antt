-- ===== src/Graph.antt =====
-- The vertices of `class Graph` in src/impl/graph.hpp. A `shared_ptr<Vertice>` is the identifier of
-- the vertex: `mVertices` holds each vertex under its own identifier and never drops one.
pub mod Paths
pub mod Edges
pub mod World
pub mod Updates
use legio.Prelude.{ℕ, List, Option, none, find, Bool, false, []}
use legio.Prelude.Int.{ℤ, negsuc}
use legio.State.{State}

-- `struct Graph::Vertice`; the keys of `edges` are the identifiers of the vertices that they lead to.
pub record Vertice (Identifier : Type 0) : Type 0 where
  pub state : Option (State Identifier)
  pub edges : List Identifier
  pub next_hop : Option Identifier
  pub distance : ℤ
  pub visited : Bool

-- `Vertice(Identifier _id)`
abbrev pub new_vertice : {Identifier : Type 0} → Vertice Identifier
new_vertice = record {
  state = none;
  edges = [];
  next_hop = none;
  distance = negsuc 0;
  visited = false;
}

-- `mVertices`
abbrev pub Vertices : Type 0 → Type 0
Vertices Identifier = List (Identifier × Vertice Identifier)

-- `findVertice(id)`
unfoldable pub find_vertice :
    {Identifier : Type 0}
    → Discrete Identifier
    → Vertices Identifier
    → Identifier
    → Option (Vertice Identifier)
find_vertice same vs id = find same id vs
