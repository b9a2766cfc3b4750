-- ===== src/Graph/World.antt =====
-- What the calls of `Graph` change: its own members and those of `Routing`, with what is written to
-- the channels. A call can return, throw, or run into undefined behaviour; `unfinished` means that
-- the rounds given to a recursion did not suffice.
use legio.Prelude.{ℕ, List, Error}
use legio.Crypto.{CryptoPp}
use legio.Routing.{Channel, Routing}
use legio.RoutingTable.{RoutingTable}
use legio.Graph.{Vertices}

-- The members of `class Graph`; `routing` is `*node()->routing`, `sent` what was written to channels
-- so far, and `drawn` how often the random pool was asked.
pub record World (c : CryptoPp) : Type 0 where
  pub vertices : Vertices c.Point
  pub routing_table : RoutingTable c.Point
  pub ecdh : c.EcdhKey
  pub hello_sequence : ℕ
  pub state_sequence : ℕ
  pub routing : Routing c.Point
  pub sent : List (Channel × List ℕ)
  pub drawn : ℕ

pub data Outcome (A : Type 0) : Type 0 where
  returned : A → Outcome A
  thrown : Error → Outcome A
  undefined unfinished : Outcome A

abbrev pub Call : CryptoPp → Type 0 → Type 0
Call c A = World c → World c × Outcome A

abbrev pub and_then :
    {c : CryptoPp} {A B : Type 0} → (A → Call c B) → World c × Outcome A → World c × Outcome B
and_then next (w, returned a) = next a w
and_then next (w, thrown e) = (w, thrown e)
and_then next (w, undefined) = (w, undefined)
and_then next (w, unfinished) = (w, unfinished)
