-- ===== src/Graph/Updates/History.antt =====
-- `Graph::insert` of src/impl/graph.cpp, called any number of times, against a plain map of states.
use legio.Prelude.{
  ℕ, suc, ◌≡◌, ◌≢◌, ◌⊎◌, refl, ap, sym, ◌∙◌, ite, Bool, List, [], ◌∷◌, All, Option, inl, inr,
}
use legio.Crypto.{CryptoPp, CryptoLaws}
use legio.ByteOrder.{Endian}
use legio.State.{State}
use legio.State.Codec.{IsStrictOrder}
use legio.Routing.{Channels}
use legio.Graph.World.{World, Call, returned, and_then}
use legio.Graph.Updates.{insert_state}
use legio.Graph.Updates.Total.{own, held, IsReady}
use legio.Graph.Updates.Insert.{latest, IsInserted, insert_state-IsInserted}

-- What a map of states holds of the node `j` after the states `ss`, each of which takes the place of
-- that of its node by `latest`.
pub newest_of :
    {Identifier : Type 0}
    → Discrete Identifier
    → Identifier
    → List (State Identifier)
    → Option (State Identifier)
    → Option (State Identifier)
newest_of same j [] old = old
newest_of same j (s ∷ ss) old = newest_of same j ss (ite (same s.ecdsa_key j) (latest s old) old)

module _ (c : CryptoPp) (laws : CryptoLaws c) (order : IsStrictOrder c.point_lt) (e : Endian)
    (pair : c.PrivateKey) (net : Channels) (entropy : ℕ → ℕ)
    (address_lt : c.Point → c.Point → Bool) where
  open c use {Point, same_point}

  -- One `insert` after the other.
  pub insert_each : ℕ → List (State Point) → Call c (Unit {0})
  insert_each rounds [] w = (w, returned tt)
  insert_each rounds (s ∷ ss) w =
      and_then (λ fresh. insert_each rounds ss)
        (insert_state c e pair net entropy address_lt rounds s w)

  abbrev me : Point
  me = own c laws order e pair net entropy address_lt

  abbrev known : World c → Point → Option (State Point)
  known w j = held c laws order e pair net entropy address_lt w j

  abbrev Ready : World c → Type 0
  Ready w = IsReady c laws order e pair net entropy address_lt w

  -- One insertion does to the held states what the map does.
  insert-newest :
      (s : State Point) (w w' : World c) (fresh : Bool) (j : Point)
      → IsInserted c laws order e pair net entropy address_lt s w w' fresh
      → (j ≡ me) ⊎ (known w' j ≡ ite (same_point s.ecdsa_key j) (latest s (known w j)) (known w j))
  insert-newest s w w' fresh j done =
      elim (same_point s.ecdsa_key j)
        as (λ d. (j ≡ me) ⊎ (known w' j ≡ ite d (latest s (known w j)) (known w j))) [
          | yes p ↦
              inr (ap (known w') (sym p) ∙ done.stored ∙ ap (λ (k : Point). latest s (known w k)) p)
          | no n ↦ elim (done.others j) [
            | inl a ↦ inl a
            | inr (inl b) ↦ elim (n (sym b)) [ ]
            | inr (inr k) ↦ inr k
          ]
        ]

  -- On a graph that is ready, any states of other nodes can be inserted one after the other, each
  -- with one round of announcements; afterwards the graph is ready again and holds of each other
  -- node what a plain map holds in which each state in turn takes the place of that of its node
  -- exactly if there was none, or its number is another one and less than 2^31 - 1 steps ahead on
  -- the circle of the 2^32 numbers.
  pub insert_each-newest :
      (rounds : ℕ) (ss : List (State Point)) (w : World c)
      → All (λ s. me ≢ s.ecdsa_key) ss
      → Ready w
      → (w' : World c) × (insert_each (suc rounds) ss w ≡ (w', returned tt))
        × Ready w'
        × ((j : Point) → (j ≡ me) ⊎ (known w' j ≡ newest_of same_point j ss (known w j)))
  unfolding insert_each newest_of
  insert_each-newest rounds [] w h r = (w, refl, r, λ j. inr refl)
  insert_each-newest rounds (s ∷ ss) w h r =
      let (u, fresh, run, done) =
        insert_state-IsInserted c laws order e pair net entropy address_lt rounds s w h.0 r in
      let (w', ran, r', all) = insert_each-newest rounds ss u h.1 done.ready in
      (
        w',
        rw run ran,
        r',
        λ j. elim (all j) [
          | inl a ↦ inl a
          | inr k ↦ elim (insert-newest s w u fresh j done) [
            | inl a ↦ inl a
            | inr q ↦ inr (k ∙ ap (newest_of same_point j ss) q)
          ]
        ],
      )
