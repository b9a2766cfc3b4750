-- ===== src/Graph/Updates/Started.antt =====
-- The constructor of `Graph` of src/impl/graph.cpp, and its handler for changed neighbours, leave a
-- graph that takes in every state.
use legio.Prelude.{
  ℕ, suc, ◌≡◌, refl, Bool, true, [], ◌∷◌, some, find, emplace, arith, ◌⊎◌, inl, sym, inr, ◌∙◌,
}
use legio.Crypto.{CryptoPp, CryptoLaws, ecdh_public_key}
use legio.ByteOrder.{Endian}
use legio.State.{State}
use legio.Message.Sequence.{compare_sequence}
use legio.State.Codec.{IsStrictOrder}
use legio.RoutingTable.{empty_table}
use legio.Routing.{Channels, init}
use legio.Graph.World.{World, returned}
use legio.Graph.Updates.{
  sorted_neighbors, insert_state, update_vertice, start_graph, neighbors_changed, new_vertice,
}
use legio.Graph.Updates.Kept.{change_edges-IsKept}
use legio.Graph.Updates.Total.{own, finish, known_of, IsReady, broadcast_state-IsAnnounced, held}
use legio.Graph.Updates.Insert.{Ready-kept, announce_if}

module _ (c : CryptoPp) (laws : CryptoLaws c) (order : IsStrictOrder c.point_lt) (e : Endian)
    (pair : c.PrivateKey) (net : Channels) (entropy : ℕ → ℕ)
    (address_lt : c.Point → c.Point → Bool) where
  open c use {Point, same_point}

  -- `node()->id()`
  abbrev me : Point
  me = own c laws order e pair net entropy address_lt

  abbrev Ready : World c → Type 0
  Ready w = IsReady c laws order e pair net entropy address_lt w

  abbrev first_state : c.EcdhKey → State Point
  first_state ecdh = record {
    ecdsa_key = me;
    sequence = 4294967295;
    ecdh_public = ecdh_public_key c ecdh;
    neighbors = [];
  }

  abbrev first_world : c.EcdhKey → World c
  first_world ecdh = record {
    vertices = (me, record new_vertice { state = some (first_state ecdh) }) ∷ [];
    routing_table = empty_table;
    ecdh = ecdh;
    hello_sequence = 0;
    state_sequence = 0;
    routing = init;
    sent = [];
    drawn = 0;
  }

  first_world-Ready : (ecdh : c.EcdhKey) → Ready (first_world ecdh)
  unfolding find init sorted_neighbors compare_sequence
  first_world-Ready ecdh = record {
    map = (refl, tt);
    mine = first_state ecdh;
    is_held = ground arith;
    own_key = refl;
    ahead = refl;
    word = omega arith;
    few = omega arith;
  }

  -- A graph that is made with a new `Routing` has announced the node and is ready for the states of
  -- others, with no neighbours; one round of announcements suffices.
  pub start_graph-IsReady :
      (rounds : ℕ) (ecdh : c.EcdhKey)
      → (w : World c) × (start_graph c e pair net entropy address_lt (suc rounds) ecdh init
          ≡ (w, returned true))
        × Ready w
        × (w.routing.neighbors ≡ [])
  unfolding start_graph init insert_state update_vertice emplace find
  start_graph-IsReady rounds ecdh =
      let (u, ran, a) =
        broadcast_state-IsAnnounced c laws order e pair net entropy address_lt rounds
          (first_world ecdh) (first_world-Ready ecdh) in
      let mine =
        known_of c laws order e pair net entropy address_lt (find same_point me u.vertices)
          a.ready.mine a.ready.is_held in
      let (w, run, kept) =
        finish c laws order e pair net entropy address_lt u me a.ready.mine a.ready.map mine
          a.ready.is_held in
      (
        w,
        rw (ran, run) refl,
        Ready-kept c laws order e pair net entropy address_lt u w a.ready kept,
        kept.neighbors ∙ a.neighbors,
      )

  -- What the handler for changed neighbours does.
  pub neighbors_changed-IsAnnounced :
      (rounds : ℕ) (w : World c)
      → Ready w
      → (w' : World c) × (neighbors_changed c e pair net entropy address_lt (suc rounds) w
          ≡ (w', returned tt))
        × Ready w'
        × ((j : Point)
            → (j ≡ me)
              ⊎ (held c laws order e pair net entropy address_lt w' j
                  ≡ held c laws order e pair net entropy address_lt w j))
  unfolding neighbors_changed
  neighbors_changed-IsAnnounced rounds w r =
      let ids = sorted_neighbors c e pair net entropy address_lt w.routing.neighbors in
      let mine =
        known_of c laws order e pair net entropy address_lt (find same_point me w.vertices) r.mine
          r.is_held in
      let (u, changed, run, kept) =
        change_edges-IsKept c e pair net entropy address_lt w me ids r.map mine mine in
      let (v, ran, a) =
        announce_if c laws order e pair net entropy address_lt changed rounds u
          (Ready-kept c laws order e pair net entropy address_lt w u r kept) in
      (
        v,
        rw run ran,
        a.ready,
        λ j. elim (same_point me j) [
          | yes p ↦ inl (sym p)
          | no n ↦ inr (a.others j n ∙ kept.states j)
        ],
      )

  -- The handler for changed neighbours returns on a graph that is ready, and leaves one that is.
  pub neighbors_changed-IsReady :
      (rounds : ℕ) (w : World c)
      → Ready w
      → (w' : World c) × (neighbors_changed c e pair net entropy address_lt (suc rounds) w
          ≡ (w', returned tt))
        × Ready w'
  neighbors_changed-IsReady rounds w r =
      let (v, run, ready, others) = neighbors_changed-IsAnnounced rounds w r in (v, run, ready)
