-- ===== src/Graph/Updates/Total.antt =====
-- `updateVertice` and `broadcastState` of src/impl/graph.cpp call one another; at a node whose own
-- state is known, one round of this suffices.
use legio.Prelude.{
  ℕ, suc, ◌+◌, ◌*◌, ◌^◌, ◌<◌, ◌≡◌, ◌≢◌, refl, ap, sym, ◌∙◌, ite, Bool, true, List, length, Option,
  none, some, has_value, find, assign, find-assign, IsMap, assign-IsMap, bytes_eq, bytes_eq_refl,
  arith, ◌++◌,
}
use legio.Crypto.{CryptoPp, CryptoLaws, ecdh_public_key}
use legio.ByteOrder.{Endian}
use legio.Message.Sequence.{compare_sequence, compare_sequence-suc}
use legio.Transport.{is_newer}
use legio.State.{State}
use legio.State.Codec.{IsStrictOrder, to_message-ok}
use legio.Routing.{Channels, Channel}
use legio.Graph.{Vertice}
use legio.Graph.World.{World, Call, returned}
use legio.Graph.Updates.{
  local_id, is_stale, key_changed, flood, store_state, finish_vertice, update_vertice, local_state,
  announce, broadcast_state, next_number, broadcast, to_binary,
}
use legio.Graph.Updates.Kept.{state_of, IsKept, change_edges-IsKept, length-sorted_neighbors}

module _ (c : CryptoPp) (laws : CryptoLaws c) (order : IsStrictOrder c.point_lt) (e : Endian)
    (pair : c.PrivateKey) (net : Channels) (entropy : ℕ → ℕ)
    (address_lt : c.Point → c.Point → Bool) where
  open c use {Point, same_point}

  -- `node()->id()`
  abbrev pub own : Point
  own = local_id c e pair net entropy address_lt

  -- The state that is held of a node.
  abbrev pub held : World c → Point → Option (State Point)
  held w id = state_of (find same_point id w.vertices)

  -- The node's own state is known, with its own key and a number that the counter is ahead of, and the
  -- next one, with each neighbour that the routing has, fits a message.
  pub record IsReady (w : World c) : Type 0 where
    pub map : IsMap same_point w.vertices
    pub mine : State Point
    pub is_held : held w own ≡ some mine
    pub own_key : mine.ecdh_public ≡ ecdh_public_key c w.ecdh
    pub ahead : is_newer (compare_sequence w.state_sequence mine.sequence) ≡ true
    pub word : w.state_sequence < 2 ^ 32
    pub few : 33 * length w.routing.neighbors + 65 < 2 ^ 16

  pub known_of :
      (o : Option (Vertice Point)) (s : State Point) → state_of o ≡ some s → has_value o ≡ true
  known_of none s h = cc h
  known_of (some v) s h = refl

  pub vertice_of :
      (o : Option (Vertice Point)) (s : State Point)
      → state_of o ≡ some s
      → (v : Vertice Point) × (o ≡ some v) × (v.state ≡ some s)
  vertice_of none s h = cc h
  vertice_of (some v) s h = (v, refl, h)

  -- A vertex with a new state.
  abbrev pub put : Point → Vertice Point → State Point → World c → World c
  put id v s w = record w {
    vertices = assign same_point id (record v { state = some s }) w.vertices;
  }

  -- The end of `updateVertice`, at a vertex with a state.
  pub finish :
      (w : World c) (id : Point) (s : State Point)
      → IsMap same_point w.vertices
      → has_value (find same_point own w.vertices) ≡ true
      → held w id ≡ some s
      → (w' : World c) × (finish_vertice c e pair net entropy address_lt id w ≡ (w', returned true))
        × IsKept c e pair net entropy address_lt w w'
  unfolding finish_vertice
  finish w id s m l h =
      let (v, at, state) = vertice_of (find same_point id w.vertices) s h in
      let (w', changed, run, kept) =
        change_edges-IsKept c e pair net entropy address_lt w id s.neighbors m l
          (known_of (find same_point id w.vertices) s h) in
      (w', rw (at, finish_vertice) (rw (state, finish_vertice) (rw run refl)), kept)

  pub held-put :
      (w : World c) (id j : Point) (v : Vertice Point) (s : State Point)
      → find same_point id w.vertices ≡ some v
      → held (put id v s w) j ≡ ite (same_point id j) (some s) (held w j)
  held-put w id j v s h =
      ground (arith, find-assign same_point id j (record v { state = some s }) w.vertices, h)

  pub store_state-put :
      (w : World c) (id : Point) (v : Vertice Point) (s : State Point)
      → find same_point id w.vertices ≡ some v
      → store_state c e pair net entropy address_lt id s w ≡ put id v s w
  unfolding store_state
  store_state-put w id v s h = rw (h, store_state) refl

  -- The vertex is known, and its state is replaced.
  pub finish_stored :
      (w : World c) (id : Point) (v : Vertice Point) (s : State Point)
      → IsMap same_point w.vertices
      → has_value (find same_point own w.vertices) ≡ true
      → find same_point id w.vertices ≡ some v
      → (w' : World c) × (finish_vertice c e pair net entropy address_lt id
            (store_state c e pair net entropy address_lt id s w)
          ≡ (w', returned true))
        × IsKept c e pair net entropy address_lt (put id v s w) w'
  finish_stored w id v s m l h =
      let v' : Vertice Point = record v { state = some s } in
      let (w', run, kept) =
        finish (put id v s w) id s (assign-IsMap same_point id v' w.vertices m)
          (ground (arith, find-assign same_point id own v' w.vertices, l, h))
          (held-put w id id v s h ∙ ground arith) in
      (w', rw (store_state-put w id v s h) run, kept)

  -- What an announcement does.
  pub record IsAnnounced (w w' : World c) : Type 0 where
    pub ready : IsReady w'
    pub known :
        (j : Point)
        → has_value (find same_point j w.vertices) ≡ true
        → has_value (find same_point j w'.vertices) ≡ true
    pub others : (j : Point) → own ≢ j → held w' j ≡ held w j
    pub neighbors : w'.routing.neighbors ≡ w.routing.neighbors

  -- `broadcastState` counted up before `updateVertice`.
  abbrev counted : World c → World c
  counted w = record w { state_sequence = next_number w.state_sequence; drawn = suc w.drawn }

  abbrev announced : World c → State Point
  announced w = local_state c e pair net entropy address_lt w

  own_step :
      (w : World c) (again : Call c (Unit {0})) (v : Vertice Point) (r : IsReady w)
      → find same_point own w.vertices ≡ some v
      → v.state ≡ some r.mine
      → update_vertice c e pair net entropy address_lt again (announced w) (counted w)
        ≡ finish_vertice c e pair net entropy address_lt own
            (store_state c e pair net entropy address_lt own (announced w) (counted w))
  unfolding update_vertice is_stale key_changed local_state
  own_step w again v r at state =
      let same_key : bytes_eq r.mine.ecdh_public (ecdh_public_key c w.ecdh) ≡ true =
        rw r.own_key (bytes_eq_refl (ecdh_public_key c w.ecdh)) in
      rw (at, update_vertice) (rw (state, r.ahead, same_key) refl)

  own-announced :
      (w w' : World c) (v : Vertice Point)
      → IsReady w
      → find same_point own w.vertices ≡ some v
      → IsKept c e pair net entropy address_lt (put own v (announced w) (counted w)) w'
      → IsAnnounced w w'
  unfolding local_state
  own-announced w w' v r at kept = record {
    ready = record {
      map = kept.map;
      mine = announced w;
      is_held = kept.states own ∙ held-put (counted w) own own v (announced w) at ∙ ground arith;
      own_key = ap (ecdh_public_key c) (sym kept.ecdh);
      ahead = rw (kept.state_sequence, compare_sequence-suc w.state_sequence r.word) refl;
      word = rw kept.state_sequence (omega arith);
      few = omega (arith, ap (λ (m : List (Point × Channel)). length m) kept.neighbors, r.few);
    };
    known = λ j h. kept.known j (
        ground (
          arith,
          find-assign same_point own j (record v { state = some (announced w) }) w.vertices,
          h,
        ));
    others =
        λ j d. kept.states j ∙ held-put (counted w) own j v (announced w) at ∙ ground (arith, d);
    neighbors = kept.neighbors;
  }

  -- The node's own next state is taken in without another announcement.
  own_update :
      (w : World c) (again : Call c (Unit {0}))
      → IsReady w
      → (w' : World c) × (update_vertice c e pair net entropy address_lt again
            (announced w)
            (counted w)
          ≡ (w', returned true))
        × IsAnnounced w w'
  own_update w again r =
      let (v, at, state) = vertice_of (find same_point own w.vertices) r.mine r.is_held in
      let (w', run, kept) =
        finish_stored (counted w) own v (announced w) r.map
          (known_of (find same_point own w.vertices) r.mine r.is_held) at in
      (w', own_step w again v r at state ∙ run, own-announced w w' v r at kept)

  IsAnnounced-sent :
      (w w' : World c) (out : List (Channel × List ℕ))
      → IsAnnounced w w'
      → IsAnnounced w (record w' { sent = out })
  IsAnnounced-sent w w' out a = record {
    ready = record {
      map = a.ready.map;
      mine = a.ready.mine;
      is_held = a.ready.is_held;
      own_key = a.ready.own_key;
      ahead = a.ready.ahead;
      word = a.ready.word;
      few = a.ready.few;
    };
    known = a.known;
    others = a.others;
    neighbors = a.neighbors;
  }

  -- One round of `broadcastState` suffices.
  pub broadcast_state-IsAnnounced :
      (rounds : ℕ) (w : World c)
      → IsReady w
      → (w' : World c) × (broadcast_state c e pair net entropy address_lt (suc rounds) w
          ≡ (w', returned tt))
        × IsAnnounced w w'
  unfolding broadcast_state announce local_state flood ecdh_public_key
  broadcast_state-IsAnnounced rounds w r =
      let (m, made) =
        to_message-ok c laws order e (entropy w.drawn) (announced w) pair r.word
          (laws.length-public_block w.ecdh)
          (omega (
            arith,
            length-sorted_neighbors c e pair net entropy address_lt w.routing.neighbors,
            r.few,
          )) in
      let (w', run, a) = own_update w (broadcast_state c e pair net entropy address_lt rounds) r in
      let out = w'.sent ++ broadcast same_point (to_binary c e) net w'.routing m none in
      (record w' { sent = out }, rw (made, announce) (rw run refl), IsAnnounced-sent w w' out a)
