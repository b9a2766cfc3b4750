-- ===== src/Graph/Updates/Insert.antt =====
-- What `Graph::insert` of src/impl/graph.cpp makes of the state of another node.
use legio.Prelude.{
  ℕ, suc, ◌+◌, ◌-◌, ◌%◌, ◌^◌, ◌≡◌, ◌≢◌, ◌⊎◌, ◌&&◌, ◌==◌, ltb, refl, ap, sym, ◌∙◌, ite, Bool, true,
  false, not, if◌then◌else◌, Option, none, some, find, emplace, find-emplace, emplace-IsMap,
  assign-IsMap, arith, inl, inr, Bool-cases, Option-cases,
}
use legio.Crypto.{CryptoPp, CryptoLaws, ecdh_public_key}
use legio.ByteOrder.{Endian}
use legio.Message.Sequence.{compare_sequence}
use legio.State.{State}
use legio.State.Codec.{IsStrictOrder}
use legio.Routing.{Channels}
use legio.Graph.{Vertice, Vertices, new_vertice}
use legio.Graph.World.{World, Call, returned}
use legio.Graph.Updates.{is_stale, key_changed, update_vertice, broadcast_state, insert_state}
use legio.Graph.Updates.Kept.{found, IsKept, found}
use legio.Graph.Updates.Total.{
  own, held, put, held-put, finish, finish_stored, known_of, IsReady, IsAnnounced,
  broadcast_state-IsAnnounced,
}

-- Whether a state is to be taken in: if none is held, or if its number is another one than that of the
-- held state and less than 2^31 - 1 steps ahead of it, on the circle of the 2^32 numbers.
abbrev pub is_ahead : {Identifier : Type 0} → State Identifier → Option (State Identifier) → Bool
is_ahead s none = true
is_ahead s (some old) =
    not (s.sequence == old.sequence)
    && ltb ((s.sequence + 2 ^ 32 - old.sequence) % 2 ^ 32) (2 ^ 31 - 1)

-- The state that is held after `s` came in.
abbrev pub latest :
    {Identifier : Type 0} → State Identifier → Option (State Identifier) → Option (State Identifier)
latest s old = if is_ahead s old then some s else old

is_ahead-is_stale :
    {Identifier : Type 0} (s : State Identifier) (old : Option (State Identifier)) (stale : Bool)
    → is_stale s old ≡ stale
    → is_ahead s old ≡ not stale
unfolding is_stale compare_sequence
is_ahead-is_stale s none stale h = ground arith
is_ahead-is_stale s (some old) stale h = ground arith

-- What `latest` is by the outcome of the code's test.
latest-taken :
    {Identifier : Type 0} (s : State Identifier) (old : Option (State Identifier))
    → is_stale s old ≡ false
    → latest s old ≡ some s
latest-taken s old h = rw (is_ahead-is_stale s old false h) refl

latest-stale :
    {Identifier : Type 0} (s : State Identifier) (old : Option (State Identifier))
    → is_stale s old ≡ true
    → latest s old ≡ old
latest-stale s old h = rw (is_ahead-is_stale s old true h) refl

module _ (c : CryptoPp) (laws : CryptoLaws c) (order : IsStrictOrder c.point_lt) (e : Endian)
    (pair : c.PrivateKey) (net : Channels) (entropy : ℕ → ℕ)
    (address_lt : c.Point → c.Point → Bool) where
  open c use {Point, same_point}

  -- `node()->id()`
  abbrev me : Point
  me = own c laws order e pair net entropy address_lt

  abbrev known_state : World c → Point → Option (State Point)
  known_state w id = held c laws order e pair net entropy address_lt w id

  abbrev Ready : World c → Type 0
  Ready w = IsReady c laws order e pair net entropy address_lt w

  abbrev insert_now : ℕ → State Point → World c → World c × legio.Graph.World.Outcome Bool
  insert_now rounds s w = insert_state c e pair net entropy address_lt (suc rounds) s w

  -- What an insertion of `s` into `w` has done when it returns `fresh` and leaves `w'`.
  pub record IsInserted (s : State Point) (w w' : World c) (fresh : Bool) : Type 0 where
    pub ready : Ready w'
    pub taken : fresh ≡ is_ahead s (known_state w s.ecdsa_key)
    pub stored : known_state w' s.ecdsa_key ≡ latest s (known_state w s.ecdsa_key)
    pub others : (j : Point) → (j ≡ me) ⊎ (j ≡ s.ecdsa_key) ⊎ (known_state w' j ≡ known_state w j)

  pub Ready-kept :
      (w w' : World c) → Ready w → IsKept c e pair net entropy address_lt w w' → Ready w'
  Ready-kept w w' r kept = record {
    map = kept.map;
    mine = r.mine;
    is_held = kept.states me ∙ r.is_held;
    own_key = r.own_key ∙ ap (ecdh_public_key c) (sym kept.ecdh);
    ahead = rw kept.state_sequence r.ahead;
    word = rw kept.state_sequence r.word;
    few = rw kept.neighbors r.few;
  }

  abbrev pub Announced : World c → World c → Type 0
  Announced w w' = IsAnnounced c laws order e pair net entropy address_lt w w'

  -- An announcement if there is need of one.
  pub announce_if :
      (needed : Bool) (rounds : ℕ) (w : World c)
      → Ready w
      → (w' : World c) × ((if needed
            then broadcast_state c e pair net entropy address_lt (suc rounds) w
            else (w, returned tt))
          ≡ (w', returned tt))
        × Announced w w'
  announce_if true rounds w r =
      broadcast_state-IsAnnounced c laws order e pair net entropy address_lt rounds w r
  announce_if false rounds w r =
      (w, refl, record { ready = r; known = λ j h. h; others = λ j d. refl; neighbors = refl })

  -- The edges follow from the state that was stored in `v`.
  inserted :
      (s : State Point) (w v w' : World c)
      → is_stale s (known_state w s.ecdsa_key) ≡ false
      → Ready v
      → known_state v s.ecdsa_key ≡ some s
      → ((j : Point) → me ≢ j → s.ecdsa_key ≢ j → known_state v j ≡ known_state w j)
      → IsKept c e pair net entropy address_lt v w'
      → IsInserted s w w' true
  inserted s w v w' f r h k kept = record {
    ready = Ready-kept v w' r kept;
    taken = sym (is_ahead-is_stale s (known_state w s.ecdsa_key) false f);
    stored = kept.states s.ecdsa_key ∙ h ∙ sym (latest-taken s (known_state w s.ecdsa_key) f);
    others = λ j. elim (same_point me j) [
      | yes p ↦ inl (sym p)
      | no n ↦ elim (same_point s.ecdsa_key j) [
        | yes q ↦ inr (inl (sym q))
        | no d ↦ inr (inr (kept.states j ∙ k j n d))
      ]
    ];
  }

  emplaced : State Point → World c → World c
  emplaced s w = record w {
    vertices = emplace same_point s.ecdsa_key (record new_vertice { state = some s }) w.vertices;
  }

  held-emplaced :
      (s : State Point) (w : World c) (j : Point)
      → find same_point s.ecdsa_key w.vertices ≡ none
      → known_state (emplaced s w) j ≡ ite (same_point s.ecdsa_key j) (some s) (known_state w j)
  unfolding emplaced
  held-emplaced s w j h = ground (
    arith,
    find-emplace same_point s.ecdsa_key j (record new_vertice { state = some s }) w.vertices,
    h,
  )

  emplaced-Ready :
      (s : State Point) (w : World c)
      → me ≢ s.ecdsa_key
      → find same_point s.ecdsa_key w.vertices ≡ none
      → Ready w
      → Ready (emplaced s w)
  unfolding emplaced
  emplaced-Ready s w d h r = record {
    map = emplace-IsMap same_point s.ecdsa_key _ w.vertices r.map;
    mine = r.mine;
    is_held = held-emplaced s w me h ∙ ground (arith, d, r.is_held);
    own_key = r.own_key;
    ahead = r.ahead;
    word = r.word;
    few = r.few;
  }

  -- The vertex is new: the node announces itself to it.
  insert_unknown :
      (rounds : ℕ) (s : State Point) (w : World c)
      → me ≢ s.ecdsa_key
      → Ready w
      → find same_point s.ecdsa_key w.vertices ≡ none
      → (w' : World c) × (insert_now rounds s w ≡ (w', returned true)) × IsInserted s w w' true
  unfolding insert_state update_vertice is_stale emplaced
  insert_unknown rounds s w d r h =
      let id = s.ecdsa_key in
      let (v, ran, a) =
        broadcast_state-IsAnnounced c laws order e pair net entropy address_lt rounds (emplaced s w)
          (emplaced-Ready s w d h r) in
      let at : known_state v id ≡ some s = a.others id d ∙ held-emplaced s w id h ∙ ground arith in
      let mine =
        known_of c laws order e pair net entropy address_lt (find same_point me v.vertices)
          a.ready.mine a.ready.is_held in
      let (w', run, kept) =
        finish c laws order e pair net entropy address_lt v id s a.ready.map mine at in
      (
        w',
        rw (h, update_vertice) (rw (ran, run) refl),
        inserted s w v w' (rw (h, is_stale) refl) a.ready at
            (λ j n m. a.others j n ∙ held-emplaced s w j h ∙ ground (arith, m)) kept,
      )

  put_in : State Point → Vertice Point → World c → World c
  put_in s v w = put c laws order e pair net entropy address_lt s.ecdsa_key v s w

  put-Ready :
      (s : State Point) (v : Vertice Point) (w : World c)
      → me ≢ s.ecdsa_key
      → find same_point s.ecdsa_key w.vertices ≡ some v
      → Ready w
      → Ready (put_in s v w)
  unfolding put_in
  put-Ready s v w d h r = record {
    map = assign-IsMap same_point s.ecdsa_key (record v { state = some s }) w.vertices r.map;
    mine = r.mine;
    is_held =
        held-put c laws order e pair net entropy address_lt w s.ecdsa_key me v s h
        ∙ ground (arith, d, r.is_held);
    own_key = r.own_key;
    ahead = r.ahead;
    word = r.word;
    few = r.few;
  }

  -- The vertex is known, and the state is newer than the one that it has, if any.
  insert_newer :
      (rounds : ℕ) (s : State Point) (w : World c) (v : Vertice Point)
      → me ≢ s.ecdsa_key
      → Ready w
      → find same_point s.ecdsa_key w.vertices ≡ some v
      → is_stale s v.state ≡ false
      → (w' : World c) × (insert_now rounds s w ≡ (w', returned true)) × IsInserted s w w' true
  unfolding insert_state update_vertice put_in
  insert_newer rounds s w v d r h f =
      let id = s.ecdsa_key in
      let (u, ran, a) = announce_if (key_changed s v.state) rounds w r in
      let (x, at) =
        found c e pair net entropy address_lt (find same_point id u.vertices)
          (a.known id (rw h refl)) in
      let mine =
        known_of c laws order e pair net entropy address_lt (find same_point me u.vertices)
          a.ready.mine a.ready.is_held in
      let (w', run, kept) =
        finish_stored c laws order e pair net entropy address_lt u id x s a.ready.map mine at in
      let held_at =
        λ (j : Point). held-put c laws order e pair net entropy address_lt u id j x s at in
      (
        w',
        rw (h, update_vertice) (rw (f, ran) run),
        inserted s w (put_in s x u) w' (rw h f) (put-Ready s x u d at a.ready)
            (held_at id ∙ ground arith) (λ j n m. held_at j ∙ ground (arith, m, a.others j n)) kept,
      )

  -- `insert` of the state of another node returns, with one round of announcements and whatever
  -- is known of that node, if the node's own state is known with its own key and a number behind
  -- the counter, and its next announcement, with each neighbour that the routing has, fits a
  -- message: all of which holds again afterwards. It is taken in exactly if no state was held of
  -- that node, or the number is another one than that of the held state and less than 2^31 - 1
  -- steps ahead of it on the circle of the 2^32 numbers; then it is the state that is held of
  -- that node, else the held one stays; and of the other nodes, this one left out, the same is
  -- held as before.
  pub insert_state-IsInserted :
      (rounds : ℕ) (s : State Point) (w : World c)
      → me ≢ s.ecdsa_key
      → Ready w
      → (w' : World c) × (fresh : Bool) × (insert_now rounds s w ≡ (w', returned fresh))
        × IsInserted s w w' fresh
  unfolding insert_state update_vertice
  insert_state-IsInserted rounds s w d r =
      elim (Option-cases (find same_point s.ecdsa_key w.vertices)) [
        | inl h ↦ (let (w', run, done) = insert_unknown rounds s w d r h in (w', true, run, done))
        | inr (v, h) ↦ elim (Bool-cases (is_stale s v.state)) [
          | inl f ↦ (
            w,
            false,
            rw (h, update_vertice) (rw f refl),
            record {
              ready = r;
              taken = sym (is_ahead-is_stale s (known_state w s.ecdsa_key) true (rw h f));
              stored = sym (latest-stale s (known_state w s.ecdsa_key) (rw h f));
              others = λ j. inr (inr refl);
            },
          )
          | inr f ↦
              (let (w', run, done) = insert_newer rounds s w v d r h f in (w', true, run, done))
        ]
      ]
