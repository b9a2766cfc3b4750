-- ===== src/Node/Opened.antt =====
-- The callback of an opened data channel makes a neighbour, which the graph is told.
use legio.Prelude.{
  ℕ, suc, ◌≡◌, ◌≤◌, ◌⊎◌, ◌&&◌, not, refl, Option, none, some, [], ◌∷◌, length, arith, find,
  has_value, contains, ℕ_discrete, Option-cases, Bool-cases, inl, inr, ap, sym, ◌∙◌,
}
use legio.Crypto.{CryptoPp, CryptoLaws}
use legio.State.Codec.{IsStrictOrder}
use legio.Routing.{Channel, Event, neighbor, Routing, add_channel, add_neighbor}
use legio.Peering.{Link, opened}
use legio.Networking.{link_of, keep_link}
use legio.Graph.World.{World, Outcome}
use legio.Node.Trust.{is_settled}
use legio.Graph.Updates.Total.{IsReady}
use legio.Graph.Updates.Started.{neighbors_changed-IsAnnounced}
use legio.Node.Receive.{notify_graph}
use legio.Node.Room.{HasRoom, length-add_neighbor}
use legio.Node.Dispatch.{
  Platform, NodeState, notify_node, emit_each, networking_of, keep_networking,
}
use legio.Node.Life.{data_channel_opened}
use legio.Node.Handled.{followed_by-nothing}
use legio.Node.Aside.{notify_node-IsAside}
use legio.Node.Whole.{same-Ready}

module _ {Identifier : Type 0} (same : Discrete Identifier) where
  add_neighbor-event :
      (r : Routing Identifier) (id : Identifier) (channel : Channel)
      → ((add_neighbor same r id channel).1 ≡ none)
        ⊎ ((add_neighbor same r id channel).1 ≡ some (neighbor id (some channel)))
  unfolding add_neighbor
  add_neighbor-event r id channel =
      elim (Bool-cases
        (contains ℕ_discrete channel r.channels && not (has_value (find same id r.neighbors)))) [
          | inl b ↦ inr (rw b refl)
          | inr b ↦ inl (rw b refl)
        ]

module _ (c : CryptoPp) (laws : CryptoLaws c) (order : IsStrictOrder c.point_lt) (p : Platform c)
    (Program : Type 0) (pair : c.PrivateKey) where
  open c use {Point, same_point}

  abbrev Node : Type 0
  Node = NodeState c p Program

  abbrev Ready : World c → Type 0
  Ready w = IsReady c laws order p.byte_order pair p.channels p.entropy p.address_lt w

  abbrev Room : World c → Type 0
  Room w = HasRoom c laws order p.byte_order pair p.channels p.entropy p.address_lt w

  -- The neighbours may be fewer, or one more.
  pub routed-Ready :
      (w : World c) (r : Routing Point)
      → Ready w
      → Room w
      → length r.neighbors ≤ suc (length w.routing.neighbors)
      → Ready (record w { routing = r })
  routed-Ready w r ready room fewer = record {
    map = ready.map;
    mine = ready.mine;
    is_held = ready.is_held;
    own_key = ready.own_key;
    ahead = ready.ahead;
    word = ready.word;
    few = omega (arith, fewer, room);
  }

  -- No neighbour was added.
  pub unlinked-Ready :
      (w : World c) (r : Routing Point)
      → Ready w
      → length r.neighbors ≤ length w.routing.neighbors
      → Ready (record w { routing = r })
  unlinked-Ready w r ready fewer = record {
    map = ready.map;
    mine = ready.mine;
    is_held = ready.is_held;
    own_key = ready.own_key;
    ahead = ready.ahead;
    word = ready.word;
    few = omega (arith, fewer, ready.few);
  }

  abbrev Opening : Type 0
  Opening = Link Point p.rtc.Description × Option (Event Point)

  -- What `opened` makes of the data channel `o`.
  abbrev opened_on : Link Point p.rtc.Description → Option Channel → Option Opening
  opened_on l o = elim o [
    | none ↦ none
    | some channel ↦
        let (r, event) =
          add_neighbor same_point (add_channel l.routing channel) l.peering.remote_id channel in
        some (record l { routing = r }, event)
  ]

  pub opened_cases :
      (l l' : Link Point p.rtc.Description) (event : Option (Event Point))
      → opened same_point l ≡ some (l', event)
      → (length l'.routing.neighbors ≤ suc (length l.routing.neighbors))
        × ((event ≡ none)
            ⊎ ((channel : Channel) × (event ≡ some (neighbor l.peering.remote_id (some channel)))))
  unfolding opened add_channel
  opened_cases l l' event h = elim (Option-cases l.peering.data_channel) [
    | inl k ↦
        let e : ◌≡◌ {A = Option Opening} none (some (l', event)) = sym (ap (opened_on l) k) ∙ h in
        cc e
    | inr (channel, k) ↦
        let id = l.peering.remote_id in
        let r = add_channel l.routing channel in
        let made = add_neighbor same_point r id channel in
        let x : Opening = (record l { routing = made.0 }, made.1) in
        let y : Opening = (l', event) in
        let e : some x ≡ some y = sym (ap (opened_on l) k) ∙ h in
        let e' : x ≡ y = cc e in
        let second : made.1 ≡ event = ap (λ (z : Opening). z.1) e' in
        (
          omega (
            arith,
            length-add_neighbor c laws order p.byte_order pair p.channels p.entropy p.address_lt r
                id channel,
            ap (λ (z : Opening). length z.0.routing.neighbors) e',
          ),
          elim (add_neighbor-event same_point r id channel) [
            | inl q ↦ inl (sym second ∙ q)
            | inr q ↦ inr (channel, sym second ∙ q)
          ],
        )
  ]

  -- What is left when the graph was told of the neighbours.
  told-Ready :
      (rounds : ℕ) (k : Node) (id : Point) (channel : Option Channel)
      → Ready k.world
      → Ready (emit_each c p Program pair (suc rounds) (neighbor id channel ∷ []) k).0.world
  unfolding emit_each notify_graph
  told-Ready rounds k id channel r =
      let (w, run, ready, others) =
        neighbors_changed-IsAnnounced c laws order p.byte_order pair p.channels p.entropy
          p.address_lt rounds k.world r in
      let event = neighbor id channel in
      let a =
        notify_node-IsAside c p Program pair (suc rounds) event k
          (ap (λ (x : World c × Outcome (Unit {0})). is_settled x.1) run) in
      let x = notify_node c p Program pair (suc rounds) event k in
      rw (followed_by-nothing c p Program pair (suc rounds) x) (
        same-Ready c laws order p Program pair w x.0.world
          (a.aside ∙ ap (λ (y : World c × Outcome (Unit {0})). record y.0 { sent = [] }) run) ready)

  -- When a data channel opens and there is room for one more neighbour, the graph stays ready.
  pub data_channel_opened-Ready :
      (rounds : ℕ) (id : Point) (n : Node)
      → Ready n.world
      → Room n.world
      → Ready (data_channel_opened c p Program pair (suc rounds) id n).0.world
  unfolding data_channel_opened keep_link
  data_channel_opened-Ready rounds id n r room =
      elim (Option-cases (find same_point id n.peerings)) [
        | inl k ↦ rw (k, data_channel_opened) r
        | inr (peering, k) ↦
            let l = link_of same_point (networking_of c p Program pair n) peering in
            elim (Option-cases (opened same_point l)) [
              | inl q ↦ rw (k, data_channel_opened) (rw q r)
              | inr ((l', event), q) ↦
                  let (fewer, cases) = opened_cases l l' event q in
                  let ready = routed-Ready n.world l'.routing r room fewer in
                  elim cases [
                    | inl z ↦ rw (k, data_channel_opened) (rw q (rw z ready))
                    | inr (channel, z) ↦
                        rw (k, data_channel_opened)
                          (rw q (
                            rw z (
                              told-Ready rounds
                                (keep_networking c p Program pair
                                  (keep_link same_point id (networking_of c p Program pair n) l') n)
                                peering.remote_id (some channel) ready)))
                  ]
            ]
      ]
