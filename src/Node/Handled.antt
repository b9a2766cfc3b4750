-- ===== src/Node/Handled.antt =====
-- Which component of the whole node takes a message: each type has one.
use legio.Prelude.{
  ℕ, ◌≡◌, refl, Bool, Option, false, true, ok, none, some, [], ◌==◌, Option-cases, inl, inr, ap,
  sym, ◌∙◌, if◌then◌else◌, Result, List, ◌⊎◌, ◌∷◌, append-nil,
}
use legio.ByteOrder.{Endian}
use legio.Message.{to_binary, Message, user_type, signaling_type, hello_type, state_type}
use legio.Node.Receive.{notify_graph}
use legio.Routing.Forwarding.{route_cases}
use legio.Transport.{notify_from, Delivered, Transport, notify, notify_any, incoming_any}
use legio.Routing.{Channel, Channels, Routing, Effects, route, message}
use legio.Graph.World.{World, Outcome, thrown, undefined, unfinished, returned}
use legio.Graph.Updates.{hear}
use legio.Node.Dispatch.{
  Platform, NodeState, Ran, followed_by, delivered, signaled, wrote, id, notify_node, notify_user,
  notify_graph_of, notify_signaling, emit_each, route_parsed, routed,
}
use legio.Crypto.{CryptoPp}

chosen : {A : Type 0} {b : Bool} (x y : A) → b ≡ true → (if b then x else y) ≡ x
chosen x y h = rw h refl

unchosen : {A : Type 0} {b : Bool} (x y : A) → b ≡ false → (if b then x else y) ≡ y
unchosen x y h = rw h refl

module _ (c : CryptoPp) (e : Endian) where
  open c use {Point, PrivateKey, EcdhKey}

  notify-other :
      (ecdh : EcdhKey) (t : Transport Point) (m : Message Point)
      → (m.type == t.type) ≡ false
      → notify c e ecdh t m ≡ (t, ok none)
  unfolding notify
  notify-other ecdh t m h = elim (Option-cases m.source) [
    | inl k ↦ rw (k, notify) refl
    | inr (s, k) ↦ rw (k, notify) (rw h refl)
  ]

  notify_any-other :
      (pair : PrivateKey) (net : Channels) (local : Point) (r : Routing Point) (ecdh : EcdhKey)
      (t : Transport Point) (m : Message Point) (from : Option Channel)
      → (m.type == t.type) ≡ false
      → notify_any c e pair net local r ecdh t m from ≡ (t, (ok none, []))
  unfolding notify_any
  notify_any-other pair net local r ecdh t m from h = elim (Option-cases m.source) [
    | inl k ↦ ap (notify_from c e pair net local r ecdh t m from) k
    | inr (s, k) ↦
        ap (notify_from c e pair net local r ecdh t m from) k
        ∙ unchosen (incoming_any c e pair net local r ecdh t m s from) (t, (ok none, [])) h
  ]

  pub notify_any-some :
      (pair : PrivateKey) (net : Channels) (local : Point) (r : Routing Point) (ecdh : EcdhKey)
      (t : Transport Point) (m : Message Point) (from : Option Channel) (source : Point)
      → m.source ≡ some source
      → (m.type == t.type) ≡ true
      → notify_any c e pair net local r ecdh t m from
        ≡ incoming_any c e pair net local r ecdh t m source from
  unfolding notify_any
  notify_any-some pair net local r ecdh t m from source k h =
      ap (notify_from c e pair net local r ecdh t m from) k
      ∙ chosen (incoming_any c e pair net local r ecdh t m source from) (t, (ok none, [])) h

  hear-other :
      (pair : PrivateKey) (net : Channels) (entropy : ℕ → ℕ) (address_lt : Point → Point → Bool)
      (rounds : ℕ) (m : Message Point) (from : Option Channel) (w : World c)
      → (m.type == hello_type) ≡ false
      → (m.type == state_type) ≡ false
      → hear c e pair net entropy address_lt rounds m from w ≡ (w, returned tt)
  unfolding hear
  hear-other pair net entropy address_lt rounds m from w h k = rw (h, k, hear) refl

module _ (c : CryptoPp) (p : Platform c) (Program : Type 0) (pair : c.PrivateKey) where
  open c use {Point, same_point}

  abbrev Node : Type 0
  Node = NodeState c p Program

  -- The transports have the types that the constructors give them.
  pub record IsWired (n : Node) : Type 0 where
    pub signaling_typed : n.signaling.type ≡ signaling_type
    pub user_typed : n.user.type ≡ user_type

  -- The graph ignores a message of another type.
  pub notify_graph_of-other :
      (rounds : ℕ) (m : Message Point) (from : Option Channel) (n : Node)
      → (m.type == hello_type) ≡ false
      → (m.type == state_type) ≡ false
      → notify_graph_of c p Program pair rounds (message m from) n ≡ (n, returned tt)
  unfolding notify_graph_of notify_graph
  notify_graph_of-other rounds m from n h k =
      ap (λ (x : World c × Outcome (Unit {0})). (record n { world = x.0 }, x.1))
        (hear-other c p.byte_order pair p.channels p.entropy p.address_lt rounds m from n.world h k)

  -- The transport of the signaling ignores a message of another type.
  notify_signaling-other :
      (m : Message Point) (from : Option Channel) (n : Node)
      → (m.type == n.signaling.type) ≡ false
      → notify_signaling c p Program pair (message m from) n ≡ (n, returned tt)
  unfolding notify_signaling
  notify_signaling-other m from n h =
      ap
        (λ (x : Transport Point × Result (Delivered c p.byte_order)). signaled c p Program pair x n)
        (notify-other c p.byte_order n.world.ecdh n.signaling m h)

  pub wrote-nothing : (n : Node) → wrote c p Program pair [] n ≡ n
  wrote-nothing n =
      ap (λ (out : List (Channel × List ℕ)). record n { world = record n.world { sent = out } })
        (append-nil n.world.sent)

  -- The user transport ignores a message of another type.
  pub notify_user-other :
      (m : Message Point) (from : Option Channel) (n : Node)
      → (m.type == n.user.type) ≡ false
      → notify_user c p Program pair (message m from) n ≡ (n, returned tt)
  unfolding notify_user
  notify_user-other m from n h =
      ap
        (λ (x : Transport Point × (Result (Delivered c p.byte_order) × List (Channel × List ℕ))).
          delivered c p Program pair x.1.0 (wrote c p Program pair x.1.1 (record n { user = x.0 })))
        (notify_any-other c p.byte_order pair p.channels (id c p Program pair) n.world.routing
          n.world.ecdh n.user m from h)
      ∙ ap (λ (k : Node). (k, returned tt)) (wrote-nothing n)

  -- A user message is taken by the user transport alone.
  pub notify_node-user :
      (rounds : ℕ) (m : Message Point) (from : Option Channel) (n : Node)
      → IsWired n
      → m.type ≡ user_type
      → notify_node c p Program pair rounds (message m from) n
        ≡ notify_user c p Program pair (message m from) n
  unfolding notify_node
  notify_node-user rounds m from n v h =
      let then_user =
        followed_by c p Program pair (notify_user c p Program pair (message m from)) in
      let then_signaling =
        followed_by c p Program pair (notify_signaling c p Program pair (message m from)) in
      ap (λ (x : Ran c p Program pair). then_user (then_signaling x))
        (notify_graph_of-other rounds m from n (ap (λ (t : ℕ). t == hello_type) h)
          (ap (λ (t : ℕ). t == state_type) h))
      ∙ ap then_user (
          notify_signaling-other m from n (
            ap (λ (t : ℕ). t == n.signaling.type) h
            ∙ ap (λ (t : ℕ). user_type == t) v.signaling_typed))

  -- A message for this node, or for all, is handed to the components.
  route-local :
      (m : Message Point) (from : Option Channel) (r : Routing Point) (source : Point)
      → m.source ≡ some source
      → (m.destination ≡ none) ⊎ (m.destination ≡ some (id c p Program pair))
      → route same_point (to_binary c p.byte_order) p.channels (id c p Program pair) r m from
        ≡ ok (record { sent = []; events = message m from ∷ [] })
  route-local m from r source h d =
      elim (route_cases same_point (to_binary c p.byte_order) p.channels (id c p Program pair) r m
        from source h) [
          | inl (k, q) ↦ q
          | inr (inl (k, q)) ↦ q
          | inr (inr (x, k, other, q)) ↦ elim d [
            | inl a ↦ cc (a, k)
            | inr a ↦
                absurd (other (let e : some x ≡ some (id c p Program pair) = sym k ∙ a in cc e))
          ]
        ]

  pub followed_by-nothing :
      (rounds : ℕ) (x : Ran c p Program pair)
      → followed_by c p Program pair (emit_each c p Program pair rounds []) x ≡ x
  unfolding emit_each
  followed_by-nothing rounds (n, returned done) = refl
  followed_by-nothing rounds (n, thrown x) = refl
  followed_by-nothing rounds (n, undefined) = refl
  followed_by-nothing rounds (n, unfinished) = refl

  pub route_parsed-local :
      (rounds : ℕ) (channel : Channel) (m : Message Point) (n : Node) (source : Point)
      → m.source ≡ some source
      → (m.destination ≡ none) ⊎ (m.destination ≡ some (id c p Program pair))
      → route_parsed c p Program pair rounds channel (ok m) n
        ≡ notify_node c p Program pair rounds (message m (some channel)) n
  unfolding emit_each
  route_parsed-local rounds channel m n source h d =
      ap (λ (x : Result (Effects Point)). routed c p Program pair rounds x n)
        (route-local m (some channel) n.world.routing source h d)
      ∙ followed_by-nothing rounds (
          notify_node c p Program pair rounds (message m (some channel))
            (wrote c p Program pair [] n))
      ∙ ap (notify_node c p Program pair rounds (message m (some channel))) (wrote-nothing n)
