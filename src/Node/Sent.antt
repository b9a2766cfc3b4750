-- ===== src/Node/Sent.antt =====
-- What `send` of either transport leaves: the transports keep their types and the graph stays as it
-- is.
use legio.Prelude.{
  ℕ, ◌≡◌, ◌⊎◌, refl, none, some, List, [], ◌∷◌, Result, ok, err, inl, inr, ap, ◌∙◌, false, ◌==◌,
}
use legio.Crypto.{CryptoPp}
use legio.Message.{Message, user_type, signaling_type, hello_type, state_type}
use legio.Transport.{Transport, send_to}
use legio.Routing.{Effects, message, Event}
use legio.Graph.Edges.{get_state}
use legio.Node.Dispatch.{
  Ran, id, Platform, NodeState, send_user, routed, emit_each, wrote, notify_node, notify_user,
  notify_graph_of,
}
use legio.Binary.Strings.{pack_strings}
use legio.Node.Signals.{send_description}
use legio.Node.Spared.{notify_node-IsSpared}
use legio.Node.Emitted.{send_to-IsSent}
use legio.Node.Trust.{is_settled}
use legio.Node.Aside.{notify_node-IsAside, unsent, notify_user-IsAside}
use legio.Node.Handled.{notify_graph_of-other, IsWired, notify_node-user, followed_by-nothing}
use legio.Node.Again.{notify_user-IsWired}
use legio.Node.Delivered.{notify_user-signaling}

module _ (c : CryptoPp) (p : Platform c) (Program : Type 0) (pair : c.PrivateKey) where
  open c use {Point, same_point}

  abbrev Node : Type 0
  Node = NodeState c p Program

  -- The transports have their types, and the graph and the routing are as they were.
  pub record IsSendStep (n n' : Node) : Type 0 where
    pub wired : IsWired c p Program pair n'
    pub aside : unsent c p Program pair n' ≡ unsent c p Program pair n

  IsSendStep-as : (n a b : Node) → a ≡ b → IsSendStep n b → IsSendStep n a
  IsSendStep-as n a b h s = rw h s

  -- What a message of the type `type` to this node itself leaves.
  abbrev Handles : ℕ → ℕ → Type 0
  Handles rounds type =
      (m : Message Point) (s : Point) (k : Node)
      → IsWired c p Program pair k
      → m.source ≡ some s
      → m.type ≡ type
      → IsSendStep k (notify_node c p Program pair rounds (message m none) k).0

  user-Handles : (rounds : ℕ) → Handles rounds user_type
  user-Handles rounds m s k v h t =
      let x = notify_user c p Program pair (message m none) k in
      IsSendStep-as k (notify_node c p Program pair rounds (message m none) k).0 x.0
        (ap (λ (y : Ran c p Program pair). y.0)
          (notify_node-user c p Program pair rounds m none k v t))
        (record {
          wired = record {
            signaling_typed =
                ap (λ (y : Transport Point). y.type)
                  (notify_user-signaling c p Program pair m none k)
                ∙ v.signaling_typed;
            user_typed = notify_user-IsWired c p Program pair m none k s v h t;
          };
          aside = (notify_user-IsAside c p Program pair (message m none) k).aside;
        })

  signaling-Handles : (rounds : ℕ) → Handles rounds signaling_type
  unfolding notify_graph_of
  signaling-Handles rounds m s k v h t =
      let other : (m.type == k.user.type) ≡ false =
        ap (λ (x : ℕ). x == k.user.type) t ∙ ap (λ (x : ℕ). signaling_type == x) v.user_typed in
      let spared = notify_node-IsSpared c p Program pair rounds m none k other in
      let quiet =
        notify_graph_of-other c p Program pair rounds m none k (ap (λ (x : ℕ). x == hello_type) t)
          (ap (λ (x : ℕ). x == state_type) t) in
      let a =
        notify_node-IsAside c p Program pair rounds (message m none) k
          (ap (λ (x : Ran c p Program pair). is_settled x.1) quiet) in
      record {
        wired = record {
          signaling_typed = spared.signaling_typed ∙ v.signaling_typed;
          user_typed = ap (λ (x : Transport Point). x.type) spared.user ∙ v.user_typed;
        };
        aside = a.aside ∙ ap (λ (x : Ran c p Program pair). unsent c p Program pair x.0) quiet;
      }

  -- What `routed` leaves of a result that `send_to` can have.
  routed-IsSendStep :
      (rounds type : ℕ) (n k : Node) (result : Result (Effects Point))
      → Handles rounds type
      → IsSendStep n k
      → ((effects : Effects Point)
          → result ≡ ok effects
          → (effects.events ≡ [])
            ⊎ ((m : Message Point) × (s : Point) × (effects.events ≡ message m none ∷ [])
                × (m.source ≡ some s)
                × (m.type ≡ type)))
      → IsSendStep n (routed c p Program pair rounds result k).0
  unfolding emit_each
  routed-IsSendStep rounds type n k (err x) handles u emitted = u
  routed-IsSendStep rounds type n k (ok effects) handles u emitted =
      let k' = wrote c p Program pair effects.sent k in
      let v : IsWired c p Program pair k' = record {
        signaling_typed = u.wired.signaling_typed;
        user_typed = u.wired.user_typed;
      } in
      let ran = λ (events : List (Event Point)). (emit_each c p Program pair rounds events k').0 in
      elim (emitted effects refl) [
        | inl q ↦
            IsSendStep-as n (emit_each c p Program pair rounds effects.events k').0 k' (ap ran q)
              (record { wired = v; aside = u.aside })
        | inr (m, s, q, h, t) ↦
            let step = handles m s k' v h t in
            let x = notify_node c p Program pair rounds (message m none) k' in
            IsSendStep-as n (emit_each c p Program pair rounds effects.events k').0 x.0
              (ap ran q
                ∙ ap (λ (y : Ran c p Program pair). y.0)
                    (followed_by-nothing c p Program pair rounds x))
              (record { wired = step.wired; aside = step.aside ∙ u.aside })
      ]

  -- Sending to a node, this one included, is no matter of the graph.
  pub send_user-IsSendStep :
      (rounds : ℕ) (iv : List ℕ) (seed : ℕ) (remote_id : Point) (payload : List ℕ) (n : Node)
      → IsWired c p Program pair n
      → IsSendStep n (send_user c p Program pair rounds iv seed remote_id payload n).0
  unfolding send_user
  send_user-IsSendStep rounds iv seed remote_id payload n v =
      let s =
        send_to-IsSent c p.byte_order pair p.channels (id c p Program pair) n.world.routing
          n.world.ecdh seed iv n.user (get_state same_point n.world.vertices remote_id) remote_id
          payload in
      let x =
        send_to c p.byte_order pair p.channels (id c p Program pair) n.world.routing n.world.ecdh
          seed iv n.user (get_state same_point n.world.vertices remote_id) remote_id payload in
      routed-IsSendStep rounds user_type n (record n { user = x.0 }) x.1 (user-Handles rounds)
        (record {
          wired = record {
            signaling_typed = v.signaling_typed;
            user_typed = s.same_type ∙ v.user_typed;
          };
          aside = refl;
        })
        (λ effects h. elim (s.emitted effects h) [
          | inl k ↦ inl k
          | inr (m, source, k, q, t) ↦ inr (m, source, k, q, t ∙ v.user_typed)
        ])

  -- Nor is what the networking sends.
  pub send_description-IsSendStep :
      (rounds : ℕ) (iv : List ℕ) (seed : ℕ) (remote_id : Point) (d : p.rtc.Description) (n : Node)
      → IsWired c p Program pair n
      → IsSendStep n (send_description c p Program pair rounds iv seed remote_id d n).0
  unfolding send_description
  send_description-IsSendStep rounds iv seed remote_id d n v =
      let payload = pack_strings (p.rtc.type_string d ∷ p.rtc.sdp d ∷ []) in
      let s =
        send_to-IsSent c p.byte_order pair p.channels (id c p Program pair) n.world.routing
          n.world.ecdh seed iv n.signaling (get_state same_point n.world.vertices remote_id)
          remote_id payload in
      let x =
        send_to c p.byte_order pair p.channels (id c p Program pair) n.world.routing n.world.ecdh
          seed iv n.signaling (get_state same_point n.world.vertices remote_id) remote_id payload in
      routed-IsSendStep rounds signaling_type n (record n { signaling = x.0 }) x.1
        (signaling-Handles rounds)
        (record {
          wired = record {
            signaling_typed = s.same_type ∙ v.signaling_typed;
            user_typed = v.user_typed;
          };
          aside = refl;
        })
        (λ effects h. elim (s.emitted effects h) [
          | inl k ↦ inl k
          | inr (m, source, k, q, t) ↦ inr (m, source, k, q, t ∙ v.signaling_typed)
        ])
