-- ===== src/Node/Spared.antt =====
-- What an event leaves alone that is no user message.
use legio.Prelude.{
  ℕ, ◌≡◌, refl, Option, false, ok, err, none, some, ◌==◌, Bool-cases, Result-cases, Result, List,
  inl, inr, ap, ◌∙◌, ◌⊎◌, arith,
}
use legio.Crypto.{CryptoPp}
use legio.Message.{Message, user_type, to_binary, parse}
use legio.Transport.{Transport, Delivered, notify}
use legio.Transport.Replay.{notify-type}
use legio.Routing.{Channel, Event, message, neighbor, route, Effects}
use legio.Routing.Forwarding.{route-events}
use legio.Graph.World.{returned, thrown, undefined, unfinished}
use legio.Node.Dispatch.{
  Platform, NodeState, id, Ran, Run, signaled, wrote, followed_by, networking_receive, notify_user,
  notify_node, notify_signaling, notify_graph_of, receive_data, route_parsed, catch_all, emit_each,
  routed,
}
use legio.Node.Handled.{IsWired, notify_user-other, notify_node-user, route_parsed-local}

module _ (c : CryptoPp) (p : Platform c) (Program : Type 0) (pair : c.PrivateKey) where
  open c use {Point, same_point}

  abbrev Node : Type 0
  Node = NodeState c p Program

  -- What no event but that of a user message changes.
  pub record IsSpared (n n' : Node) : Type 0 where
    pub program : n'.program ≡ n.program
    pub user : n'.user ≡ n.user
    pub signaling_typed : n'.signaling.type ≡ n.signaling.type

  pub IsSpared-refl : (n : Node) → IsSpared n n
  IsSpared-refl n = record { program = refl; user = refl; signaling_typed = refl }

  IsSpared-trans : (a b d : Node) → IsSpared a b → IsSpared b d → IsSpared a d
  IsSpared-trans a b d h k = record {
    program = k.program ∙ h.program;
    user = k.user ∙ h.user;
    signaling_typed = k.signaling_typed ∙ h.signaling_typed;
  }

  -- A later statement changes no more than it does when it runs.
  followed_by-IsSpared :
      (n : Node) (next : Run c p Program pair) (x : Ran c p Program pair)
      → IsSpared n x.0
      → IsSpared x.0 (next x.0).0
      → IsSpared n (followed_by c p Program pair next x).0
  followed_by-IsSpared n next (k, returned done) h f = IsSpared-trans n k (next k).0 h f
  followed_by-IsSpared n next (k, thrown x) h f = h
  followed_by-IsSpared n next (k, undefined) h f = h
  followed_by-IsSpared n next (k, unfinished) h f = h

  notify_graph_of-IsSpared :
      (rounds : ℕ) (event : Event Point) (n : Node)
      → IsSpared n (notify_graph_of c p Program pair rounds event n).0
  unfolding notify_graph_of
  notify_graph_of-IsSpared rounds event n = record {
    program = refl;
    user = refl;
    signaling_typed = refl;
  }

  signaled-IsSpared :
      (n : Node) (x : Transport Point × Result (Delivered c p.byte_order))
      → x.0.type ≡ n.signaling.type
      → IsSpared n (signaled c p Program pair x n).0
  unfolding networking_receive
  signaled-IsSpared n (t, err x) h = record { program = refl; user = refl; signaling_typed = h }
  signaled-IsSpared n (t, ok none) h = record { program = refl; user = refl; signaling_typed = h }
  signaled-IsSpared n (t, ok (some (source, payload))) h = record {
    program = refl;
    user = refl;
    signaling_typed = h;
  }

  notify_signaling-IsSpared :
      (event : Event Point) (n : Node) → IsSpared n (notify_signaling c p Program pair event n).0
  unfolding notify_signaling
  notify_signaling-IsSpared (message m from) n =
      signaled-IsSpared n (notify c p.byte_order n.world.ecdh n.signaling m)
        (notify-type c p.byte_order n.world.ecdh n.signaling m)
  notify_signaling-IsSpared (neighbor remote_id channel) n = IsSpared-refl n

  pub notify_node-IsSpared :
      (rounds : ℕ) (m : Message Point) (from : Option Channel) (n : Node)
      → (m.type == n.user.type) ≡ false
      → IsSpared n (notify_node c p Program pair rounds (message m from) n).0
  unfolding notify_node
  notify_node-IsSpared rounds m from n h =
      let x =
        followed_by c p Program pair (notify_signaling c p Program pair (message m from))
          (notify_graph_of c p Program pair rounds (message m from) n) in
      let s =
        followed_by-IsSpared n (notify_signaling c p Program pair (message m from))
          (notify_graph_of c p Program pair rounds (message m from) n)
          (notify_graph_of-IsSpared rounds (message m from) n)
          (notify_signaling-IsSpared (message m from)
            (notify_graph_of c p Program pair rounds (message m from) n).0) in
      followed_by-IsSpared n (notify_user c p Program pair (message m from)) x s (
        rw
          (notify_user-other c p Program pair m from x.0
            (ap (λ (t : Transport Point). m.type == t.type) s.user ∙ h))
          (IsSpared-refl x.0))

  catch_all-0 : (x : Ran c p Program pair) → (catch_all c p Program pair x).0 ≡ x.0
  catch_all-0 (n, returned done) = refl
  catch_all-0 (n, thrown x) = refl
  catch_all-0 (n, undefined) = refl
  catch_all-0 (n, unfinished) = refl

  pub IsSpared-as : (n a b : Node) → a ≡ b → IsSpared n b → IsSpared n a
  IsSpared-as n a b e h = record {
    program = ap (λ (k : Node). k.program) e ∙ h.program;
    user = ap (λ (k : Node). k.user) e ∙ h.user;
    signaling_typed = ap (λ (k : Node). k.signaling.type) e ∙ h.signaling_typed;
  }

  -- What the callback of a channel leaves, once the bytes are parsed.
  pub receive_data-0 :
      (rounds : ℕ) (bytes : List ℕ) (channel : Channel) (n : Node) (o : Result (Message Point))
      → parse c p.byte_order bytes ≡ o
      → (receive_data c p Program pair rounds bytes channel n).0
        ≡ (route_parsed c p Program pair rounds channel o n).0
  unfolding receive_data
  receive_data-0 rounds bytes channel n o q =
      ap
        (λ (x : Result (Message Point)).
          (catch_all c p Program pair (route_parsed c p Program pair rounds channel x n)).0)
        q
      ∙ catch_all-0 (route_parsed c p Program pair rounds channel o n)

  -- A user message that the node is handed, and what its transport makes of it.
  pub record IsUserMessage (bytes : List ℕ) (channel : Channel) (n n' : Node) (m : Message Point)
      (s : Point) : Type 0 where
    pub parsed : parse c p.byte_order bytes ≡ ok m
    pub sourced : m.source ≡ some s
    pub local : (m.destination ≡ none) ⊎ (m.destination ≡ some (id c p Program pair))
    pub typed : m.type ≡ user_type
    pub left : n' ≡ (notify_user c p Program pair (message m (some channel)) n).0

  abbrev pub Outcomes : List ℕ → Channel → Node → Node → Type 0
  Outcomes bytes channel n n' =
      IsSpared n n' ⊎ ((m : Message Point) × (s : Point) × IsUserMessage bytes channel n n' m s)

  route_parsed-Outcomes :
      (rounds : ℕ) (bytes : List ℕ) (channel : Channel) (m : Message Point) (n : Node)
      → IsWired c p Program pair n
      → parse c p.byte_order bytes ≡ ok m
      → Outcomes bytes channel n (route_parsed c p Program pair rounds channel (ok m) n).0
  unfolding emit_each
  route_parsed-Outcomes rounds bytes channel m n v q =
      let out = route_parsed c p Program pair rounds channel (ok m) n in
      elim (Result-cases (
        route same_point (to_binary c p.byte_order) p.channels (id c p Program pair) n.world.routing
          m (some channel))) [
            | inl (x, k) ↦ inl (
                IsSpared-as n out.0 n
                  (ap (λ (o : Result (Effects Point)). (routed c p Program pair rounds o n).0) k)
                  (IsSpared-refl n))
            | inr (effects, k) ↦
                let run =
                  ap (λ (o : Result (Effects Point)). (routed c p Program pair rounds o n).0) k in
                elim (route-events same_point (to_binary c p.byte_order) p.channels
                  (id c p Program pair) n.world.routing m (some channel) effects k) [
                    | inl none_at_all ↦ inl (
                        IsSpared-as n out.0 (wrote c p Program pair effects.sent n)
                          (run
                            ∙ ap
                                (λ (events : List (Event Point)).
                                  (emit_each c p Program pair rounds events
                                    (wrote c p Program pair effects.sent n)).0)
                                none_at_all)
                          (record { program = refl; user = refl; signaling_typed = refl }))
                    | inr (one, s, h, d) ↦
                        let local =
                          ap (λ (x : Ran c p Program pair). x.0)
                            (route_parsed-local c p Program pair rounds channel m n s h d) in
                        elim (Bool-cases (m.type == user_type)) [
                          | inl t ↦
                              let typed : m.type ≡ user_type = ground arith in
                              inr (
                                m,
                                s,
                                record {
                                  parsed = q;
                                  sourced = h;
                                  local = d;
                                  typed = typed;
                                  left =
                                      local
                                      ∙ ap (λ (x : Ran c p Program pair). x.0)
                                          (notify_node-user c p Program pair rounds m (some channel)
                                            n v typed);
                                },
                              )
                          | inr t ↦ inl (
                              IsSpared-as n out.0
                                (notify_node c p Program pair rounds (message m (some channel)) n).0
                                local
                                (notify_node-IsSpared rounds m (some channel) n
                                  (ap (λ (k : ℕ). m.type == k) v.user_typed ∙ t)))
                        ]
                  ]
          ]

  -- Bytes that arrive leave the user's side alone, or are a user message for this node.
  pub receive_data-Outcomes :
      (rounds : ℕ) (bytes : List ℕ) (channel : Channel) (n : Node)
      → IsWired c p Program pair n
      → Outcomes bytes channel n (receive_data c p Program pair rounds bytes channel n).0
  receive_data-Outcomes rounds bytes channel n v =
      elim (Result-cases (parse c p.byte_order bytes)) [
        | inl (x, q) ↦ inl (
            IsSpared-as n (receive_data c p Program pair rounds bytes channel n).0 n
              (receive_data-0 rounds bytes channel n (err x) q) (IsSpared-refl n))
        | inr (m, q) ↦ elim (route_parsed-Outcomes rounds bytes channel m n v q) [
          | inl spared ↦ inl (
              IsSpared-as n (receive_data c p Program pair rounds bytes channel n).0
                (route_parsed c p Program pair rounds channel (ok m) n).0
                (receive_data-0 rounds bytes channel n (ok m) q) spared)
          | inr (m', s, u) ↦ inr (
            m',
            s,
            record {
              parsed = u.parsed;
              sourced = u.sourced;
              local = u.local;
              typed = u.typed;
              left = receive_data-0 rounds bytes channel n (ok m) q ∙ u.left;
            },
          )
        ]
      ]

  -- An event about a neighbour leaves the user's side alone.
  pub notify_node-neighbor :
      (rounds : ℕ) (remote_id : Point) (channel : Option Channel) (n : Node)
      → IsSpared n (notify_node c p Program pair rounds (neighbor remote_id channel) n).0
  unfolding notify_node notify_user
  notify_node-neighbor rounds remote_id channel n =
      let event = neighbor remote_id channel in
      let g = notify_graph_of c p Program pair rounds event n in
      let x = followed_by c p Program pair (notify_signaling c p Program pair event) g in
      followed_by-IsSpared n (notify_user c p Program pair event) x
        (followed_by-IsSpared n (notify_signaling c p Program pair event) g
          (notify_graph_of-IsSpared rounds event n) (notify_signaling-IsSpared event g.0))
        (IsSpared-refl x.0)
