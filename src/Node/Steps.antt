-- ===== src/Node/Steps.antt =====
-- The whole node in whatever order its calls and the callbacks of the library come.
use legio.Prelude.{
  find, ◌++◌, ℕ, suc, ◌≡◌, ◌≢◌, ◌≤◌, Option, none, some, List, [], ◌∷◌, length, ok, arith,
  Result-cases, Option-cases, inl, inr, ap, ◌∙◌,
}
use legio.Crypto.{CryptoPp, CryptoLaws}
use legio.Message.{to_binary, Message, parse, create, hello_type}
use legio.State.Codec.{IsStrictOrder}
use legio.Routing.{neighbor, broadcast, Channel}
use legio.Peering.{opened}
use legio.Networking.{link_of, keep_link, Networking, update}
use legio.Transport.{Transport, broadcast_all}
use legio.Graph.World.{World}
use legio.Graph.Updates.{next_number, broadcast_hello, flood}
use legio.Graph.Updates.Total.{own, IsReady}
use legio.Node.Room.{HasRoom, sent-Ready}
use legio.Node.Dispatch.{
  Platform, NodeState, networking_of, keep_networking, receive_data, send_user, node_broadcast,
  emit_each, notify_node,
}
use legio.Node.Handled.{followed_by-nothing, IsWired}
use legio.Node.Spared.{notify_node-neighbor}
use legio.Node.Again.{receive_data-IsWired}
use legio.Node.Whole.{same-Ready, receive_data-Received}
use legio.Node.Life.{update_graph, update_networking, data_channel_opened}
use legio.Node.Kept.{update-fewer}
use legio.Node.Opened.{opened_cases, unlinked-Ready}
use legio.Node.Signals.{send_description}
use legio.Node.Sent.{send_description-IsSendStep, send_user-IsSendStep}

module _ (c : CryptoPp) (laws : CryptoLaws c) (order : IsStrictOrder c.point_lt) (p : Platform c)
    (Program : Type 0) (pair : c.PrivateKey) where
  open c use {Point, same_point, EcdhKey}

  abbrev Node : Type 0
  Node = NodeState c p Program

  abbrev Ready : World c → Type 0
  Ready w = IsReady c laws order p.byte_order pair p.channels p.entropy p.address_lt w

  abbrev Room : World c → Type 0
  Room w = HasRoom c laws order p.byte_order pair p.channels p.entropy p.address_lt w

  -- The transports have their types and the graph is ready.
  pub record IsRunning (n : Node) : Type 0 where
    pub wired : IsWired c p Program pair n
    pub ready : Ready n.world

  -- What `Networking` does without making a neighbour.
  pub networking-IsRunning :
      (g : Networking Point p.rtc.Description) (n : Node)
      → length g.routing.neighbors ≤ length n.world.routing.neighbors
      → IsRunning n
      → IsRunning (keep_networking c p Program pair g n)
  networking-IsRunning g n fewer r = record {
    wired = record { signaling_typed = r.wired.signaling_typed; user_typed = r.wired.user_typed };
    ready = unlinked-Ready c laws order p Program pair n.world g.routing r.ready fewer;
  }

  hello-Ready :
      (w : World c) (number draws : ℕ) (out : List (Channel × List ℕ))
      → Ready w
      → Ready (record w { hello_sequence = number; drawn = draws; sent = out })
  hello-Ready w number draws out r = record {
    map = r.map;
    mine = r.mine;
    is_held = r.is_held;
    own_key = r.own_key;
    ahead = r.ahead;
    word = r.word;
    few = r.few;
  }

  again :
      (n : Node) {w : World c}
      → IsWired c p Program pair n
      → IsWired c p Program pair (record n { world = w })
  again n v = record { signaling_typed = v.signaling_typed; user_typed = v.user_typed }

  pub update_graph-IsRunning :
      (n : Node) → IsRunning n → IsRunning (update_graph c p Program pair n).0
  unfolding update_graph broadcast_hello flood
  update_graph-IsRunning n r =
      elim (Result-cases (
        create c p.byte_order (p.entropy n.world.drawn) hello_type n.world.hello_sequence []
          (some pair) none)) [
            | inl (x, q) ↦
                rw (q, broadcast_hello)
                  (record {
                    wired = again n r.wired;
                    ready =
                        hello-Ready n.world (next_number n.world.hello_sequence) (suc n.world.drawn)
                          n.world.sent r.ready;
                  })
            | inr (m, q) ↦
                rw (q, broadcast_hello)
                  (record {
                    wired = again n r.wired;
                    ready =
                        hello-Ready n.world (next_number n.world.hello_sequence) (suc n.world.drawn)
                          (n.world.sent
                            ++ broadcast same_point (to_binary c p.byte_order) p.channels
                                n.world.routing m none)
                          r.ready;
                  })
          ]

  pub node_broadcast-IsRunning :
      (seed : ℕ) (payload : List ℕ) (n : Node)
      → IsRunning n
      → IsRunning (node_broadcast c p Program pair seed payload n).0
  unfolding node_broadcast broadcast_all
  node_broadcast-IsRunning seed payload n r =
      elim (Result-cases
        (create c p.byte_order seed n.user.type n.user.send_sequence payload (some pair) none)) [
          | inl (x, q) ↦
              rw (q, broadcast_all)
                (record {
                  wired = record {
                    signaling_typed = r.wired.signaling_typed;
                    user_typed = r.wired.user_typed;
                  };
                  ready = r.ready;
                })
          | inr (m, q) ↦
              rw (q, broadcast_all)
                (record {
                  wired = record {
                    signaling_typed = r.wired.signaling_typed;
                    user_typed = r.wired.user_typed;
                  };
                  ready =
                      sent-Ready c laws order p.byte_order pair p.channels p.entropy p.address_lt
                        n.world
                        (n.world.sent
                          ++ broadcast same_point (to_binary c p.byte_order) p.channels
                              n.world.routing m none)
                        r.ready;
                })
        ]

  pub update_networking-IsRunning :
      (fresh : ℕ → Channel) (shuffle : List Point → List Point) (n : Node)
      → IsRunning n
      → IsRunning (update_networking c p Program pair fresh shuffle n).0
  unfolding update_networking
  update_networking-IsRunning fresh shuffle n r =
      elim (Option-cases (update same_point fresh shuffle (networking_of c p Program pair n))) [
        | inl k ↦ rw (k, update_networking) r
        | inr (g, k) ↦
            rw (k, update_networking)
              (networking-IsRunning g n
                (omega (
                  arith,
                  update-fewer same_point fresh shuffle (networking_of c p Program pair n) g k,
                ))
                r)
      ]

  told-IsWired :
      (rounds : ℕ) (k : Node) (id : Point) (channel : Option Channel)
      → IsWired c p Program pair k
      → IsWired c p Program pair (emit_each c p Program pair rounds (neighbor id channel ∷ []) k).0
  unfolding emit_each
  told-IsWired rounds k id channel v =
      let s = notify_node-neighbor c p Program pair rounds id channel k in
      let x = notify_node c p Program pair rounds (neighbor id channel) k in
      rw (followed_by-nothing c p Program pair rounds x) (record {
        signaling_typed = s.signaling_typed ∙ v.signaling_typed;
        user_typed = ap (λ (t : Transport Point). t.type) s.user ∙ v.user_typed;
      })

  pub data_channel_opened-IsWired :
      (rounds : ℕ) (id : Point) (n : Node)
      → IsWired c p Program pair n
      → IsWired c p Program pair (data_channel_opened c p Program pair rounds id n).0
  unfolding data_channel_opened
  data_channel_opened-IsWired rounds id n v = elim (Option-cases (find same_point id n.peerings)) [
    | inl k ↦ rw (k, data_channel_opened) v
    | inr (peering, k) ↦
        let l = link_of same_point (networking_of c p Program pair n) peering in
        elim (Option-cases (opened same_point l)) [
          | inl q ↦ rw (k, data_channel_opened) (rw q v)
          | inr ((l', event), q) ↦
              let kept =
                keep_networking c p Program pair
                  (keep_link same_point id (networking_of c p Program pair n) l') n in
              let v' : IsWired c p Program pair kept = record {
                signaling_typed = v.signaling_typed;
                user_typed = v.user_typed;
              } in
              elim (opened_cases c laws order p Program pair l l' event q).1 [
                | inl z ↦ rw (k, data_channel_opened) (rw q (rw z v'))
                | inr (channel, z) ↦
                    rw (k, data_channel_opened)
                      (rw q (rw z (told-IsWired rounds kept peering.remote_id (some channel) v')))
              ]
        ]
  ]

  pub receive_data-IsRunning :
      (rounds : ℕ) (bytes : List ℕ) (channel : Channel) (n : Node)
      → Room n.world
      → ((m : Message Point)
          → parse c p.byte_order bytes ≡ ok m
          → m.source ≢ some (own c laws order p.byte_order pair p.channels p.entropy p.address_lt))
      → IsRunning n
      → IsRunning (receive_data c p Program pair (suc rounds) bytes channel n).0
  receive_data-IsRunning rounds bytes channel n room foreign r =
      let (n', run, after) =
        receive_data-Received c laws order p Program pair rounds bytes channel n
          (own c laws order p.byte_order pair p.channels p.entropy p.address_lt) r.ready room
          foreign in
      record {
        wired = receive_data-IsWired c p Program pair (suc rounds) bytes channel n r.wired;
        ready = rw run after.ready;
      }

  pub send_user-IsRunning :
      (rounds : ℕ) (iv : List ℕ) (seed : ℕ) (id : Point) (payload : List ℕ) (n : Node)
      → IsRunning n
      → IsRunning (send_user c p Program pair rounds iv seed id payload n).0
  send_user-IsRunning rounds iv seed id payload n r =
      let s = send_user-IsSendStep c p Program pair rounds iv seed id payload n r.wired in
      record {
        wired = s.wired;
        ready =
            same-Ready c laws order p Program pair n.world
              (send_user c p Program pair rounds iv seed id payload n).0.world s.aside r.ready;
      }

  pub send_description-IsRunning :
      (rounds : ℕ) (iv : List ℕ) (seed : ℕ) (id : Point) (d : p.rtc.Description) (n : Node)
      → IsRunning n
      → IsRunning (send_description c p Program pair rounds iv seed id d n).0
  send_description-IsRunning rounds iv seed id d n r =
      let s = send_description-IsSendStep c p Program pair rounds iv seed id d n r.wired in
      record {
        wired = s.wired;
        ready =
            same-Ready c laws order p Program pair n.world
              (send_description c p Program pair rounds iv seed id d n).0.world s.aside r.ready;
      }
