-- ===== src/Node/Whole.antt =====
-- Only a node's own signature changes what the whole other node holds of it.
use legio.Prelude.{
  ℕ, suc, ◌≡◌, ◌≢◌, refl, Option, true, ok, err, some, [], Result, Result-cases, List, inl, inr, ap,
  ◌∙◌,
}
use legio.Crypto.{CryptoPp, CryptoLaws}
use legio.Message.{Message, parse, to_binary}
use legio.Message.Authentic.{parse-authentic}
use legio.State.{State}
use legio.State.Codec.{IsStrictOrder}
use legio.Routing.{Channel, Event, Effects, message, route}
use legio.Routing.Forwarding.{route-events}
use legio.Graph.World.{World, Outcome, returned, thrown, undefined, unfinished}
use legio.Graph.Updates.{hear}
use legio.Graph.Updates.Total.{own, held, IsReady}
use legio.Node.Receive.{notify_graph}
use legio.Node.Room.{HasRoom, sent-Ready}
use legio.Node.Trust.{IsTrusted, hear-IsTrusted, is_settled}
use legio.Node.Accepted.{Received}
use legio.Node.Dispatch.{
  Platform, NodeState, Ran, wrote, notify_node, receive_data, route_parsed, routed, emit_each,
  catch_all,
}
use legio.Node.Handled.{route_parsed-local}
use legio.Node.Aside.{IsAside, unsent, notify_node-IsAside}

module _ (c : CryptoPp) (laws : CryptoLaws c) (order : IsStrictOrder c.point_lt) (p : Platform c)
    (Program : Type 0) (pair : c.PrivateKey) where
  open c use {Point, same_point}

  abbrev Node : Type 0
  Node = NodeState c p Program

  abbrev me : Point
  me = own c laws order p.byte_order pair p.channels p.entropy p.address_lt

  abbrev known : World c → Point → Option (State Point)
  known w j = held c laws order p.byte_order pair p.channels p.entropy p.address_lt w j

  abbrev Ready : World c → Type 0
  Ready w = IsReady c laws order p.byte_order pair p.channels p.entropy p.address_lt w

  abbrev After : List ℕ → Node → World c → Point → Type 0
  After bytes n w j =
      Received c laws order p.byte_order pair p.channels p.entropy p.address_lt bytes n.world w j

  catch_all-settled :
      (x : Ran c p Program pair)
      → is_settled x.1 ≡ true
      → catch_all c p Program pair x ≡ (x.0, returned tt)
  catch_all-settled (n, returned done) h = refl
  catch_all-settled (n, thrown x) h = refl
  catch_all-settled (n, undefined) h = cc h
  catch_all-settled (n, unfinished) h = cc h

  pub same-Ready :
      (w w' : World c) → record w' { sent = [] } ≡ record w { sent = [] } → Ready w → Ready w'
  same-Ready w w' e r =
      sent-Ready c laws order p.byte_order pair p.channels p.entropy p.address_lt
        (record w' { sent = [] }) w'.sent
        (rw e (sent-Ready c laws order p.byte_order pair p.channels p.entropy p.address_lt w [] r))

  unchanged-Received :
      (bytes : List ℕ) (n k : Node) (j : Point)
      → Ready n.world
      → unsent c p Program pair k ≡ unsent c p Program pair n
      → After bytes n k.world j
  unchanged-Received bytes n k j r e = record {
    ready = same-Ready n.world k.world e r;
    change = inr (inl (ap (λ (w : World c). known w j) e));
  }

  -- An event that the graph takes as trusted, and the other components after it.
  trusted-Received :
      (bytes : List ℕ) (m : Message Point) (n : Node) (x : World c × Outcome (Unit {0}))
      (y : Ran c p Program pair) (j : Point)
      → parse c p.byte_order bytes ≡ ok m
      → IsTrusted c laws order p.byte_order pair p.channels p.entropy p.address_lt m.source n.world
          x
      → IsAside c p Program pair (record n { world = x.0 }) y
      → After bytes n y.0.world j
  trusted-Received bytes m n x y j q t a = record {
    ready = same-Ready x.0 y.0.world a.aside t.ready;
    change = elim (t.changes j) [
      | inl k ↦ inl k
      | inr (inl k) ↦
          inr (inr (m, q, k, parse-authentic c laws p.byte_order p.byte_order bytes m j q k))
      | inr (inr k) ↦ inr (inl (ap (λ (w : World c). known w j) a.aside ∙ k))
    ];
  }

  abbrev Ended : ℕ → List ℕ → Channel → Node → Point → Type 0
  Ended rounds bytes channel n j =
      (n' : Node) × (receive_data c p Program pair (suc rounds) bytes channel n ≡ (n', returned tt))
      × After bytes n n'.world j

  ended :
      (rounds : ℕ) (bytes : List ℕ) (channel : Channel) (n : Node) (j : Point)
      (o : Result (Message Point)) (x : Ran c p Program pair)
      → parse c p.byte_order bytes ≡ o
      → route_parsed c p Program pair (suc rounds) channel o n ≡ x
      → is_settled x.1 ≡ true
      → After bytes n x.0.world j
      → Ended rounds bytes channel n j
  unfolding receive_data
  ended rounds bytes channel n j o x q run settled after = (
    x.0,
    ap
          (λ (k : Result (Message Point)).
            catch_all c p Program pair (route_parsed c p Program pair (suc rounds) channel k n))
          q
        ∙ ap (catch_all c p Program pair) run
        ∙ catch_all-settled x settled,
    after,
  )

  -- When bytes arrive on a channel, the callback returns, and what the graph holds of a node `j` other
  -- than this one is changed only if the bytes parse to a message that names `j` as its source and
  -- carries a signature of `j` over all the bytes before it. Required are a message that does not
  -- name this node, a graph that is ready, and room for one more neighbour in the next announcement;
  -- the graph is ready again after all components had the event.
  pub receive_data-Received :
      (rounds : ℕ) (bytes : List ℕ) (channel : Channel) (n : Node) (j : Point)
      → Ready n.world
      → HasRoom c laws order p.byte_order pair p.channels p.entropy p.address_lt n.world
      → ((m : Message Point) → parse c p.byte_order bytes ≡ ok m → m.source ≢ some me)
      → (n' : Node) × (receive_data c p Program pair (suc rounds) bytes channel n
          ≡ (n', returned tt))
        × Received c laws order p.byte_order pair p.channels p.entropy p.address_lt bytes n.world
            n'.world j
  unfolding emit_each notify_graph
  receive_data-Received rounds bytes channel n j r room foreign =
      elim (Result-cases (parse c p.byte_order bytes)) [
        | inl (x, q) ↦
            ended rounds bytes channel n j (err x) (n, thrown x) q refl refl
              (unchanged-Received bytes n n j r refl)
        | inr (m, q) ↦
            elim (Result-cases (
              route same_point (to_binary c p.byte_order) p.channels me n.world.routing m
                (some channel))) [
                  | inl (x, k) ↦
                      ended rounds bytes channel n j (ok m) (n, thrown x) q
                        (ap
                          (λ (o : Result (Effects Point)). routed c p Program pair (suc rounds) o n)
                          k)
                        refl (unchanged-Received bytes n n j r refl)
                  | inr (effects, k) ↦
                      elim (route-events same_point (to_binary c p.byte_order) p.channels me
                        n.world.routing m (some channel) effects k) [
                          | inl none_at_all ↦
                              let k' = wrote c p Program pair effects.sent n in
                              ended rounds bytes channel n j (ok m) (k', returned tt) q
                                (ap
                                    (λ (o : Result (Effects Point)).
                                      routed c p Program pair (suc rounds) o n)
                                    k
                                  ∙ ap
                                      (λ (events : List (Event Point)).
                                        emit_each c p Program pair (suc rounds) events k')
                                      none_at_all)
                                refl (unchanged-Received bytes n k' j r refl)
                          | inr (one, s, h, d) ↦
                              let t =
                                hear-IsTrusted c laws order p.byte_order pair p.channels p.entropy
                                  p.address_lt rounds m s (some channel) n.world h r room
                                  (foreign m q) in
                              let x =
                                hear c p.byte_order pair p.channels p.entropy p.address_lt
                                  (suc rounds) m (some channel) n.world in
                              let y =
                                notify_node c p Program pair (suc rounds) (message m (some channel))
                                  n in
                              let a =
                                notify_node-IsAside c p Program pair (suc rounds)
                                  (message m (some channel)) n t.ends in
                              ended rounds bytes channel n j (ok m) y q
                                (route_parsed-local c p Program pair (suc rounds) channel m n s h d)
                                a.ends (trusted-Received bytes m n x y j q t a)
                        ]
                ]
      ]
