-- ===== src/Node/Aside.antt =====
-- What the handlers of the transports leave of the graph and the routing: all but what was written to
-- channels.
use legio.Prelude.{ℕ, ◌≡◌, refl, Bool, true, ok, err, none, some, [], Result, List, ap, ◌∙◌, arith}
use legio.Crypto.{CryptoPp, identifier_gt}
use legio.Peering.{WebRtc, Link, receive, take_description}
use legio.Networking.{Networking, receive_signaling, keep_link}
use legio.Transport.{Transport, Delivered, notify, notify_any}
use legio.Routing.{Channel, Event, message, neighbor, Routing}
use legio.Graph.World.{World, returned, thrown, undefined, unfinished}
use legio.Node.Kept.{create_peering-routing}
use legio.Node.Receive.{notify_graph}
use legio.Node.Trust.{is_settled}
use legio.Node.Dispatch.{
  Platform, NodeState, Ran, Run, id, wrote, followed_by, networking_receive, signaled, delivered,
  notify_user, notify_signaling, notify_node, notify_graph_of, outcome_of,
}

module _ (rtc : WebRtc) {Identifier : Type 0} (same : Discrete Identifier)
    (greater : Identifier → Identifier → Bool) (local : Identifier) where
  open rtc use {Description}

  take_description-routing :
      (have : Bool) (l : Link Identifier Description) (d : Result Description)
      → (take_description rtc greater local have l d).0.routing ≡ l.routing
  take_description-routing have l (err x) = refl
  take_description-routing have l (ok d) = ground arith

  -- Signaling changes no route.
  pub receive_signaling-routing :
      (offers : Identifier → Bool) (id : Identifier) (payload : List ℕ)
      (n : Networking Identifier Description)
      → (receive_signaling rtc same greater local offers id payload n).0.routing ≡ n.routing
  unfolding receive_signaling receive keep_link
  receive_signaling-routing offers id payload n =
      take_description-routing (offers id) _ _ ∙ create_peering-routing same id n

module _ (c : CryptoPp) (p : Platform c) (Program : Type 0) (pair : c.PrivateKey) where
  open c use {Point, same_point}

  abbrev Node : Type 0
  Node = NodeState c p Program

  -- All but what was written to channels.
  abbrev pub unsent : Node → World c
  unsent n = record n.world { sent = [] }

  -- A handler that leaves the graph alone and ends.
  pub record IsAside (n : Node) (x : Ran c p Program pair) : Type 0 where
    pub aside : unsent x.0 ≡ unsent n
    pub ends : is_settled x.1 ≡ true

  outcome_of-ends : (o : Result (Unit {0})) → is_settled (outcome_of c p Program pair o) ≡ true
  outcome_of-ends (ok done) = refl
  outcome_of-ends (err x) = refl

  networking_receive-IsAside :
      (source : Point) (payload : List ℕ) (n : Node)
      → IsAside n (networking_receive c p Program pair source payload n)
  unfolding networking_receive
  networking_receive-IsAside source payload n =
      let g : Networking Point p.rtc.Description = record {
        peerings = n.peerings;
        routing = n.world.routing;
        calls = n.calls;
        created = n.created;
      } in
      let x =
        receive_signaling p.rtc same_point (identifier_gt c) (id c p Program pair)
          p.have_local_offer source payload g in
      record {
        aside =
            ap (λ (r : Routing Point). record n.world { routing = r; sent = [] })
              (receive_signaling-routing p.rtc same_point (identifier_gt c) (id c p Program pair)
                p.have_local_offer source payload g);
        ends = outcome_of-ends x.1;
      }

  signaled-IsAside :
      (n : Node) (x : Transport Point × Result (Delivered c p.byte_order))
      → IsAside n (signaled c p Program pair x n)
  signaled-IsAside n (t, err x) = record { aside = refl; ends = refl }
  signaled-IsAside n (t, ok none) = record { aside = refl; ends = refl }
  signaled-IsAside n (t, ok (some (source, payload))) =
      let a = networking_receive-IsAside source payload (record n { signaling = t }) in
      record { aside = a.aside; ends = a.ends }

  notify_signaling-IsAside :
      (event : Event Point) (n : Node) → IsAside n (notify_signaling c p Program pair event n)
  unfolding notify_signaling
  notify_signaling-IsAside (message m from) n =
      signaled-IsAside n (notify c p.byte_order n.world.ecdh n.signaling m)
  notify_signaling-IsAside (neighbor remote_id channel) n = record { aside = refl; ends = refl }

  delivered-IsAside :
      (n : Node) (t : Transport Point) (out : List (Channel × List ℕ))
      (got : Result (Delivered c p.byte_order))
      → IsAside n
          (delivered c p Program pair got (wrote c p Program pair out (record n { user = t })))
  delivered-IsAside n t out (err x) = record { aside = refl; ends = refl }
  delivered-IsAside n t out (ok none) = record { aside = refl; ends = refl }
  delivered-IsAside n t out (ok (some (source, payload))) = record { aside = refl; ends = refl }

  pub notify_user-IsAside :
      (event : Event Point) (n : Node) → IsAside n (notify_user c p Program pair event n)
  unfolding notify_user
  notify_user-IsAside (message m from) n =
      let x =
        notify_any c p.byte_order pair p.channels (id c p Program pair) n.world.routing n.world.ecdh
          n.user m from in
      delivered-IsAside n x.0 x.1.1 x.1.0
  notify_user-IsAside (neighbor remote_id channel) n = record { aside = refl; ends = refl }

  followed_by-IsAside :
      (n : Node) (next : Run c p Program pair) (x : Ran c p Program pair)
      → IsAside n x
      → IsAside x.0 (next x.0)
      → IsAside n (followed_by c p Program pair next x)
  followed_by-IsAside n next (k, returned done) a b = record {
    aside = b.aside ∙ a.aside;
    ends = b.ends;
  }
  followed_by-IsAside n next (k, thrown x) a b = a
  followed_by-IsAside n next (k, undefined) a b = a
  followed_by-IsAside n next (k, unfinished) a b = a

  -- What the whole node makes of an event is for the graph what its own handler makes of it.
  pub notify_node-IsAside :
      (rounds : ℕ) (event : Event Point) (n : Node)
      → is_settled
          (notify_graph c p.byte_order pair p.channels p.entropy p.address_lt rounds event
            n.world).1
        ≡ true
      → IsAside
          (record n {
            world =
                (notify_graph c p.byte_order pair p.channels p.entropy p.address_lt rounds event
                  n.world).0;
          })
          (notify_node c p Program pair rounds event n)
  unfolding notify_node notify_graph_of
  notify_node-IsAside rounds event n h =
      let w =
        notify_graph c p.byte_order pair p.channels p.entropy p.address_lt rounds event n.world in
      let k : Node = record n { world = w.0 } in
      let g : Ran c p Program pair = (k, w.1) in
      let x = followed_by c p Program pair (notify_signaling c p Program pair event) g in
      followed_by-IsAside k (notify_user c p Program pair event) x
        (followed_by-IsAside k (notify_signaling c p Program pair event) g
          (record { aside = refl; ends = h }) (notify_signaling-IsAside event k))
        (notify_user-IsAside event x.0)
