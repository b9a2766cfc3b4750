-- ===== src/Node/Delivered.antt =====
-- What reaches the user's callback, of the bytes that arrive at the whole node.
use legio.Prelude.{
  ℕ, ◌≡◌, refl, Option, true, ok, err, none, some, ◌==◌, if◌then◌else◌, has_value, Result, List, ap,
  ◌∙◌, arith, find,
}
use legio.ByteOrder.{Endian}
use legio.Crypto.{CryptoPp}
use legio.Message.{Message}
use legio.Transport.{
  Transport, Delivered, check_sequence, incoming, incoming_any, open_body, notify_any,
}
use legio.Transport.Replay.{is_fresh, check_sequence_lem}
use legio.Routing.{Channel, Channels, Routing, message}
use legio.Node.{receive_user}
use legio.Node.Dispatch.{Platform, NodeState, id, delivered, wrote, notify_user}
use legio.Node.Handled.{notify_any-some}

module _ (c : CryptoPp) (e : Endian) where
  open c use {Point, same_point, PrivateKey, EcdhKey}

  -- What a message from `source` carries for the user, if its number is accepted.
  abbrev pub content : EcdhKey → Message Point → Point → Result (Delivered c e)
  content ecdh m source =
      if has_value m.destination then open_body c e ecdh m source else ok (some (source, m.body))

  abbrev pub content_of : Option ℕ → EcdhKey → Message Point → Point → Result (Delivered c e)
  content_of last ecdh m source =
      if is_fresh last m.sequence then content ecdh m source else ok none

  incoming_any-content :
      (pair : PrivateKey) (net : Channels) (local : Point) (r : Routing Point) (ecdh : EcdhKey)
      (t : Transport Point) (m : Message Point) (source : Point) (from : Option Channel)
      → (m.type == t.type) ≡ true
      → (incoming_any c e pair net local r ecdh t m source from).1.0
        ≡ content_of (find same_point source t.sequences) ecdh m source
  unfolding incoming_any incoming
  incoming_any-content pair net local r ecdh t m source from h =
      ground (arith, (check_sequence_lem same_point t source source m.sequence).0)

  -- The number of a message is noted.
  incoming_any-noted :
      (pair : PrivateKey) (net : Channels) (local : Point) (r : Routing Point) (ecdh : EcdhKey)
      (t : Transport Point) (m : Message Point) (source : Point) (from : Option Channel)
      → (m.type == t.type) ≡ true
      → (incoming_any c e pair net local r ecdh t m source from).0
        ≡ (check_sequence same_point t source m.sequence).0
  unfolding incoming_any incoming
  incoming_any-noted pair net local r ecdh t m source from h = ground arith

  pub content-source :
      (ecdh : EcdhKey) (m : Message Point) (source : Point) (got : Point × List ℕ)
      → content ecdh m source ≡ ok (some got)
      → got.0 ≡ source
  unfolding open_body
  content-source ecdh m source got h = ground arith

module _ (c : CryptoPp) (p : Platform c) (Program : Type 0) (pair : c.PrivateKey) where
  open c use {Point, same_point}

  abbrev Node : Type 0
  Node = NodeState c p Program

  -- What the program becomes when the callback, if there is one, is handed `got`.
  abbrev pub given : Node → Result (Delivered c p.byte_order) → Program
  given n (err x) = n.program
  given n (ok none) = n.program
  given n (ok (some (source, payload))) = receive_user n.message_callback source payload n.program

  delivered-given :
      (n : Node) (got : Result (Delivered c p.byte_order))
      → (delivered c p Program pair got n).0.program ≡ given n got
  delivered-given n (err x) = refl
  delivered-given n (ok none) = refl
  delivered-given n (ok (some (source, payload))) = refl

  given-wrote :
      (n : Node) (t : Transport Point) (out : List (Channel × List ℕ))
      (got : Result (Delivered c p.byte_order))
      → given (wrote c p Program pair out (record n { user = t })) got ≡ given n got
  given-wrote n t out (err x) = refl
  given-wrote n t out (ok none) = refl
  given-wrote n t out (ok (some (source, payload))) = refl

  -- What the user is handed of a user message from `source`.
  abbrev pub content_at : Node → Message Point → Point → Result (Delivered c p.byte_order)
  content_at n m source =
      content_of c p.byte_order (find same_point source n.user.sequences) n.world.ecdh m source

  pub notify_user-given :
      (m : Message Point) (from : Option Channel) (n : Node) (source : Point)
      → m.source ≡ some source
      → (m.type == n.user.type) ≡ true
      → (notify_user c p Program pair (message m from) n).0.program
        ≡ given n (content_at n m source)
  unfolding notify_user
  notify_user-given m from n source h k =
      let x =
        notify_any c p.byte_order pair p.channels (id c p Program pair) n.world.routing n.world.ecdh
          n.user m from in
      delivered-given (wrote c p Program pair x.1.1 (record n { user = x.0 })) x.1.0
      ∙ given-wrote n x.0 x.1.1 x.1.0
      ∙ ap (given n) (
          ap
            (λ (y : Transport Point
                × (Result (Delivered c p.byte_order) × List (Channel × List ℕ))).
              y.1.0)
            (notify_any-some c p.byte_order pair p.channels (id c p Program pair) n.world.routing
              n.world.ecdh n.user m from source h k)
          ∙ incoming_any-content c p.byte_order pair p.channels (id c p Program pair)
              n.world.routing n.world.ecdh n.user m source from k)

  delivered-user :
      (n : Node) (got : Result (Delivered c p.byte_order))
      → (delivered c p Program pair got n).0.user ≡ n.user
  delivered-user n (err x) = refl
  delivered-user n (ok none) = refl
  delivered-user n (ok (some (source, payload))) = refl

  pub notify_user-noted :
      (m : Message Point) (from : Option Channel) (n : Node) (source : Point)
      → m.source ≡ some source
      → (m.type == n.user.type) ≡ true
      → (notify_user c p Program pair (message m from) n).0.user
        ≡ (check_sequence same_point n.user source m.sequence).0
  unfolding notify_user
  notify_user-noted m from n source h k =
      let x =
        notify_any c p.byte_order pair p.channels (id c p Program pair) n.world.routing n.world.ecdh
          n.user m from in
      delivered-user (wrote c p Program pair x.1.1 (record n { user = x.0 })) x.1.0
      ∙ ap
          (λ (y : Transport Point × (Result (Delivered c p.byte_order) × List (Channel × List ℕ))).
            y.0)
          (notify_any-some c p.byte_order pair p.channels (id c p Program pair) n.world.routing
            n.world.ecdh n.user m from source h k)
      ∙ incoming_any-noted c p.byte_order pair p.channels (id c p Program pair) n.world.routing
          n.world.ecdh n.user m source from k

  delivered-signaling :
      (n : Node) (got : Result (Delivered c p.byte_order))
      → (delivered c p Program pair got n).0.signaling ≡ n.signaling
  delivered-signaling n (err x) = refl
  delivered-signaling n (ok none) = refl
  delivered-signaling n (ok (some (source, payload))) = refl

  pub notify_user-signaling :
      (m : Message Point) (from : Option Channel) (n : Node)
      → (notify_user c p Program pair (message m from) n).0.signaling ≡ n.signaling
  unfolding notify_user
  notify_user-signaling m from n =
      let x =
        notify_any c p.byte_order pair p.channels (id c p Program pair) n.world.routing n.world.ecdh
          n.user m from in
      delivered-signaling (wrote c p Program pair x.1.1 (record n { user = x.0 })) x.1.0
