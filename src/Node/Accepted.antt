-- ===== src/Node/Accepted.antt =====
-- Only a node's own signature changes what another node holds of it.
use legio.Prelude.{
  ℕ, suc, ◌-◌, ◌≡◌, ◌≢◌, ◌⊎◌, refl, Bool, true, List, [], ◌∷◌, ◌++◌, length, take, Option, some,
  inl, inr, ok, Result-cases,
}
use legio.Crypto.{CryptoPp, CryptoLaws, verify}
use legio.ByteOrder.{Endian}
use legio.Message.{Message, parse, to_binary}
use legio.Message.Authentic.{parse-authentic}
use legio.State.{State}
use legio.State.Codec.{IsStrictOrder}
use legio.Routing.{Channel, Channels, message, route}
use legio.Routing.Forwarding.{route-events}
use legio.Graph.World.{World, Outcome, returned, thrown, undefined, unfinished, and_then}
use legio.Graph.Updates.{hear}
use legio.Graph.Updates.Total.{own, held, IsReady}
use legio.Node.Receive.{receive_bytes, notify_each, caught, take_message}
use legio.Node.Room.{HasRoom, sent-Ready}
use legio.Node.Trust.{IsTrusted, IsTrusted-refl, IsTrusted-thrown, is_settled, hear-IsTrusted}

module _ (c : CryptoPp) (laws : CryptoLaws c) (order : IsStrictOrder c.point_lt) (e : Endian)
    (pair : c.PrivateKey) (net : Channels) (entropy : ℕ → ℕ)
    (address_lt : c.Point → c.Point → Bool) where
  open c use {Point, same_point, point_lt}

  abbrev me : Point
  me = own c laws order e pair net entropy address_lt

  abbrev known : World c → Point → Option (State Point)
  known w j = held c laws order e pair net entropy address_lt w j

  abbrev Ready : World c → Type 0
  Ready w = IsReady c laws order e pair net entropy address_lt w

  sent-IsTrusted :
      (source : Option Point) (w : World c) (x : World c × Outcome (Unit {0}))
      (out : List (Channel × List ℕ))
      → IsTrusted c laws order e pair net entropy address_lt source (record w { sent = out }) x
      → IsTrusted c laws order e pair net entropy address_lt source w x
  sent-IsTrusted source w x out t = record { ready = t.ready; changes = t.changes; ends = t.ends }

  -- `caught` ends a call that returned or threw.
  caught-settled :
      (x : World c × Outcome (Unit {0}))
      → is_settled x.1 ≡ true
      → caught c e pair net entropy address_lt x ≡ (x.0, returned tt)
  caught-settled (w, returned done) h = refl
  caught-settled (w, thrown x) h = refl
  caught-settled (w, undefined) h = cc h
  caught-settled (w, unfinished) h = cc h

  notify_each-once :
      (rounds : ℕ) (m : Message Point) (from : Option Channel) (w : World c)
      → notify_each c e pair net entropy address_lt rounds (message m from ∷ []) w
        ≡ hear c e pair net entropy address_lt rounds m from w
  unfolding notify_each
  notify_each-once rounds m from w =
      with_outcome (hear c e pair net entropy address_lt rounds m from w)
    where
      with_outcome :
          (x : World c × Outcome (Unit {0}))
          → and_then (λ done. notify_each c e pair net entropy address_lt rounds []) x ≡ x
      with_outcome (v, returned done) = refl
      with_outcome (v, thrown x) = refl
      with_outcome (v, undefined) = refl
      with_outcome (v, unfinished) = refl

  take_message-IsTrusted :
      (rounds : ℕ) (channel : Channel) (m : Message Point) (w : World c)
      → Ready w
      → HasRoom c laws order e pair net entropy address_lt w
      → m.source ≢ some me
      → IsTrusted c laws order e pair net entropy address_lt m.source w
          (take_message c e pair net entropy address_lt (suc rounds) channel (ok m) w)
  unfolding notify_each
  take_message-IsTrusted rounds channel m w r room foreign =
      elim (Result-cases (route same_point (to_binary c e) net me w.routing m (some channel))) [
        | inl (x, q) ↦
            rw q (IsTrusted-thrown c laws order e pair net entropy address_lt m.source w x r)
        | inr (effects, q) ↦
            (let out = w.sent ++ effects.sent in
              let ready = sent-Ready c laws order e pair net entropy address_lt w out r in
              rw q (
                sent-IsTrusted m.source w _ out
                  (elim (route-events same_point (to_binary c e) net me w.routing m (some channel)
                    effects q) [
                      | inl k ↦
                          rw (k, notify_each)
                            (IsTrusted-refl c laws order e pair net entropy address_lt m.source _
                              ready)
                      | inr (k, s, h, d) ↦ rw k (
                          rw
                            (notify_each-once (suc rounds) m (some channel)
                              (record w { sent = out }))
                            (hear-IsTrusted c laws order e pair net entropy address_lt rounds m s
                              (some channel) (record w { sent = out }) h ready room foreign))
                    ])))
      ]

  -- What bytes that arrive may make of `w`, with a view to the node `j`.
  pub record Received (bytes : List ℕ) (w w' : World c) (j : Point) : Type 0 where
    pub ready : Ready w'
    pub change :
        (j ≡ me)
        ⊎ ((known w' j ≡ known w j)
            ⊎ ((m : Message Point) × (parse c e bytes ≡ ok m)
                × (m.source ≡ some j)
                × (verify c j (take (length bytes - length m.signature) bytes) m.signature ≡ true)))

  -- When bytes arrive on a channel, the callback returns, and what the graph holds of a node `j` other
  -- than itself is changed only if the bytes parse to a message that names `j` as its source and
  -- carries a signature of `j` over all the bytes before it. Required are a message that does not
  -- name this node, a graph that is ready, and room for one more neighbour in the next announcement;
  -- the graph is ready again afterwards.
  pub receive_bytes-verify :
      (rounds : ℕ) (bytes : List ℕ) (channel : Channel) (w : World c) (j : Point)
      → Ready w
      → HasRoom c laws order e pair net entropy address_lt w
      → ((m : Message Point) → parse c e bytes ≡ ok m → m.source ≢ some me)
      → (w' : World c) × (receive_bytes c e pair net entropy address_lt (suc rounds) bytes channel w
          ≡ (w', returned tt))
        × Received bytes w w' j
  unfolding receive_bytes
  receive_bytes-verify rounds bytes channel w j r room foreign =
      elim (Result-cases (parse c e bytes)) [
        | inl (x, q) ↦
            (w, rw (q, receive_bytes) refl, record { ready = r; change = inr (inl refl) })
        | inr (m, q) ↦
            (let t = take_message-IsTrusted rounds channel m w r room (foreign m q) in
              let x = take_message c e pair net entropy address_lt (suc rounds) channel (ok m) w in
              (
                x.0,
                rw (q, receive_bytes) (caught-settled x t.ends),
                record {
                  ready = t.ready;
                  change = elim (t.changes j) [
                    | inl a ↦ inl a
                    | inr (inl k) ↦ inr (inr (m, q, k, parse-authentic c laws e e bytes m j q k))
                    | inr (inr k) ↦ inr (inl k)
                  ];
                },
              ))
      ]
