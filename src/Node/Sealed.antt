-- ===== src/Node/Sealed.antt =====
-- What a message is that one node encrypts for another, on its way from `Transport::send` to the
-- transport that takes it.
use legio.Prelude.{
  has_value, ℕ, ◌≡◌, ◌≢◌, ◌+◌, ◌^◌, ◌<◌, Bool, Option, true, ok, none, some, [], ◌∷◌, ◌++◌, Result,
  List, length, inl, inr, ap, sym, ◌∙◌, arith, if◌then◌else◌, bytes_eq_refl,
}
use legio.ByteOrder.{Endian}
use legio.Crypto.{CryptoPp, CryptoLaws, ecdh_public_key}
use legio.Cipher.{CipherBody, encrypt, decrypt, parse_cipher, cipher_binary}
use legio.Cipher.Laws.{encrypt-sealed}
use legio.Message.{Message, parse, create, to_binary}
use legio.Message.Authentic.{parse-create}
use legio.State.{State}
use legio.Transport.{Transport, open_body, count_up, send_to}
use legio.Routing.{
  Channel, Channels, Routing, Effects, find_route, send, send_on, forward, route, broadcast,
}
use legio.Routing.Forwarding.{route_cases}
use legio.Graph.Edges.{get_state}
use legio.Graph.World.{World}
use legio.Node.Delivered.{content}

module _ {Identifier : Type 0} (same : Discrete Identifier)
    (encode : Message Identifier → Result (List ℕ)) (net : Channels) where
  forward-routed :
      (d : Identifier) (r : Routing Identifier) (m : Message Identifier) (channel : Channel)
      (bin : List ℕ)
      → find_route same r d ≡ some channel
      → encode m ≡ ok bin
      → net.accepts channel bin ≡ true
      → forward same encode net r m (some d)
        ≡ ok (record { sent = (channel, bin) ∷ []; events = [] })
  unfolding forward send_on
  forward-routed d r m channel bin hr he ha = ground arith

  -- A message for a neighbour that the table knows goes out on its channel.
  send-routed :
      (local d s : Identifier) (r : Routing Identifier) (m : Message Identifier) (channel : Channel)
      (bin : List ℕ)
      → m.source ≡ some s
      → m.destination ≡ some d
      → d ≢ local
      → find_route same r d ≡ some channel
      → encode m ≡ ok bin
      → net.accepts channel bin ≡ true
      → send same encode net local r m ≡ ok (record { sent = (channel, bin) ∷ []; events = [] })
  unfolding send
  send-routed local d s r m channel bin hs hd nl hr he ha =
      (ap
          (λ (b : Bool).
            if b
            then route same encode net local r m none
            else ok (record { sent = broadcast same encode net r m none; events = [] }))
          (ap (λ (o : Option Identifier). has_value o) hd)
        ∙ in_route)
    where
      in_route :
          route same encode net local r m none
          ≡ ok (record { sent = (channel, bin) ∷ []; events = [] })
      in_route = elim (route_cases same encode net local r m none s hs) [
        | inl (k, q) ↦ cc (k, hd)
        | inr (inl (k, q)) ↦ absurd (nl (let e : some d ≡ some local = sym hd ∙ k in cc e))
        | inr (inr (d', k, other, q)) ↦
            let e : some d ≡ some d' = sym hd ∙ k in
            let w : d ≡ d' = cc e in
            q
            ∙ ap (λ (j : Identifier). forward same encode net r m (some j)) (sym w)
            ∙ forward-routed d r m channel bin hr he ha
      ]

module _ (c : CryptoPp) (e : Endian) where
  open c use {Point, same_point, PrivateKey, EcdhKey}

  send_to-sent :
      (pair : PrivateKey) (net : Channels) (local : Point) (r : Routing Point) (ecdh : EcdhKey)
      (seed : ℕ) (iv : List ℕ) (t : Transport Point) (s : State Point) (remote : Point)
      (payload : List ℕ) (b : CipherBody) (m : Message Point) (effects : Effects Point)
      → encrypt c iv payload ecdh s.ecdh_public ≡ ok b
      → create c e seed t.type t.send_sequence (cipher_binary b) (some pair) (some remote) ≡ ok m
      → send same_point (to_binary c e) net local r m ≡ ok effects
      → send_to c e pair net local r ecdh seed iv t (ok s) remote payload ≡ (count_up t, ok effects)
  unfolding send_to
  send_to-sent pair net local r ecdh seed iv t s remote payload b m effects h k q =
      rw (h, send_to) (rw k (rw q))

  -- What a message carries that was encrypted for this node.
  content-sealed :
      (ecdh : EcdhKey) (m : Message Point) (source d : Point) (b : CipherBody) (plain : List ℕ)
      → m.destination ≡ some d
      → parse_cipher m.body ≡ ok b
      → b.destination ≡ ecdh_public_key c ecdh
      → decrypt c b ecdh ≡ ok plain
      → content c e ecdh m source ≡ ok (some (source, plain))
  unfolding open_body
  content-sealed ecdh m source d b plain hd hp hk hc =
      ground (arith, bytes_eq_refl (ecdh_public_key c ecdh))

module _ (c : CryptoPp) (laws : CryptoLaws c) (e e' : Endian) (net : Channels)
    (sender_pair receiver_pair : c.PrivateKey) where
  open c use {Point, same_point, make_public_key}

  abbrev sender_id : Point
  sender_id = make_public_key sender_pair

  abbrev receiver_id : Point
  receiver_id = make_public_key receiver_pair

  -- The sender holds a state with the key that the receiver has, and a route over `channel`, which
  -- takes what it is given.
  pub record IsLinked (channel : Channel) (a b : World c) : Type 0 where
    pub others : receiver_id ≢ sender_id
    pub state : State Point
    pub known : get_state same_point a.vertices receiver_id ≡ ok state
    pub key : state.ecdh_public ≡ ecdh_public_key c b.ecdh
    pub route : find_route same_point a.routing receiver_id ≡ some channel
    pub accepts : (bin : List ℕ) → net.accepts channel bin ≡ true

  -- What the receiver makes of the bytes.
  pub record IsSealed (t : Transport Point) (b : World c) (payload bytes surplus : List ℕ)
      (m : Message Point) : Type 0 where
    pub parsed : parse c e' bytes ≡ ok m
    pub typed : m.type ≡ t.type
    pub numbered : m.sequence ≡ t.send_sequence
    pub sourced : m.source ≡ some sender_id
    pub addressed : m.destination ≡ some receiver_id
    pub extra : length surplus ≡ 32
    pub opened : content c e' b.ecdh m sender_id ≡ ok (some (sender_id, payload ++ surplus))

  -- What `send` writes to the channel, and what it is to the receiver.
  pub send_to-IsSealed :
      (seed : ℕ) (iv payload : List ℕ) (channel : Channel) (t : Transport Point) (a b : World c)
      → IsLinked channel a b
      → t.type < 2 ^ 8
      → t.send_sequence < 2 ^ 32
      → length iv ≡ 16
      → length payload + 162 < 2 ^ 16
      → (bytes : List ℕ) × (surplus : List ℕ) × (m : Message Point) × (send_to c e sender_pair net
            sender_id a.routing a.ecdh seed iv t
            (get_state same_point a.vertices receiver_id)
            receiver_id
            payload
          ≡ (count_up t, ok (record { sent = (channel, bytes) ∷ []; events = [] })))
        × IsSealed t b payload bytes surplus m
  send_to-IsSealed seed iv payload channel t a b link type_byte number hiv fits =
      let (body, surplus, sealed, parsed, opened, size_of, to, total) =
        encrypt-sealed c laws iv payload a.ecdh b.ecdh hiv (omega (arith, fits)) in
      let (m, bytes, made, written, read, type_of, number_of, source_of, destination_of, body_of) =
        parse-create c laws e e' seed t.type t.send_sequence (cipher_binary body) (some sender_pair)
          (some receiver_id) type_byte number (omega (arith, total, fits))
          (laws.valid_public receiver_pair) in
      (
        bytes,
        surplus,
        m,
        ap
              (λ (o : Result (State Point)).
                send_to c e sender_pair net sender_id a.routing a.ecdh seed iv t o receiver_id
                  payload)
              link.known
            ∙ send_to-sent c e sender_pair net sender_id a.routing a.ecdh seed iv t link.state
                receiver_id payload body m (record { sent = (channel, bytes) ∷ []; events = [] })
                (ap (encrypt c iv payload a.ecdh) link.key ∙ sealed) made
                (send-routed same_point (to_binary c e) net sender_id receiver_id sender_id
                  a.routing m channel bytes source_of destination_of link.others link.route written
                  (link.accepts bytes)),
        record {
          parsed = read;
          typed = type_of;
          numbered = number_of;
          sourced = source_of;
          addressed = destination_of;
          extra = size_of;
          opened =
              content-sealed c e' b.ecdh m sender_id receiver_id body (payload ++ surplus)
                destination_of (ap parse_cipher body_of ∙ parsed) to opened;
        },
      )
