-- ===== src/Node/Emitted.antt =====
-- What `send` of a transport emits: at most the message itself, to this node.
use legio.Prelude.{
  ℕ, ◌≡◌, ◌⊎◌, refl, Bool, Option, none, some, List, [], ◌∷◌, Result, ok, err, ◌>>=◌, arith,
  has_value, if◌then◌else◌, Result-cases, inl, inr, ap, sym, ◌∙◌,
}
use legio.ByteOrder.{Endian}
use legio.Crypto.{CryptoPp}
use legio.Cipher.{CipherBody, encrypt, cipher_binary}
use legio.Message.{Message, create, to_binary, sign_with}
use legio.State.{State}
use legio.Transport.{Transport, send_to, count_up}
use legio.Routing.{Channels, Routing, Effects, message, send, route, broadcast}
use legio.Routing.Forwarding.{route-events}

module _ (c : CryptoPp) (e : Endian) where
  open c use {Point, same_point, PrivateKey, EcdhKey}

  create-type :
      (seed type sequence : ℕ) (body : List ℕ) (pair : PrivateKey) (destination : Option Point)
      (m : Message Point)
      → create c e seed type sequence body (some pair) destination ≡ ok m
      → m.type ≡ type
  unfolding create sign_with
  create-type seed type sequence body pair destination m h = ground arith

  create-destination :
      (seed type sequence : ℕ) (body : List ℕ) (pair : PrivateKey) (destination : Option Point)
      (m : Message Point)
      → create c e seed type sequence body (some pair) destination ≡ ok m
      → m.destination ≡ destination
  unfolding create sign_with
  create-destination seed type sequence body pair destination m h = ground arith

  module _ (pair : PrivateKey) (net : Channels) (local : Point) (r : Routing Point) where
    -- What `send_to` does once the body was encrypted, or not.
    abbrev encrypted :
        ℕ → Transport Point → Point → Result CipherBody → Transport Point × Result (Effects Point)
    encrypted seed t remote o = elim o [
      | err x ↦ (t, err x)
      | ok b ↦ (
        count_up t,
        create c e seed t.type t.send_sequence (cipher_binary b) (some pair) (some remote) >>= λ m.
            send same_point (to_binary c e) net local r m,
      )
    ]

    -- The counter may go up; an event is the message itself, to this node.
    pub record IsSent (t : Transport Point) (x : Transport Point × Result (Effects Point))
        : Type 0 where
      pub same_type : x.0.type ≡ t.type
      pub emitted :
          (effects : Effects Point)
          → x.1 ≡ ok effects
          → (effects.events ≡ [])
            ⊎ ((m : Message Point) × (s : Point) × (effects.events ≡ message m none ∷ [])
                × (m.source ≡ some s)
                × (m.type ≡ t.type))

    send-events :
        (m : Message Point) (remote : Point) (effects : Effects Point)
        → m.destination ≡ some remote
        → send same_point (to_binary c e) net local r m ≡ ok effects
        → route same_point (to_binary c e) net local r m none ≡ ok effects
    unfolding send
    send-events m remote effects d h =
        sym (
          ap
            (λ (b : Bool).
              if b
              then route same_point (to_binary c e) net local r m none
              else ok (record {
                sent = broadcast same_point (to_binary c e) net r m none;
                events = [];
              }))
            (ap (λ (o : Option Point). has_value o) d))
        ∙ h

    encrypted-IsSent :
        (seed : ℕ) (t : Transport Point) (remote : Point) (o : Result CipherBody)
        → IsSent t (encrypted seed t remote o)
    encrypted-IsSent seed t remote (err x) = record {
      same_type = refl;
      emitted = λ effects h. cc h;
    }
    encrypted-IsSent seed t remote (ok b) = record {
      same_type = refl;
      emitted = λ effects h.
          elim (Result-cases
            (create c e seed t.type t.send_sequence (cipher_binary b) (some pair) (some remote))) [
              | inl (x, q) ↦ cc (rw q at h)
              | inr (m, q) ↦
                  elim (route-events same_point (to_binary c e) net local r m none effects (
                    send-events m remote effects
                      (create-destination seed t.type t.send_sequence (cipher_binary b) pair
                        (some remote) m q)
                      (rw q at h))) [
                        | inl k ↦ inl k
                        | inr (k, s, source, d) ↦ inr (
                          m,
                          s,
                          k,
                          source,
                          create-type seed t.type t.send_sequence (cipher_binary b) pair
                              (some remote) m q,
                        )
                      ]
            ];
    }

    pub send_to-IsSent :
        (ecdh : EcdhKey) (seed : ℕ) (iv : List ℕ) (t : Transport Point)
        (known : Result (State Point)) (remote : Point) (payload : List ℕ)
        → IsSent t (send_to c e pair net local r ecdh seed iv t known remote payload)
    unfolding send_to
    send_to-IsSent ecdh seed iv t known remote payload =
        let s =
          encrypted-IsSent seed t remote
            (known >>= λ state. encrypt c iv payload ecdh state.ecdh_public) in
        record { same_type = s.same_type; emitted = s.emitted }
