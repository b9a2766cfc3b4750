-- ===== src/Node/Authentic.antt =====
-- What the user is handed was signed by the node it is said to be from.
use legio.Prelude.{
  ℕ, ◌≡◌, ◌-◌, Bool, true, ok, none, some, ◌==◌, Option-cases, Bool-cases, Result-cases, List,
  length, take, inl, inr, ap, ◌∙◌, ◌⊎◌, find, if◌then◌else◌,
}
use legio.Crypto.{CryptoPp, CryptoLaws, verify}
use legio.Message.{Message, user_type, parse}
use legio.Message.Authentic.{parse-authentic}
use legio.Transport.Replay.{is_fresh}
use legio.Routing.{Channel}
use legio.Node.{receive_user}
use legio.Node.Dispatch.{Platform, NodeState, receive_data}
use legio.Node.Handled.{IsWired}
use legio.Node.Spared.{IsUserMessage, receive_data-Outcomes}
use legio.Node.Delivered.{content, content-source, content_at, given, notify_user-given}

module _ (c : CryptoPp) (laws : CryptoLaws c) (p : Platform c) (Program : Type 0)
    (pair : c.PrivateKey) where
  open c use {Point, same_point}

  abbrev Node : Type 0
  Node = NodeState c p Program

  -- What the user is handed, and on what ground.
  pub record IsHanded (bytes : List ℕ) (n n' : Node) (m : Message Point) (s : Point)
      (payload : List ℕ) : Type 0 where
    pub parsed : parse c p.byte_order bytes ≡ ok m
    pub sourced : m.source ≡ some s
    pub typed : m.type ≡ user_type
    pub verified : verify c s (take (length bytes - length m.signature) bytes) m.signature ≡ true
    pub fresh : is_fresh (find same_point s n.user.sequences) m.sequence ≡ true
    pub opened : content c p.byte_order n.world.ecdh m s ≡ ok (some (s, payload))
    pub handed : n'.program ≡ receive_user n.message_callback s payload n.program

  abbrev pub Handed : List ℕ → Node → Node → Type 0
  Handed bytes n n' =
      (n'.program ≡ n.program)
      ⊎ ((m : Message Point) × (s : Point) × (payload : List ℕ) × IsHanded bytes n n' m s payload)

  user-Handed :
      (bytes : List ℕ) (channel : Channel) (n n' : Node) (m : Message Point) (s : Point)
      → IsWired c p Program pair n
      → IsUserMessage c p Program pair bytes channel n n' m s
      → Handed bytes n n'
  user-Handed bytes channel n n' m s v u =
      let local_type : (m.type == n.user.type) ≡ true =
        ap (λ (t : ℕ). t == n.user.type) u.typed ∙ ap (λ (t : ℕ). user_type == t) v.user_typed in
      let last = find same_point s n.user.sequences in
      let got = content c p.byte_order n.world.ecdh m s in
      let program : n'.program ≡ given c p Program pair n (content_at c p Program pair n m s) =
        ap (λ (k : Node). k.program) u.left
        ∙ notify_user-given c p Program pair m (some channel) n s u.sourced local_type in
      let chosen = λ (b : Bool). given c p Program pair n (if b then got else ok none) in
      elim (Bool-cases (is_fresh last m.sequence)) [
        | inr stale ↦ inl (program ∙ ap chosen stale)
        | inl fresh ↦
            let open_it = program ∙ ap chosen fresh in
            elim (Result-cases got) [
              | inl (x, q) ↦ inl (open_it ∙ ap (given c p Program pair n) q)
              | inr (o, q) ↦ elim (Option-cases o) [
                | inl k ↦ inl (open_it ∙ ap (given c p Program pair n) (q ∙ ap ok k))
                | inr ((s', payload), k) ↦
                    let same : s' ≡ s =
                      content-source c p.byte_order n.world.ecdh m s (s', payload) (q ∙ ap ok k) in
                    let opened : got ≡ ok (some (s, payload)) =
                      q ∙ ap ok k ∙ ap (λ (j : Point). ok (some (j, payload))) same in
                    inr (
                      m,
                      s,
                      payload,
                      record {
                        parsed = u.parsed;
                        sourced = u.sourced;
                        typed = u.typed;
                        verified =
                            parse-authentic c laws p.byte_order p.byte_order bytes m s u.parsed
                              u.sourced;
                        fresh = fresh;
                        opened = opened;
                        handed = open_it ∙ ap (given c p Program pair n) opened;
                      },
                    )
              ]
            ]
      ]

  -- Bytes that arrive on a channel of a node whose transports have their types change the user's
  -- program only by one call of its callback, and only if they parse to a user message that carries a
  -- signature of the sender that the callback is told over all the bytes before it, with a number
  -- that is accepted from that sender. What the callback is handed is the body of a broadcast, or of a
  -- message for this node what it decrypts to.
  pub receive_data-Handed :
      (rounds : ℕ) (bytes : List ℕ) (channel : Channel) (n : Node)
      → IsWired c p Program pair n
      → Handed bytes n (receive_data c p Program pair rounds bytes channel n).0
  receive_data-Handed rounds bytes channel n v =
      elim (receive_data-Outcomes c p Program pair rounds bytes channel n v) [
        | inl spared ↦ inl spared.program
        | inr (m, s, u) ↦
            user-Handed bytes channel n (receive_data c p Program pair rounds bytes channel n).0 m s
              v u
      ]
