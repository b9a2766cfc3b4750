-- ===== src/Node/Trust.antt =====
-- What a message of one node may change of what another node holds.
use legio.Prelude.{
  ℕ, suc, ◌≡◌, ◌≢◌, ◌⊎◌, refl, ap, sym, ◌∙◌, Bool, true, false, ◌++◌, Option, none, some, inl, inr,
  Bool-cases, Option-cases, Result-cases, ◌==◌, if◌then◌else◌, Error,
}
use legio.Crypto.{CryptoPp, CryptoLaws}
use legio.ByteOrder.{Endian}
use legio.Message.{Message, to_binary, hello_type, state_type}
use legio.State.{State, from_message}
use legio.State.Codec.{IsStrictOrder}
use legio.State.Rounds.{has_value-from_message}
use legio.State.Source.{from_message-source}
use legio.Routing.{Channel, Channels, add_neighbor, has_neighbor, broadcast}
use legio.Graph.World.{World, Outcome, thrown, undefined, unfinished, returned}
use legio.Graph.Updates.{hear, hear_hello, hear_state, flood}
use legio.Graph.Updates.Total.{own, held, IsReady}
use legio.Graph.Updates.Insert.{insert_state-IsInserted}
use legio.Graph.Updates.Started.{neighbors_changed-IsAnnounced}
use legio.Node.Room.{HasRoom, linked, linked-Ready, sent-Ready}

-- The call ended, by returning or throwing.
abbrev pub is_settled : Outcome (Unit {0}) → Bool
is_settled (returned done) = true
is_settled (thrown x) = true
is_settled undefined = false
is_settled unfinished = false

module _ (c : CryptoPp) (laws : CryptoLaws c) (order : IsStrictOrder c.point_lt) (e : Endian)
    (pair : c.PrivateKey) (net : Channels) (entropy : ℕ → ℕ)
    (address_lt : c.Point → c.Point → Bool) where
  open c use {Point, same_point, point_lt}

  abbrev me : Point
  me = own c laws order e pair net entropy address_lt

  abbrev known : World c → Point → Option (State Point)
  known w j = held c laws order e pair net entropy address_lt w j

  abbrev Ready : World c → Type 0
  Ready w = IsReady c laws order e pair net entropy address_lt w

  -- What a message from `source` may do to `w`.

  pub record IsTrusted (source : Option Point) (w : World c) (x : World c × Outcome (Unit {0}))
      : Type 0 where
    pub ready : Ready x.0
    pub changes : (j : Point) → (j ≡ me) ⊎ (source ≡ some j) ⊎ (known x.0 j ≡ known w j)
    pub ends : is_settled x.1 ≡ true

  pub IsTrusted-refl :
      (source : Option Point) (w : World c) → Ready w → IsTrusted source w (w, returned tt)
  IsTrusted-refl source w r = record { ready = r; changes = λ j. inr (inr refl); ends = refl }

  pub IsTrusted-thrown :
      (source : Option Point) (w : World c) (x : Error) → Ready w → IsTrusted source w (w, thrown x)
  IsTrusted-thrown source w x r = record { ready = r; changes = λ j. inr (inr refl); ends = refl }

  pub IsTrusted-as :
      {a b : Option Point}
      → (w : World c) (x : World c × Outcome (Unit {0})) → a ≡ b
      → IsTrusted a w x
      → IsTrusted b w x
  IsTrusted-as w x h t = record {
    ready = t.ready;
    ends = t.ends;
    changes = λ j. elim (t.changes j) [
      | inl q ↦ inl q
      | inr (inl q) ↦ inr (inl (sym h ∙ q))
      | inr (inr q) ↦ inr (inr q)
    ];
  }

  hear_hello-IsTrusted :
      (rounds : ℕ) (source : Point) (from : Option Channel) (w : World c)
      → Ready w
      → HasRoom c laws order e pair net entropy address_lt w
      → IsTrusted
          (some source)
          w
          (hear_hello c e pair net entropy address_lt (suc rounds) source from w)
  unfolding hear_hello
  hear_hello-IsTrusted rounds source none w r room = IsTrusted-refl (some source) w r
  hear_hello-IsTrusted rounds source (some channel) w r room =
      elim (Bool-cases (has_neighbor same_point w.routing source)) [
        | inl b ↦ rw (b, hear_hello) (IsTrusted-refl (some source) w r)
        | inr b ↦
            rw (b, hear_hello)
              (elim (Option-cases (add_neighbor same_point w.routing source channel).1) [
                | inl k ↦ rw k (record {
                  ready =
                      linked-Ready c laws order e pair net entropy address_lt source channel w r
                        room;
                  changes = λ j. inr (inr refl);
                  ends = refl;
                })
                | inr (event, k) ↦
                    (let (v, run, ready, others) =
                        neighbors_changed-IsAnnounced c laws order e pair net entropy address_lt
                          rounds
                          (linked c laws order e pair net entropy address_lt source channel w)
                          (linked-Ready c laws order e pair net entropy address_lt source channel w
                            r room) in
                      rw k (
                        rw run (record {
                          ready = ready;
                          ends = refl;
                          changes = λ j. elim (others j) [ inl a ↦ inl a | inr q ↦ inr (inr q) ];
                        })))
              ])
      ]

  -- A fresh state is passed on, which changes nothing that is held.
  passed_on :
      (m : Message Point) (from : Option Channel) (w w' : World c) (fresh : Bool)
      → IsTrusted m.source w (w', returned tt)
      → IsTrusted m.source w
          (if fresh then flood c e pair net entropy address_lt m from w' else (w', returned tt))
  unfolding flood
  passed_on m from w w' true t = record {
    ready =
        sent-Ready c laws order e pair net entropy address_lt w'
          (w'.sent ++ broadcast same_point (to_binary c e) net w'.routing m from) t.ready;
    changes = t.changes;
    ends = refl;
  }
  passed_on m from w w' false t = t

  hear_state-IsTrusted :
      (rounds : ℕ) (m : Message Point) (from : Option Channel) (w : World c)
      → Ready w
      → m.source ≢ some me
      → IsTrusted m.source w (hear_state c e pair net entropy address_lt (suc rounds) m from w)
  unfolding hear_state flood
  hear_state-IsTrusted rounds m from w r own = elim (Option-cases (from_message c m)) [
    | inl k ↦ cc (has_value-from_message c m, k)
    | inr (result, k) ↦ elim (Result-cases result) [
      | inl (x, q) ↦ rw (k ∙ ap some q, hear_state) (IsTrusted-thrown m.source w x r)
      | inr (s, q) ↦
          let source = from_message-source c m s (k ∙ ap some q) in
          let distinct : me ≢ s.ecdsa_key = λ p. own (source ∙ ap some (sym p)) in
          let (w', fresh, run, done) =
            insert_state-IsInserted c laws order e pair net entropy address_lt rounds s w distinct
              r in
          rw (k ∙ ap some q, hear_state)
            (rw run (
              passed_on m from w w' fresh (record {
                ready = done.ready;
                ends = refl;
                changes = λ j. elim (done.others j) [
                  | inl a ↦ inl a
                  | inr (inl b) ↦ inr (inl (source ∙ ap some (sym b)))
                  | inr (inr q) ↦ inr (inr q)
                ];
              })))
    ]
  ]

  pub hear-IsTrusted :
      (rounds : ℕ) (m : Message Point) (source : Point) (from : Option Channel) (w : World c)
      → m.source ≡ some source
      → Ready w
      → HasRoom c laws order e pair net entropy address_lt w
      → m.source ≢ some me
      → IsTrusted m.source w (hear c e pair net entropy address_lt (suc rounds) m from w)
  unfolding hear
  hear-IsTrusted rounds m source from w k r room foreign =
      elim (Bool-cases (m.type == hello_type)) [
        | inl a ↦ rw (a, k, hear) (hear_hello-IsTrusted rounds source from w r room)
        | inr a ↦ elim (Bool-cases (m.type == state_type)) [
          | inl b ↦
              rw (a, b, k, hear)
                (IsTrusted-as w _ k (hear_state-IsTrusted rounds m from w r foreign))
          | inr b ↦ rw (a, b, hear) (IsTrusted-refl m.source w r)
        ]
      ]
