-- ===== src/Node/Again.antt =====
-- Bytes that arrive at the whole node a second time.
use legio.Prelude.{
  ℕ, ◌≡◌, Bool, Option, false, true, ok, none, some, ◌==◌, List, inl, inr, ap, ◌∙◌, ◌⊎◌, arith,
  find, if◌then◌else◌,
}
use legio.Crypto.{CryptoPp}
use legio.Message.{Message, user_type, parse}
use legio.Transport.{Transport, check_sequence}
use legio.Transport.Replay.{is_fresh, check_sequence_lem, compare_sequence-same}
use legio.Routing.{Channel, message}
use legio.Node.Dispatch.{Platform, NodeState, Ran, notify_user, receive_data, id}
use legio.Node.Handled.{IsWired, notify_node-user, route_parsed-local}
use legio.Node.Spared.{receive_data-Outcomes, receive_data-0}
use legio.Node.Delivered.{
  content, given, notify_user-given, notify_user-noted, notify_user-signaling,
}

-- A number that was noted is not accepted again.
check_sequence-stale :
    {Identifier : Type 0} (equal : Discrete Identifier) (t : Transport Identifier) (s : Identifier)
    (number : ℕ)
    → is_fresh (find equal s (check_sequence equal t s number).0.sequences) number ≡ false
check_sequence-stale equal t s number =
    ground (arith, (check_sequence_lem equal t s s number).1, compare_sequence-same number)

check_sequence-type :
    {Identifier : Type 0} (equal : Discrete Identifier) (t : Transport Identifier) (s : Identifier)
    (number : ℕ)
    → (check_sequence equal t s number).0.type ≡ t.type
unfolding check_sequence
check_sequence-type equal t s number = ground arith

module _ (c : CryptoPp) (p : Platform c) (Program : Type 0) (pair : c.PrivateKey) where
  open c use {Point, same_point}

  abbrev Node : Type 0
  Node = NodeState c p Program

  user_test :
      (n : Node) (m : Message Point)
      → IsWired c p Program pair n
      → m.type ≡ user_type
      → (m.type == n.user.type) ≡ true
  user_test n m v h =
      ap (λ (t : ℕ). t == n.user.type) h ∙ ap (λ (t : ℕ). user_type == t) v.user_typed

  -- The first arrival of what is a user message the second time.
  pub first_arrival :
      (rounds : ℕ) (bytes : List ℕ) (channel : Channel) (n : Node) (m : Message Point) (s : Point)
      → IsWired c p Program pair n
      → parse c p.byte_order bytes ≡ ok m
      → m.source ≡ some s
      → (m.destination ≡ none) ⊎ (m.destination ≡ some (id c p Program pair))
      → m.type ≡ user_type
      → (receive_data c p Program pair rounds bytes channel n).0
        ≡ (notify_user c p Program pair (message m (some channel)) n).0
  first_arrival rounds bytes channel n m s v q h d t =
      receive_data-0 c p Program pair rounds bytes channel n (ok m) q
      ∙ ap (λ (x : Ran c p Program pair). x.0)
          (route_parsed-local c p Program pair rounds channel m n s h d
            ∙ notify_node-user c p Program pair rounds m (some channel) n v t)

  pub notify_user-IsWired :
      (m : Message Point) (from : Option Channel) (n : Node) (s : Point)
      → IsWired c p Program pair n
      → m.source ≡ some s
      → m.type ≡ user_type
      → (notify_user c p Program pair (message m from) n).0.user.type ≡ user_type
  notify_user-IsWired m from n s v h t =
      ap (λ (k : Transport Point). k.type)
        (notify_user-noted c p Program pair m from n s h (user_test n m v t))
      ∙ check_sequence-type same_point n.user s m.sequence
      ∙ v.user_typed

  -- A user message that was handled is stale.
  noted-stale :
      (m : Message Point) (from : Option Channel) (n n1 : Node) (s : Point)
      → IsWired c p Program pair n
      → m.source ≡ some s
      → m.type ≡ user_type
      → n1 ≡ (notify_user c p Program pair (message m from) n).0
      → is_fresh (find same_point s n1.user.sequences) m.sequence ≡ false
  noted-stale m from n n1 s v h t e =
      ap (λ (k : Transport Point). is_fresh (find same_point s k.sequences) m.sequence)
        (ap (λ (k : Node). k.user) e
          ∙ notify_user-noted c p Program pair m from n s h (user_test n m v t))
      ∙ check_sequence-stale same_point n.user s m.sequence

  -- After bytes have arrived the transports still have their types.
  pub receive_data-IsWired :
      (rounds : ℕ) (bytes : List ℕ) (channel : Channel) (n : Node)
      → IsWired c p Program pair n
      → IsWired c p Program pair (receive_data c p Program pair rounds bytes channel n).0
  receive_data-IsWired rounds bytes channel n v =
      elim (receive_data-Outcomes c p Program pair rounds bytes channel n v) [
        | inl spared ↦ record {
          signaling_typed = spared.signaling_typed ∙ v.signaling_typed;
          user_typed = ap (λ (t : Transport Point). t.type) spared.user ∙ v.user_typed;
        }
        | inr (m, s, u) ↦ record {
          signaling_typed =
              ap (λ (k : Node). k.signaling.type) u.left
              ∙ ap (λ (t : Transport Point). t.type)
                  (notify_user-signaling c p Program pair m (some channel) n)
              ∙ v.signaling_typed;
          user_typed =
              ap (λ (k : Node). k.user.type) u.left
              ∙ notify_user-IsWired m (some channel) n s v u.sourced u.typed;
        }
      ]

  -- Bytes that arrive a second time, over whatever channel, at a node whose transports have their types
  -- do nothing to the user's program.
  pub receive_data-again :
      (rounds rounds' : ℕ) (bytes : List ℕ) (channel channel' : Channel) (n : Node)
      → IsWired c p Program pair n
      → (receive_data c p Program pair rounds' bytes channel'
          (receive_data c p Program pair rounds bytes channel n).0).0.program
        ≡ (receive_data c p Program pair rounds bytes channel n).0.program
  receive_data-again rounds rounds' bytes channel channel' n v =
      let n1 = (receive_data c p Program pair rounds bytes channel n).0 in
      let v1 = receive_data-IsWired rounds bytes channel n v in
      elim (receive_data-Outcomes c p Program pair rounds' bytes channel' n1 v1) [
        | inl spared ↦ spared.program
        | inr (m, s, u) ↦
            ap (λ (k : Node). k.program) u.left
            ∙ notify_user-given c p Program pair m (some channel') n1 s u.sourced
                (user_test n1 m v1 u.typed)
            ∙ ap
                (λ (b : Bool).
                  given c p Program pair n1
                    (if b then content c p.byte_order n1.world.ecdh m s else ok none))
                (noted-stale m (some channel) n n1 s v u.sourced u.typed
                  (first_arrival rounds bytes channel n m s v u.parsed u.sourced u.local u.typed))
      ]
