-- ===== src/Node/Taken.antt =====
-- What a message of the signaling that arrives does to the whole node.
use legio.Prelude.{
  ℕ, ◌≡◌, ◌==◌, refl, Bool, true, false, List, [], ◌∷◌, ◌++◌, Option, none, some, Result, ok, ap,
  sym, ◌∙◌, find, has_value, if◌then◌else◌,
}
use legio.ByteOrder.{Endian}
use legio.Binary.Strings.{pack_strings, IsText}
use legio.Crypto.{CryptoPp, identifier_gt}
use legio.Message.{Message, signaling_type, hello_type, state_type}
use legio.Networking.{Networking}
use legio.Networking.Links.{Named}
use legio.Networking.Described.{calls_with, receive_signaling-packed}
use legio.Transport.{Transport, Delivered, notify, check_sequence, open_body}
use legio.Transport.Replay.{is_fresh, check_sequence_lem}
use legio.Routing.{Channel, message}
use legio.Graph.World.{returned}
use legio.Node.Dispatch.{
  Platform, NodeState, Ran, followed_by, id, networking_of, keep_networking, networking_receive,
  outcome_of, signaled, notify_signaling, notify_user, notify_node,
}
use legio.Node.Handled.{IsWired, notify_graph_of-other, notify_user-other}
use legio.Node.Delivered.{content}

-- The transport of the signaling hands over what it can open.
notify-opened :
    (c : CryptoPp) (e : Endian) (ecdh : c.EcdhKey) (t : Transport c.Point) (m : Message c.Point)
    (s d : c.Point) (got : c.Point × List ℕ)
    → m.source ≡ some s
    → m.destination ≡ some d
    → (m.type == t.type) ≡ true
    → is_fresh (find c.same_point s t.sequences) m.sequence ≡ true
    → content c e ecdh m s ≡ ok (some got)
    → notify c e ecdh t m ≡ ((check_sequence c.same_point t s m.sequence).0, ok (some got))
unfolding notify
notify-opened c e ecdh t m s d got h k q f o =
    let noted = check_sequence c.same_point t s m.sequence in
    let accepted : noted.1 ≡ true = (check_sequence_lem c.same_point t s s m.sequence).0 ∙ f in
    let opened : open_body c e ecdh m s ≡ ok (some got) =
      sym (
        ap
          (λ (to : Option c.Point).
            if has_value to then open_body c e ecdh m s else ok (some (s, m.body)))
          k)
      ∙ o in
    rw (h, notify)
      (rw q (
        ap (λ (fresh : Bool). (noted.0, if fresh then open_body c e ecdh m s else ok none)) accepted
        ∙ ap (λ (x : Result (Delivered c e)). (noted.0, x)) opened))

module _ (c : CryptoPp) (p : Platform c) (Program : Type 0) (pair : c.PrivateKey) where
  open c use {Point, same_point}

  abbrev Node : Type 0
  Node = NodeState c p Program

  -- `n` after its networking was handed a description `d` by `remote_id`.
  abbrev pub Described : Point → p.rtc.Description → Node → Node → Type 0
  Described remote_id d n n' =
      (n'.calls
        ≡ calls_with p.rtc same_point (identifier_gt c) (id c p Program pair) p.have_local_offer
            remote_id d (networking_of c p Program pair n))
      × (n'.program ≡ n.program)

  networking_receive-Described :
      (remote_id : Point) (type text more : List ℕ) (d : p.rtc.Description) (n : Node)
      → IsText type
      → IsText text
      → p.rtc.describe text type ≡ ok d
      → Named same_point n.peerings
      → (n' : Node) × (networking_receive c p Program pair remote_id
            (pack_strings (type ∷ text ∷ []) ++ more)
            n
          ≡ (n', returned tt))
        × Described remote_id d n n'
        × (n'.user ≡ n.user)
  unfolding networking_receive
  networking_receive-Described remote_id type text more d n ht hx h named =
      let (g, run, calls) =
        receive_signaling-packed p.rtc same_point (identifier_gt c) (id c p Program pair)
          p.have_local_offer remote_id type text d more (networking_of c p Program pair n) ht hx h
          named in
      (
        keep_networking c p Program pair g n,
        ap
            (λ (x : Networking Point p.rtc.Description × Result (Unit {0})).
              (keep_networking c p Program pair x.0 n, outcome_of c p Program pair x.1))
            run,
        (calls, refl),
        refl,
      )

  -- A message of the signaling is taken by its transport alone.
  pub notify_node-Described :
      (rounds : ℕ) (m : Message Point) (from : Option Channel) (n : Node) (s : Point)
      (type text more : List ℕ) (d : p.rtc.Description)
      → IsWired c p Program pair n
      → m.type ≡ signaling_type
      → m.source ≡ some s
      → m.destination ≡ some (id c p Program pair)
      → is_fresh (find same_point s n.signaling.sequences) m.sequence ≡ true
      → content c p.byte_order n.world.ecdh m s
        ≡ ok (some (s, pack_strings (type ∷ text ∷ []) ++ more))
      → IsText type
      → IsText text
      → p.rtc.describe text type ≡ ok d
      → Named same_point n.peerings
      → (n' : Node) × (notify_node c p Program pair rounds (message m from) n ≡ (n', returned tt))
        × Described s d n n'
  unfolding notify_node notify_signaling
  notify_node-Described rounds m from n s type text more d v t h k f o ht hx q named =
      let own_type : (m.type == n.signaling.type) ≡ true =
        ap (λ (x : ℕ). x == n.signaling.type) t
        ∙ ap (λ (x : ℕ). signaling_type == x) v.signaling_typed in
      let noted = (check_sequence same_point n.signaling s m.sequence).0 in
      let (n', run, left, user) =
        networking_receive-Described s type text more d (record n { signaling = noted }) ht hx q
          named in
      let then_user =
        followed_by c p Program pair (notify_user c p Program pair (message m from)) in
      let then_signaling =
        followed_by c p Program pair (notify_signaling c p Program pair (message m from)) in
      let other : (m.type == n'.user.type) ≡ false =
        ap (λ (x : ℕ). x == n'.user.type) t
        ∙ ap (λ (x : Transport Point). signaling_type == x.type) user
        ∙ ap (λ (x : ℕ). signaling_type == x) v.user_typed in
      (
        n',
        ap (λ (x : Ran c p Program pair). then_user (then_signaling x))
              (notify_graph_of-other c p Program pair rounds m from n
                (ap (λ (x : ℕ). x == hello_type) t) (ap (λ (x : ℕ). x == state_type) t))
            ∙ ap
                (λ (x : Transport Point × Result (Delivered c p.byte_order)).
                  then_user (signaled c p Program pair x n))
                (notify-opened c p.byte_order n.world.ecdh n.signaling m s (id c p Program pair)
                  (s, pack_strings (type ∷ text ∷ []) ++ more) h k own_type f o)
            ∙ ap then_user run
            ∙ notify_user-other c p Program pair m from n' other,
        left,
      )
