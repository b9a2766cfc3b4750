-- ===== src/Networking/Steps.antt =====
-- What `Networking` of src/impl/networking.cpp keeps true of its peerings and of the routing that they
-- share, in whatever order its calls and the callbacks of the library come.
use legio.Prelude.{
  ℕ, ◌≡◌, refl, sym, ◌∙◌, Bool, true, false, if◌then◌else◌, List, [], ◌∷◌, Option, some, find, inl,
  inr, Bool-cases, Option-cases, has_value, Result, ok, err, ◌⊎◌,
}
use mathlib.Core.Option.{some-injective}
use legio.RoutingTable.{RoutingTable, nodes}
use legio.Routing.{Channel, Event, init, set_table}
use legio.Routing.Neighbors.{
  init-IsConsistent, add_channel-IsConsistent, remove_channel-IsConsistent, set_table-IsConsistent,
}
use legio.Peering.{
  WebRtc, Peering, Link, connect, set_data_channel, offered, opened, closed, receive,
  take_description,
}
use legio.Networking.{
  Networking, create_peering, keep_link, link_of, connect_created, connect_peer, connect_first,
  update, web_socket_opened, web_socket_closed, at_peering, receive_signaling, ltb, length,
  target_peering_count, suc,
}
use legio.Networking.Links.{
  find-Named, IsFine, IsTidy, connect-IsFine, closed-IsFine, offered-IsFine, keep-IsTidy,
  create-IsTidy, opened-IsFine,
}

-- `Networking(Node *node)` at a new `Routing`
abbrev pub new_networking : {Identifier Description : Type 0} → Networking Identifier Description
new_networking = record { peerings = []; routing = init; calls = []; created = 0 }

module _ (rtc : WebRtc) {Identifier : Type 0} (same : Discrete Identifier)
    (greater : Identifier → Identifier → Bool) (local_id : Identifier) (fresh : ℕ → Channel) where
  open rtc use {Description}

  -- One call of `Networking`, of a callback that it or a peering gave the library, or of `setTable`.
  pub data Step (n : Networking Identifier Description)
      : Networking Identifier Description → Type 0 where
    updates :
        (shuffle : List Identifier → List Identifier) (n' : Networking Identifier Description)
        → update same fresh shuffle n ≡ some n'
        → Step n n'
    connects : (id : Identifier) → Step n (connect_peer same fresh id n)
    receives :
        (have_local_offer : Identifier → Bool) (id : Identifier) (payload : List ℕ)
        → Step n (receive_signaling rtc same greater local_id have_local_offer id payload n).0
    opens_socket : (channel : Channel) → Step n (web_socket_opened same channel n)
    closes_socket : (channel : Channel) → Step n (web_socket_closed same channel n)
    offers :
        (id : Identifier) (channel : Channel) (label : List ℕ)
        → Step n (at_peering same (offered channel label) id n)
    closes : (id : Identifier) → Step n (at_peering same closed id n)
    opens :
        (id : Identifier) (p : Peering Identifier) (l : Link Identifier Description)
        (event : Option (Event Identifier))
        → find same id n.peerings ≡ some p
        → opened same (link_of same n p) ≡ some (l, event)
        → Step n (keep_link same id n l)
    takes_table :
        (t : RoutingTable Identifier) → Step n (record n { routing = set_table n.routing t })

  pub data Reached : Networking Identifier Description → Type 0 where
    starts : Reached new_networking
    goes_on : {n n' : Networking Identifier Description} → Reached n → Step n n' → Reached n'

  connect_peer-IsTidy :
      (id : Identifier) (n : Networking Identifier Description)
      → IsTidy same n
      → IsTidy same (connect_peer same fresh id n)
  unfolding connect_peer connect_created
  connect_peer-IsTidy id n v =
      let made = create_peering same id n in
      let (w, f) = create-IsTidy same id n v in
      keep-IsTidy same id (record made.0 { created = suc made.0.created })
        (connect (fresh made.0.created) (link_of same made.0 made.1))
        (record { one_each = w.one_each; named = w.named; consistent = w.consistent })
        (connect-IsFine same id (fresh made.0.created) (link_of same made.0 made.1) f)

  if-IsTidy :
      (b : Bool) (n n' : Networking Identifier Description)
      → IsTidy same n
      → IsTidy same n'
      → IsTidy same (if b then n else n')
  if-IsTidy true n n' v v' = v
  if-IsTidy false n n' v v' = v'

  connect_first-IsTidy :
      (ids : List Identifier) (n : Networking Identifier Description)
      → IsTidy same n
      → IsTidy same (connect_first same fresh ids n)
  unfolding connect_first
  connect_first-IsTidy [] n v = v
  connect_first-IsTidy (id ∷ ids) n v =
      if-IsTidy (has_value (find same id n.peerings)) _ _ (connect_first-IsTidy ids n v)
        (connect_peer-IsTidy id n v)

  -- What `update` returns.
  update-form :
      (shuffle : List Identifier → List Identifier) (n n' : Networking Identifier Description)
      → update same fresh shuffle n ≡ some n'
      → (n' ≡ n) ⊎ ((ids : List Identifier) × (n' ≡ connect_first same fresh ids n))
  unfolding update
  update-form shuffle n n' h = elim (Bool-cases (ltb (length n.peerings) target_peering_count)) [
    | inr b ↦ inl (sym (some-injective n n' (rw b at h)))
    | inl b ↦ elim (Option-cases n.routing.table) [
      | inl t ↦ cc (rw t at (rw b at h))
      | inr (table, t) ↦
          (let next = connect_first same fresh (shuffle (nodes same table)) n in
            let run : update same fresh shuffle n ≡ some next = rw b (simp t refl) in
            inr (shuffle (nodes same table), sym (some-injective next n' (sym run ∙ h))))
    ]
  ]

  if-IsFine :
      (b : Bool) (id : Identifier) (a a' : Link Identifier Description × Result (Unit {0}))
      → IsFine same id a.0
      → IsFine same id a'.0
      → IsFine same id (if b then a else a').0
  if-IsFine true id a a' v v' = v
  if-IsFine false id a a' v v' = v'

  take_description-IsFine :
      (have_local_offer : Bool) (id : Identifier) (l : Link Identifier Description)
      (d : Result Description)
      → IsFine same id l
      → IsFine same id (take_description rtc greater local_id have_local_offer l d).0
  take_description-IsFine have_local_offer id l (err e) v = v
  take_description-IsFine have_local_offer id l (ok d) v =
      if-IsFine _ id _ _ v (record { remote = v.remote; consistent = v.consistent })

  receive-IsFine :
      (have_local_offer : Bool) (id : Identifier) (payload : List ℕ)
      (l : Link Identifier Description)
      → IsFine same id l
      → IsFine same id (receive rtc greater local_id have_local_offer payload l).0
  unfolding receive
  receive-IsFine have_local_offer id payload l v = take_description-IsFine have_local_offer id l _ v

  at_peering-IsTidy :
      (callback : Link Identifier Description → Link Identifier Description) (id : Identifier)
      (n : Networking Identifier Description)
      → ((l : Link Identifier Description) → IsFine same id l → IsFine same id (callback l))
      → IsTidy same n
      → IsTidy same (at_peering same callback id n)
  unfolding at_peering
  at_peering-IsTidy callback id n keeps v = elim (Option-cases (find same id n.peerings)) [
    | inl h ↦ rw (h, at_peering) v
    | inr (p, h) ↦
        rw (h, at_peering)
          (keep-IsTidy same id n (callback (link_of same n p)) v (
            keeps (link_of same n p) (record {
              remote = find-Named same id p n.peerings h v.named;
              consistent = v.consistent;
            })))
  ]

  receive_signaling-IsTidy :
      (have_local_offer : Identifier → Bool) (id : Identifier) (payload : List ℕ)
      (n : Networking Identifier Description)
      → IsTidy same n
      → IsTidy same (receive_signaling rtc same greater local_id have_local_offer id payload n).0
  unfolding receive_signaling
  receive_signaling-IsTidy have_local_offer id payload n v =
      let made = create_peering same id n in
      let (w, f) = create-IsTidy same id n v in
      keep-IsTidy same id made.0 _ w (receive-IsFine (have_local_offer id) id payload _ f)

  Step-IsTidy :
      {n n' : Networking Identifier Description} → Step n n' → IsTidy same n → IsTidy same n'
  unfolding web_socket_opened web_socket_closed offered set_data_channel
  Step-IsTidy {n} (updates shuffle n' h) v = elim (update-form shuffle n n' h) [
    | inl k ↦ rw k v
    | inr (ids, k) ↦ rw k (connect_first-IsTidy ids n v)
  ]
  Step-IsTidy {n} (connects id) v = connect_peer-IsTidy id n v
  Step-IsTidy {n} (receives have_local_offer id payload) v =
      receive_signaling-IsTidy have_local_offer id payload n v
  Step-IsTidy {n} (opens_socket channel) v = record {
    one_each = v.one_each;
    named = v.named;
    consistent = add_channel-IsConsistent same n.routing channel v.consistent;
  }
  Step-IsTidy {n} (closes_socket channel) v = record {
    one_each = v.one_each;
    named = v.named;
    consistent = remove_channel-IsConsistent same n.routing channel v.consistent;
  }
  Step-IsTidy {n} (offers id channel label) v =
      at_peering-IsTidy (offered channel label) id n (offered-IsFine same id channel label) v
  Step-IsTidy {n} (closes id) v = at_peering-IsTidy closed id n (closed-IsFine same id) v
  Step-IsTidy {n} (opens id p l event h k) v = keep-IsTidy same id n l v (
      opened-IsFine same id (link_of same n p) l event k
        (record { remote = find-Named same id p n.peerings h v.named; consistent = v.consistent }))
  Step-IsTidy {n} (takes_table t) v = record {
    one_each = v.one_each;
    named = v.named;
    consistent = set_table-IsConsistent same n.routing t v.consistent;
  }

  -- Whatever was reached from a new `Networking` by its calls and callbacks, each node has at most one
  -- peering, kept under its identifier, and the shared registry of channels and neighbours is
  -- consistent.
  pub Reached-IsTidy : {n : Networking Identifier Description} → Reached n → IsTidy same n
  Reached-IsTidy starts = record { one_each = tt; named = tt; consistent = init-IsConsistent same }
  Reached-IsTidy (goes_on r s) = Step-IsTidy s (Reached-IsTidy r)
