-- ===== src/Networking/Links.antt =====
-- What the calls of one peering of src/impl/peering.cpp keep true of the peerings of
-- src/impl/networking.cpp and of the routing that they share.
use legio.Prelude.{
  ℕ, ◌≡◌, refl, ap, sym, ◌∙◌, List, [], ◌∷◌, Option, some, find, emplace, assign, IsMap,
  emplace-IsMap, assign-IsMap, arith, inl, inr, Bool-cases, Option-cases, bytes_eq,
}
use mathlib.Core.Option.{some-injective}
use legio.Routing.{Channel, Event, add_channel, add_neighbor}
use legio.Routing.Neighbors.{
  IsConsistent, add_channel-IsConsistent, remove_channel-IsConsistent, add_neighbor-IsConsistent,
}
use legio.Peering.{
  Peering, Link, connect, disconnect, set_data_channel, offered, opened, closed, create_peering_at,
  data_channel_name,
}
use legio.Networking.{Networking, create_peering, keep_link, link_of}
use legio.Networking.Tidy.{create-found, create-new}

module _ {Identifier : Type 0} (same : Discrete Identifier) where
  -- Each peering is kept under its remote node.
  abbrev pub Named : List (Identifier × Peering Identifier) → Type 0
  Named [] = Unit {0}
  Named ((id, p) ∷ m) = (p.remote_id ≡ id) × Named m

  pub assign-Named :
      (id : Identifier) (p : Peering Identifier) (m : List (Identifier × Peering Identifier))
      → p.remote_id ≡ id
      → Named m
      → Named (assign same id p m)
  unfolding assign
  assign-Named id p [] h k = tt
  assign-Named id p ((j, q) ∷ m) h k = ground (arith, assign-Named id p m h k.1, h)

  pub emplace-Named :
      (id : Identifier) (p : Peering Identifier) (m : List (Identifier × Peering Identifier))
      → p.remote_id ≡ id
      → Named m
      → Named (emplace same id p m)
  unfolding emplace
  emplace-Named id p [] h k = (h, tt)
  emplace-Named id p ((j, q) ∷ m) h k = ground (arith, emplace-Named id p m h k.1, h)

  pub find-Named :
      (id : Identifier) (p : Peering Identifier) (m : List (Identifier × Peering Identifier))
      → find same id m ≡ some p
      → Named m
      → p.remote_id ≡ id
  unfolding find
  find-Named id p [] h k = cc h
  find-Named id p ((j, q) ∷ m) h k = ground (arith, find-Named id p m, h, k)

module _ {Identifier Description : Type 0} (same : Discrete Identifier) where
  pub record IsTidy (n : Networking Identifier Description) : Type 0 where
    pub one_each : IsMap same n.peerings
    pub named : Named same n.peerings
    pub consistent : IsConsistent same n.routing

  -- A call of the peering with `id` that keeps its remote node and a consistent routing.
  pub record IsFine (id : Identifier) (l : Link Identifier Description) : Type 0 where
    pub remote : l.peering.remote_id ≡ id
    pub consistent : IsConsistent same l.routing

  pub disconnect-IsFine :
      (id : Identifier) (l : Link Identifier Description) → IsFine id l → IsFine id (disconnect l)
  unfolding disconnect
  disconnect-IsFine id l v = elim (Option-cases l.peering.data_channel) [
    | inl e ↦ rw (e, disconnect) v
    | inr (channel, e) ↦
        rw (e, disconnect)
          (record {
            remote = v.remote;
            consistent = remove_channel-IsConsistent same l.routing channel v.consistent;
          })
  ]

  pub connect-IsFine :
      (id : Identifier) (channel : Channel) (l : Link Identifier Description)
      → IsFine id l
      → IsFine id (connect channel l)
  unfolding connect set_data_channel
  connect-IsFine id channel l v =
      let w = disconnect-IsFine id l v in record { remote = w.remote; consistent = w.consistent }

  pub closed-IsFine :
      (id : Identifier) (l : Link Identifier Description) → IsFine id l → IsFine id (closed l)
  unfolding closed
  closed-IsFine id l v = elim (Option-cases l.peering.data_channel) [
    | inl e ↦ rw (e, closed) v
    | inr (channel, e) ↦
        rw (e, closed)
          (record {
            remote = v.remote;
            consistent = remove_channel-IsConsistent same l.routing channel v.consistent;
          })
  ]

  pub offered-IsFine :
      (id : Identifier) (channel : Channel) (label : List ℕ) (l : Link Identifier Description)
      → IsFine id l
      → IsFine id (offered channel label l)
  unfolding offered set_data_channel
  offered-IsFine id channel label l v = elim (Bool-cases (bytes_eq label data_channel_name)) [
    | inl e ↦ rw (e, offered) (record { remote = v.remote; consistent = v.consistent })
    | inr e ↦ rw (e, offered) v
  ]

  pub keep-IsTidy :
      (id : Identifier) (n : Networking Identifier Description) (l : Link Identifier Description)
      → IsTidy n
      → IsFine id l
      → IsTidy (keep_link same id n l)
  unfolding keep_link
  keep-IsTidy id n l v f = record {
    one_each = assign-IsMap same id l.peering n.peerings v.one_each;
    named = assign-Named same id l.peering n.peerings f.remote v.named;
    consistent = f.consistent;
  }

  pub opened-IsFine :
      (id : Identifier) (l l' : Link Identifier Description) (event : Option (Event Identifier))
      → opened same l ≡ some (l', event)
      → IsFine id l
      → IsFine id l'
  unfolding opened
  opened-IsFine id l l' event h v = elim (Option-cases l.peering.data_channel) [
    | inl k ↦ cc (rw k at h)
    | inr (channel, k) ↦
        (let added =
            add_neighbor same (add_channel l.routing channel) l.peering.remote_id channel in
          let next : Link Identifier Description = record l { routing = added.0 } in
          let run : opened same l ≡ some (next, added.1) = simp (k, opened) refl in
          let same_link : next ≡ l' =
            ap (λ (p : Link Identifier Description × Option (Event Identifier)). p.0)
              (some-injective {A = Link Identifier Description × Option (Event Identifier)}
                (next, added.1) (l', event) (sym run ∙ h)) in
          rw (← same_link) (record {
            remote = v.remote;
            consistent =
                add_neighbor-IsConsistent same (add_channel l.routing channel) l.peering.remote_id
                  channel (add_channel-IsConsistent same l.routing channel v.consistent);
          }))
  ]

  pub create-IsTidy :
      (id : Identifier) (n : Networking Identifier Description)
      → IsTidy n
      → let made = create_peering same id n in
        IsTidy made.0 × IsFine id (link_of same made.0 made.1)
  create-IsTidy id n v = elim (Option-cases (find same id n.peerings)) [
    | inl h ↦ rw (create-new same id n h) (
      record {
        one_each = emplace-IsMap same id (create_peering_at id) n.peerings v.one_each;
        named =
            emplace-Named same id (create_peering_at id) n.peerings
              (unfold create_peering_at in refl) v.named;
        consistent = v.consistent;
      },
      record { remote = unfold create_peering_at in refl; consistent = v.consistent },
    )
    | inr (p, h) ↦ rw (create-found same id n p h) (
      v,
      record { remote = find-Named same id p n.peerings h v.named; consistent = v.consistent },
    )
  ]
