-- ===== src/Networking/Tidy.antt =====
-- `Networking` of src/impl/networking.cpp keeps one peering for each node, and makes no more than it
-- wants.
use legio.Prelude.{
  ℕ, ◌+◌, ◌≡◌, refl, ◌∙◌, Bool, false, not, ◌&&◌, ◌||◌, ltb, if◌then◌else◌, List, [], ◌∷◌, length,
  none, some, has_value, find, emplace, assign, arith, inl, inr, Bool-cases, Option-cases,
}
use legio.RoutingTable.{RoutingTable, nodes}
use legio.Routing.{Channel}
use legio.Peering.{Peering, create_peering_at}
use legio.Networking.{
  Networking, target_peering_count, create_peering, keep_link, connect_created, connect_peer,
  connect_first, update,
}

module _ {Identifier : Type 0} (same : Discrete Identifier) where
  -- Some node of a list has no peering.
  abbrev pub some_unknown : List Identifier → List (Identifier × Peering Identifier) → Bool
  some_unknown [] m = false
  some_unknown (id ∷ ids) m = not (has_value (find same id m)) || some_unknown ids m

  length-emplace :
      {V : Type 0} (k : Identifier) (v : V) (m : List (Identifier × V))
      → length (emplace same k v m) ≡ length m + (if has_value (find same k m) then 0 else 1)
  unfolding find emplace
  length-emplace k v [] = refl
  length-emplace k v ((j, w) ∷ m) = ground (arith, length-emplace k v m)

  length-assign :
      {V : Type 0} (k : Identifier) (v : V) (m : List (Identifier × V))
      → length (assign same k v m) ≡ length m
  unfolding assign
  length-assign k v [] = refl
  length-assign k v ((j, w) ∷ m) = ground (arith, length-assign k v m)

module _ {Identifier Description : Type 0} (same : Discrete Identifier) where
  pub create-found :
      (id : Identifier) (n : Networking Identifier Description) (p : Peering Identifier)
      → find same id n.peerings ≡ some p
      → create_peering same id n ≡ (n, p)
  unfolding create_peering
  create-found id n p h = rw (h, create_peering) refl

  pub create-new :
      (id : Identifier) (n : Networking Identifier Description)
      → find same id n.peerings ≡ none
      → create_peering same id n ≡ (
        record n { peerings = emplace same id (create_peering_at id) n.peerings },
        create_peering_at id,
      )
  unfolding create_peering
  create-new id n h = rw (h, create_peering) refl

  length-connect_peer :
      (fresh : ℕ → Channel) (id : Identifier) (n : Networking Identifier Description)
      → length (connect_peer same fresh id n).peerings
        ≡ length n.peerings + (if has_value (find same id n.peerings) then 0 else 1)
  unfolding connect_peer connect_created keep_link
  length-connect_peer fresh id n = elim (Option-cases (find same id n.peerings)) [
    | inl h ↦
        rw (create-new id n h, connect_peer)
          (length-assign same id _ _ ∙ length-emplace same id (create_peering_at id) n.peerings)
    | inr (p, h) ↦
        rw (create-found id n p h, connect_peer) (length-assign same id _ _ ∙ ground (arith, h))
  ]

  length-connect_first :
      (fresh : ℕ → Channel) (ids : List Identifier) (n : Networking Identifier Description)
      → length (connect_first same fresh ids n).peerings
        ≡ length n.peerings + (if some_unknown same ids n.peerings then 1 else 0)
  unfolding connect_first
  length-connect_first fresh [] n = ground arith
  length-connect_first fresh (id ∷ ids) n =
      ground (arith, length-connect_first fresh ids n, length-connect_peer fresh id n)

  -- `update` makes one peering more if there are fewer than the target and some node of the table has
  -- none, in whatever order it tries the nodes, and else no more.
  pub length-update :
      (fresh : ℕ → Channel) (shuffle : List Identifier → List Identifier)
      (n : Networking Identifier Description) (table : RoutingTable Identifier)
      → n.routing.table ≡ some table
      → (n' : Networking Identifier Description) × (update same fresh shuffle n ≡ some n')
        × (length n'.peerings
            ≡ length n.peerings
              + (if ltb (length n.peerings) target_peering_count
                    && some_unknown same (shuffle (nodes same table)) n.peerings
                  then 1
                  else 0))
  unfolding update
  length-update fresh shuffle n table h =
      elim (Bool-cases (ltb (length n.peerings) target_peering_count)) [
        | inl b ↦ (
          connect_first same fresh (shuffle (nodes same table)) n,
          rw b (simp h refl),
          rw b (length-connect_first fresh (shuffle (nodes same table)) n),
        )
        | inr b ↦ (n, rw b refl, rw b (omega arith))
      ]
