-- ===== src/Routing/Forwarding.antt =====
-- Where messages go: to the local node, over one channel, or over all channels but one.
use legio.Prelude.{
  inl, inr, ℕ, ◌≡◌, ◌≢◌, refl, ap, ◌∙◌, true, not, ◌&&◌, ◌==◌, if◌then◌else◌, List, [], ◌∷◌, Option,
  none, some, has_value, find, Result, ok, err, arith, suc, ◌↔◌, ◌⊎◌, Error, Option-cases,
  missing_source, sym, Result-cases, replicate,
}
use legio.Message.{Message}
use legio.RoutingTable.{RoutingTable, find_next_hop}
use legio.Routing.{
  Channel, Channels, message, Routing, is_from, find_route, send_on, broadcast_on, broadcast,
  forward, is_local, route, Effects,
}

module _ {Identifier : Type 0} (same : Discrete Identifier) where
  -- A route is found exactly to the direct neighbours that the table knows a next hop for, and it
  -- is the neighbour's own channel.
  pub find_route_iff :
      (r : Routing Identifier) (t : RoutingTable Identifier) (id : Identifier) (c : Channel)
      → r.table ≡ some t
      → (find_route same r id ≡ some c)
        ↔ ((has_value (find_next_hop same t id) ≡ true) × (find same id r.neighbors ≡ some c))
  unfolding find_route
  find_route_iff r t id c h = ground arith

  -- So a node that is no direct neighbour is never reached, although the table has a next hop for it
  -- and that next hop is a neighbour.
  find_route_indirect :
      (r : Routing Identifier) (t : RoutingTable Identifier) (id hop : Identifier) (c : Channel)
      → r.table ≡ some t
      → find_next_hop same t id ≡ some hop
      → find same hop r.neighbors ≡ some c
      → find same id r.neighbors ≡ none
      → find_route same r id ≡ none
  unfolding find_route
  find_route_indirect r t id hop c h e k n = ground arith

-- What is written to a channel, in order.
unfoldable pub written_to : Channel → List (Channel × List ℕ) → List (List ℕ)
written_to c [] = []
written_to c ((d, bin) ∷ s) = if d == c then bin ∷ written_to c s else written_to c s

-- How often a channel is listed.
unfoldable pub copies : Channel → List Channel → ℕ
copies c [] = 0
copies c (d ∷ cs) = if d == c then suc (copies c cs) else copies c cs

module _ {Identifier : Type 0} (same : Discrete Identifier)
    (encode : Message Identifier → Result (List ℕ)) (net : Channels) where
  written_to-broadcast_on :
      (m : Message Identifier) (from : Option Channel) (bin : List ℕ) (c : Channel)
      (cs : List Channel)
      → encode m ≡ ok bin
      → written_to c (broadcast_on same encode net m from cs)
        ≡ replicate
            (if not (is_from from c) && (net.is_open c && net.accepts c bin)
              then copies c cs
              else 0)
            bin
  unfolding broadcast_on send_on written_to copies
  written_to-broadcast_on m none bin c [] e = ground arith
  written_to-broadcast_on m (some f) bin c [] e = ground arith
  written_to-broadcast_on m none bin c (d ∷ cs) e =
      ground (arith, written_to-broadcast_on m none bin c cs e)
  written_to-broadcast_on m (some f) bin c (d ∷ cs) e =
      ground (arith, written_to-broadcast_on m (some f) bin c cs e)

  -- A broadcast of a message that can be made bytes writes to each channel nothing but these
  -- bytes: as often as the channel is registered, if it is open, takes them and is not the
  -- sender's, and else not at all.
  pub written_to-broadcast :
      (r : Routing Identifier) (m : Message Identifier) (from : Option Channel) (bin : List ℕ)
      (c : Channel)
      → encode m ≡ ok bin
      → written_to c (broadcast same encode net r m from)
        ≡ replicate
            (if not (is_from from c) && (net.is_open c && net.accepts c bin)
              then copies c r.channels
              else 0)
            bin
  unfolding broadcast
  written_to-broadcast r m from bin c e = written_to-broadcast_on m from bin c r.channels e

  broadcast_on-err :
      (m : Message Identifier) (from : Option Channel) (x : Error) (cs : List Channel)
      → encode m ≡ err x
      → broadcast_on same encode net m from cs ≡ []
  unfolding broadcast_on send_on
  broadcast_on-err m from x [] e = refl
  broadcast_on-err m from x (d ∷ cs) e = ground (arith, broadcast_on-err m from x cs e)

  -- What `route` does with a message that names a source, in each case: one for this node or
  -- for all is handed to the components and not sent; any other is forwarded as
  -- `forward` does.
  pub route_cases :
      (local : Identifier) (r : Routing Identifier) (m : Message Identifier) (from : Option Channel)
      (source : Identifier)
      → m.source ≡ some source
      → ((m.destination ≡ none)
          × (route same encode net local r m from
              ≡ ok (record { sent = []; events = message m from ∷ [] })))
        ⊎ ((m.destination ≡ some local)
            × (route same encode net local r m from
                ≡ ok (record { sent = []; events = message m from ∷ [] })))
        ⊎ ((d : Identifier) × (m.destination ≡ some d)
            × (d ≢ local)
            × (route same encode net local r m from ≡ forward same encode net r m (some d)))
  unfolding route is_local
  route_cases local r m from source h = elim (Option-cases m.destination) [
    | inl e ↦ inl (e, rw (h, e))
    | inr (d, e) ↦ elim (same d local) [
      | yes p ↦ inr (inl (e ∙ ap some p, ground arith))
      | no p ↦ inr (inr (d, e, p, ground arith))
    ]
  ]

  events_of : (a b : Effects Identifier) → ok a ≡ ok b → a.events ≡ b.events
  events_of a b h = let e : a ≡ b = cc h in ap (λ (x : Effects Identifier). x.events) e

  forward-events :
      (r : Routing Identifier) (m : Message Identifier) (id : Identifier)
      (effects : Effects Identifier)
      → forward same encode net r m (some id) ≡ ok effects
      → effects.events ≡ []
  unfolding forward
  forward-events r m id effects h = elim (Option-cases (find_route same r id)) [
    | inl k ↦ sym (events_of (record { sent = []; events = [] }) effects (rw (k, forward) at h))
    | inr (channel, k) ↦ elim (Result-cases (send_on same encode net channel m)) [
      | inl (x, q) ↦ cc (rw q at (rw (k, forward) at h))
      | inr (s, q) ↦ sym (
          events_of (record { sent = s ∷ []; events = [] }) effects
            (rw q at (rw (k, forward) at h)))
    ]
  ]

  pub unsourced :
      (local : Identifier) (r : Routing Identifier) (m : Message Identifier) (from : Option Channel)
      → m.source ≡ none
      → route same encode net local r m from ≡ err missing_source
  unfolding route
  unsourced local r m from h = rw (h, route) refl

  -- The only event is that of the message itself, for this node or for all.
  pub route-events :
      (local : Identifier) (r : Routing Identifier) (m : Message Identifier) (from : Option Channel)
      (effects : Effects Identifier)
      → route same encode net local r m from ≡ ok effects
      → (effects.events ≡ [])
        ⊎ ((effects.events ≡ message m from ∷ [])
            × (s : Identifier) × (m.source ≡ some s)
            × ((m.destination ≡ none) ⊎ (m.destination ≡ some local)))
  route-events local r m from effects h =
      let event : Effects Identifier = record { sent = []; events = message m from ∷ [] } in
      elim (Option-cases m.source) [
        | inl k ↦ cc (unsourced local r m from k, h)
        | inr (s, k) ↦ elim (route_cases local r m from s k) [
          | inl (d, q) ↦ inr (sym (events_of event effects (sym q ∙ h)), s, k, inl d)
          | inr (inl (d, q)) ↦ inr (sym (events_of event effects (sym q ∙ h)), s, k, inr d)
          | inr (inr (id, d, n, q)) ↦ inl (forward-events r m id effects (sym q ∙ h))
        ]
      ]
