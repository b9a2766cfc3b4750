-- ===== src/Peering/Replaced.antt =====
-- What a peering of src/impl/peering.cpp does when one data channel took the place of another.
use legio.Prelude.{
  ◌≡◌, ◌≢◌, refl, ap, ◌∙◌, ite, true, false, Option, some, contains, contains-insert,
  contains-discard, ℕ_discrete, arith,
}
use mathlib.Core.Option.{some-injective}
use legio.Routing.{Channel, Event, Routing, add_channel, remove_channel, add_neighbor}
use legio.Peering.{Link, set_data_channel, opened, closed}

add_neighbor-channels :
    {Identifier : Type 0} (same : Discrete Identifier) (r : Routing Identifier) (id : Identifier)
    (channel : Channel)
    → (add_neighbor same r id channel).0.channels ≡ r.channels
unfolding add_neighbor
add_neighbor-channels same r id channel = ground arith

module _ {Identifier Description : Type 0} (same : Discrete Identifier) where
  -- The data channel that is set is the one that is registered when it opens.
  opened_set :
      (l l' : Link Identifier Description) (channel d : Channel) (event : Option (Event Identifier))
      → opened same (set_data_channel channel l) ≡ some (l', event)
      → (l'.peering.data_channel ≡ some channel)
        × (contains ℕ_discrete d l'.routing.channels
            ≡ ite (ℕ_discrete channel d) true (contains ℕ_discrete d l.routing.channels))
  unfolding opened set_data_channel add_channel
  opened_set l l' channel d event h =
      let added = add_neighbor same (add_channel l.routing channel) l.peering.remote_id channel in
      let next : Link Identifier Description = record {
        peering = record l.peering { data_channel = some channel };
        routing = added.0;
        calls = l.calls;
      } in
      let same_link : next ≡ l' =
        ap (λ (p : Link Identifier Description × Option (Event Identifier)). p.0)
          (some-injective {A = Link Identifier Description × Option (Event Identifier)}
            (next, added.1) (l', event) h) in
      rw (← same_link) (
        refl,
        ap (contains ℕ_discrete d) (
              add_neighbor-channels same (add_channel l.routing channel) l.peering.remote_id
                channel)
            ∙ contains-insert ℕ_discrete channel d l.routing.channels,
      )

  closed-channels :
      (l : Link Identifier Description) (channel d : Channel)
      → l.peering.data_channel ≡ some channel
      → contains ℕ_discrete d l.routing.channels ≡ true
      → contains ℕ_discrete d (closed l).routing.channels ≡ ite (ℕ_discrete channel d) false true
  unfolding closed remove_channel
  closed-channels l channel d h k =
      rw (h, closed) (ground (arith, contains-discard ℕ_discrete channel d l.routing.channels, k))

  -- After a second data channel took the place of the first, and both opened, the callback for the
  -- closing of either one drops the second from the routing and leaves the first registered.
  pub closed-replaced :
      (l l1 l2 : Link Identifier Description) (first second : Channel)
      (e1 e2 : Option (Event Identifier))
      → first ≢ second
      → opened same (set_data_channel first l) ≡ some (l1, e1)
      → opened same (set_data_channel second l1) ≡ some (l2, e2)
      → (contains ℕ_discrete first (closed l2).routing.channels ≡ true)
        × (contains ℕ_discrete second (closed l2).routing.channels ≡ false)
  closed-replaced l l1 l2 first second e1 e2 d h1 h2 =
      let (at, has_second) = opened_set l1 l2 second second e2 h2 in
      let (at', has_first) = opened_set l1 l2 second first e2 h2 in
      let (at1, had_first) = opened_set l l1 first first e1 h1 in
      (
        closed-channels l2 second first at (has_first ∙ ground (arith, d, had_first))
            ∙ ground (arith, d),
        closed-channels l2 second second at (has_second ∙ ground arith) ∙ ground arith,
      )
