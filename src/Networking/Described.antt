-- ===== src/Networking/Described.antt =====
-- What `Networking::receive` makes of a description that arrives.
use legio.Prelude.{
  ℕ, ◌≡◌, refl, Bool, if◌then◌else◌, List, [], ◌∷◌, ◌++◌, find, Option-cases, inl, inr, Result, ok,
  ap, ◌∙◌, Bool-cases,
}
use legio.Binary.Strings.{pack_strings, IsText}
use legio.Peering.{WebRtc, Peering, Link, create_peering_at, ignores, sets_remote}
use legio.Peering.Signaling.{receive-packed}
use legio.Networking.{
  Networking, receive_signaling, create_peering, link_of, keep_link, receive, Call,
}
use legio.Networking.Links.{Named, find-Named}

module _ (rtc : WebRtc) {Identifier : Type 0} (same : Discrete Identifier)
    (greater : Identifier → Identifier → Bool) (local_id : Identifier)
    (have_local_offer : Identifier → Bool) where
  open rtc use {Description, describe}

  abbrev Taken : Type 0
  Taken = Networking Identifier Description × Result (Unit {0})

  -- The calls that were made, with the one for `d` unless the offer is ignored.
  abbrev pub calls_with :
      Identifier
      → Description
      → Networking Identifier Description
      → List (Call Identifier Description)
  calls_with remote_id d n =
      if ignores rtc greater local_id (have_local_offer remote_id) remote_id d
      then n.calls
      else n.calls ++ sets_remote remote_id d ∷ []

  created-Named :
      (remote_id : Identifier) (n : Networking Identifier Description)
      → Named same n.peerings
      → (n' : Networking Identifier Description) × (p : Peering Identifier) × (create_peering same
            remote_id n
          ≡ (n', p))
        × (n'.calls ≡ n.calls)
        × (p.remote_id ≡ remote_id)
  unfolding create_peering create_peering_at
  created-Named remote_id n named = elim (Option-cases (find same remote_id n.peerings)) [
    | inl k ↦ (
      (create_peering same remote_id n).0,
      (create_peering same remote_id n).1,
      refl,
      rw (k, create_peering) refl,
      rw (k, create_peering) refl,
    )
    | inr (p, k) ↦
        (n, p, rw (k, create_peering) refl, refl, find-Named same remote_id p n.peerings k named)
  ]

  abbrev after :
      Identifier → List ℕ → Networking Identifier Description × Peering Identifier → Taken
  after remote_id payload (n, p) =
      let (l, result) =
        receive rtc greater local_id (have_local_offer remote_id) payload (link_of same n p) in
      (keep_link same remote_id n l, result)

  -- A type and a text that arrive packed are handed to the library as a description of the sender's,
  -- unless the offer is ignored; bytes behind them do not matter.
  pub receive_signaling-packed :
      (remote_id : Identifier) (type text : List ℕ) (d : Description) (more : List ℕ)
      (n : Networking Identifier Description)
      → IsText type
      → IsText text
      → describe text type ≡ ok d
      → Named same n.peerings
      → (n' : Networking Identifier Description) × (receive_signaling rtc same greater local_id
            have_local_offer remote_id
            (pack_strings (type ∷ text ∷ []) ++ more)
            n
          ≡ (n', ok tt))
        × (n'.calls ≡ calls_with remote_id d n)
  unfolding receive_signaling keep_link
  receive_signaling-packed remote_id type text d more n ht hx h named =
      let (n1, p, made, calls, name) = created-Named remote_id n named in
      let payload = pack_strings (type ∷ text ∷ []) ++ more in
      let l : Link Identifier Description = link_of same n1 p in
      let kept : Link Identifier Description × Result (Unit {0}) → Taken =
        λ x. (keep_link same remote_id n1 x.0, x.1) in
      let with_it : Link Identifier Description = record l {
        calls = l.calls ++ sets_remote p.remote_id d ∷ [];
      } in
      let left : Link Identifier Description × Result (Unit {0}) = (l, ok tt) in
      let set : Link Identifier Description × Result (Unit {0}) = (with_it, ok tt) in
      let ignored = λ (b : Bool). kept (if b then left else set) in
      let run : receive_signaling rtc same greater local_id have_local_offer remote_id payload n
          ≡ ignored (ignores rtc greater local_id (have_local_offer remote_id) remote_id d) =
        ap (after remote_id payload) made
        ∙ ap kept (
            receive-packed rtc greater local_id (have_local_offer remote_id) type text d more l ht
              hx h)
        ∙ ap
            (λ (j : Identifier).
              ignored (ignores rtc greater local_id (have_local_offer remote_id) j d))
            name in
      elim (Bool-cases (ignores rtc greater local_id (have_local_offer remote_id) remote_id d)) [
        | inl k ↦ (keep_link same remote_id n1 l, run ∙ ap ignored k, calls ∙ rw k refl)
        | inr k ↦
            (keep_link same remote_id n1 with_it, run ∙ ap ignored k, rw (k, name, calls) refl)
      ]
