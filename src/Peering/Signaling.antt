-- ===== src/Peering/Signaling.antt =====
-- What two peerings of src/impl/peering.cpp make of each other's descriptions.
use legio.Prelude.{
  ℕ, ◌≡◌, ◌⊎◌, refl, ◌∙◌, Bool, true, not, if◌then◌else◌, List, [], ◌∷◌, ◌++◌, inl, inr, Bool-cases,
  ok,
}
use legio.Binary.Strings.{pack_strings, unpack_strings, unpack-pack, IsText}
use legio.Peering.{WebRtc, Link, receive, ignores, sets_remote}

module _ (rtc : WebRtc) where
  open rtc use {Description, describe, is_offer, type_string, sdp}

  -- A description that the library gives back from its type and text.
  pub record IsDescribed (d : Description) : Type 0 where
    pub type_text : IsText (type_string d)
    pub sdp_text : IsText (sdp d)
    pub round_trip : describe (sdp d) (type_string d) ≡ ok d

  -- What `sendLocalDescription` hands to the transport.
  abbrev pub payload_of : Description → List ℕ
  payload_of d = pack_strings (type_string d ∷ sdp d ∷ [])

module _ (rtc : WebRtc) {Identifier : Type 0} where
  open rtc use {Description, describe, is_offer, type_string, sdp}

  abbrev pub with_remote : Description → Link Identifier Description → Link Identifier Description
  with_remote d l = record l { calls = l.calls ++ sets_remote l.peering.remote_id d ∷ [] }

  -- What is made of a type and a text that were packed, from which the library gives `d`.
  pub receive-packed :
      (greater : Identifier → Identifier → Bool) (local_id : Identifier) (have_local_offer : Bool)
      (type text : List ℕ) (d : Description) (more : List ℕ) (l : Link Identifier Description)
      → IsText type
      → IsText text
      → describe text type ≡ ok d
      → receive rtc greater local_id have_local_offer (pack_strings (type ∷ text ∷ []) ++ more) l
        ≡ (if ignores rtc greater local_id have_local_offer l.peering.remote_id d
            then (l, ok tt)
            else (with_remote d l, ok tt))
  unfolding receive
  receive-packed greater local_id have_local_offer type text d more l ht hx h =
      let strs : unpack_strings 2 (pack_strings (type ∷ text ∷ []) ++ more) ≡ type ∷ text ∷ [] =
        unpack-pack (type ∷ text ∷ []) more (ht, (hx, tt)) in
      rw (strs, receive) (rw h refl)

  receive_described :
      (greater : Identifier → Identifier → Bool) (local_id : Identifier) (have_local_offer : Bool)
      (d : Description) (more : List ℕ) (l : Link Identifier Description)
      → IsDescribed rtc d
      → receive rtc greater local_id have_local_offer (payload_of rtc d ++ more) l ≡ (
          if ignores rtc greater local_id have_local_offer l.peering.remote_id d
          then (l, ok tt)
          else (with_remote d l, ok tt))
  receive_described greater local_id have_local_offer d more l v =
      receive-packed greater local_id have_local_offer (type_string d) (sdp d) d more l v.type_text
        v.sdp_text v.round_trip

  -- Two nodes that have each sent the other an offer do not both drop the other's: with an order of
  -- identifiers by which exactly one of the two is greater, exactly the greater one ignores the offer
  -- that it gets, and the other one takes its peer's offer as the remote description. Bytes behind
  -- the packed strings, as the transport's decryption leaves them, do not matter.
  pub receive-offers :
      (greater : Identifier → Identifier → Bool) (a b : Identifier) (da db : Description)
      (la lb : Link Identifier Description) (more more' : List ℕ)
      → greater b a ≡ not (greater a b)
      → la.peering.remote_id ≡ b
      → lb.peering.remote_id ≡ a
      → IsDescribed rtc da
      → IsDescribed rtc db
      → is_offer da ≡ true
      → is_offer db ≡ true
      → let at_a = receive rtc greater a true (payload_of rtc db ++ more) la in
        let at_b = receive rtc greater b true (payload_of rtc da ++ more') lb in
        ((greater a b ≡ true) × (at_a ≡ (la, ok tt)) × (at_b ≡ (with_remote da lb, ok tt)))
        ⊎ ((greater b a ≡ true) × (at_a ≡ (with_remote db la, ok tt)) × (at_b ≡ (lb, ok tt)))
  unfolding ignores
  receive-offers greater a b da db la lb more more' o ra rb va vb oa ob =
      elim (Bool-cases (greater a b)) [
        | inl g ↦ inl (
          g,
          receive_described greater a true db more la vb ∙ rw (ra, ob, g) refl,
          receive_described greater b true da more' lb va ∙ rw (rb, oa, o, g) refl,
        )
        | inr g ↦ inr (
          rw (o, g) refl,
          receive_described greater a true db more la vb ∙ rw (ra, ob, g) refl,
          receive_described greater b true da more' lb va ∙ rw (rb, oa, o, g) refl,
        )
      ]
