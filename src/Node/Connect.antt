-- ===== src/Node/Connect.antt =====
-- What `Node::connect` of src/impl/node.cpp makes of the texts that nodes give out.
use legio.Prelude.{
  ℕ, zero, suc, ◌≤◌, ◌≡◌, refl, ap, ◌∙◌, Bool, true, false, not, ◌&&◌, ◌||◌, ◌==◌, List, [], ◌∷◌,
  ◌++◌, append-nil, length, get_or, All, value_or, arith, inl, inr, Option-cases, Bool-cases, ok,
  some, leb, ◌+◌,
}
use mathlib.Core.Option.{some-injective}
use legio.Prelude.Int.{int_max}
use legio.Binary.Base64.{
  base64url_tab, to_base64url, to_base64_impl, encode_groups, from_base64_impl, done,
}
use legio.Binary.Base64.RoundTrip.{from_base64-to_base64}
use legio.ByteOrder.Laws.{IsByte}
use legio.Crypto.{CryptoPp, CryptoLaws, public_key}
use legio.Message.Codec.{ecdsa_public-encode}
use legio.Server.{
  Services, Server, generate_url, scheme, bracketed, decimal, get_local_address, url_text,
}
use legio.Node.{matches, match_prefix, ws_prefix, wss_prefix, web_socket, peer, peer_of, connect_to}

-- No character is a colon.
abbrev colon_free : List ℕ → Bool
colon_free [] = true
colon_free (c ∷ str) = not (c == b':') && colon_free str

get_or-colon_free :
    (tab : List ℕ) (i : ℕ) → colon_free tab ≡ true → (get_or tab i 0 == b':') ≡ false
get_or-colon_free [] i h = refl
get_or-colon_free (c ∷ tab) zero h = ground (arith, h)
get_or-colon_free (c ∷ tab) (suc i) h = get_or-colon_free tab i (ground (arith, h))

encode_groups-colon_free :
    (bin tab : List ℕ) (padding : Bool)
    → colon_free tab ≡ true
    → colon_free (encode_groups bin tab padding) ≡ true
unfolding encode_groups
encode_groups-colon_free [] tab padding h = refl
encode_groups-colon_free (d0 ∷ []) tab true h =
    rw (get_or-colon_free tab _ h, get_or-colon_free tab _ h) refl
encode_groups-colon_free (d0 ∷ []) tab false h =
    rw (get_or-colon_free tab _ h, get_or-colon_free tab _ h) refl
encode_groups-colon_free (d0 ∷ d1 ∷ []) tab true h =
    rw (get_or-colon_free tab _ h, get_or-colon_free tab _ h, get_or-colon_free tab _ h) refl
encode_groups-colon_free (d0 ∷ d1 ∷ []) tab false h =
    rw (get_or-colon_free tab _ h, get_or-colon_free tab _ h, get_or-colon_free tab _ h) refl
encode_groups-colon_free (d0 ∷ d1 ∷ d2 ∷ rest) tab padding h =
    rw
      (
        get_or-colon_free tab _ h,
        get_or-colon_free tab _ h,
        get_or-colon_free tab _ h,
        get_or-colon_free tab _ h,
      )
      (encode_groups-colon_free rest tab padding h)

match-colon_free :
    (str : List ℕ)
    → colon_free str ≡ true
    → (match_prefix str ws_prefix || match_prefix str wss_prefix) ≡ false
unfolding match_prefix matches
match-colon_free [] h = refl
match-colon_free (a ∷ []) h = ground arith
match-colon_free (a ∷ b ∷ []) h = ground arith
match-colon_free (a ∷ b ∷ d ∷ []) h = ground (arith, h)
match-colon_free (a ∷ b ∷ d ∷ f ∷ str) h = ground (arith, h)

module _ (c : CryptoPp) where
  open c use {Point, validate}

  to_base64url-colon_free :
      (bin text : List ℕ) (padding : Bool)
      → to_base64url bin padding ≡ some text
      → colon_free text ≡ true
  unfolding to_base64url to_base64_impl
  to_base64url-colon_free bin text padding h = elim (Bool-cases (leb (length bin) (int_max + 1))) [
    | inl k ↦
        let e : encode_groups bin base64url_tab padding ≡ text = some-injective _ _ (rw k at h) in
        rw (← e) (encode_groups-colon_free bin base64url_tab padding refl)
    | inr k ↦ cc (rw k at h)
  ]

  -- The text of a node's identifier, as `to_base64url` writes it, connects to that node as a peer.
  pub connect_to-to_base64url :
      (laws : CryptoLaws c) (rounds : ℕ) (id : Point) (padding : Bool)
      → validate id ≡ true
      → All IsByte (public_key c id)
      → 38 ≤ rounds
      → (text : List ℕ) × (to_base64url (public_key c id) padding ≡ some text)
        × (connect_to c rounds text ≡ peer id)
  unfolding connect_to peer_of public_key
  connect_to-to_base64url laws rounds id padding v bytes l =
      let bin = public_key c id in
      let size : length bin ≡ 33 = laws.length-encode id in
      let (text, wrote, read) =
        (from_base64-to_base64 rounds bin padding bytes (omega (arith, size))
          (omega (arith, size, l))).1 in
      let no_url = match-colon_free text (to_base64url-colon_free bin text padding wrote) in
      let decoded : from_base64_impl rounds text ≡ done bin =
        read ∙ rw size (ap done (append-nil bin)) in
      (text, wrote, rw (no_url, decoded) (rw (ecdsa_public-encode c laws id v, peer_of) refl))

  scheme-match :
      (tls : Bool) (rest : List ℕ)
      → let url = scheme tls ++ b':' ∷ rest in
        (match_prefix url ws_prefix || match_prefix url wss_prefix) ≡ true
  unfolding match_prefix matches
  scheme-match true rest = ground arith
  scheme-match false rest = ground arith

  -- What follows the scheme and the colon.
  abbrev after_scheme : Services → Server → ℕ → List ℕ
  after_scheme lib s listening =
      b'/'
      ∷ b'/'
      ∷ (bracketed (value_or s.external_host (get_local_address lib))
          ++ b':' ∷ (decimal (value_or s.external_port listening) ++ b'/' ∷ []))

  connect_to-scheme :
      (rounds : ℕ) (tls : Bool) (rest url : List ℕ)
      → ok (scheme tls ++ b':' ∷ rest) ≡ ok url
      → connect_to c rounds url ≡ web_socket url
  unfolding connect_to
  connect_to-scheme rounds tls rest url h =
      let same : scheme tls ++ b':' ∷ rest ≡ url = cc h in
      rw (← same) (rw (scheme-match tls rest) refl)

  -- What `url()` gives out is taken for the address of a WebSocket.
  pub connect_to-generate_url :
      (rounds : ℕ) (lib : Services) (s : Server) (url : List ℕ)
      → generate_url lib s ≡ ok url
      → connect_to c rounds url ≡ web_socket url
  unfolding generate_url url_text
  connect_to-generate_url rounds lib s url h = elim (Option-cases s.web_socket_server) [
    | inl e ↦ cc (rw (e, generate_url) at h)
    | inr (listening, e) ↦
        connect_to-scheme rounds s.tls_enabled (after_scheme lib s listening) url
          (rw (e, generate_url) at h)
  ]
