-- ===== src/Server/Listening.antt =====
-- When the server of src/impl/server.cpp has a URL.
use legio.Prelude.{
  ◌≡◌, refl, inl, inr, true, List, Option, none, some, value_or, has_value, Bool-cases,
  Option-cases, ℕ, Result, ok, err, Result-cases,
}
use legio.Server.{
  Services, Server, Configuration, CertificatePair, create_web_socket_server, update_external,
  generate_url, start, construct, new_server, configured_pair, configured_host, create_port_mapping,
  and_then, rethrown, url_text,
}

abbrev pub Listens : Server → Type 0
Listens s = has_value s.web_socket_server ≡ true

module _ (lib : Services) where
  -- A call that either threw or left a server that listens.
  abbrev pub Safe : Server × Result (Unit {0}) → Type 0
  Safe (s, err x) = Unit {0}
  Safe (s, ok done) = Listens s

  create-Safe :
      (port : ℕ) (cert_pair : Option CertificatePair) (s : Server)
      → Safe (create_web_socket_server lib port cert_pair s)
  unfolding create_web_socket_server
  create-Safe port cert_pair s = elim (Result-cases (lib.listen port cert_pair)) [
    | inl (x, h) ↦ rw (h, create_web_socket_server) tt
    | inr (p, h) ↦ rw (h, create_web_socket_server) refl
  ]

  any-Safe : (s : Server) (r : Result (Unit {0})) → Listens s → Safe (s, r)
  any-Safe s (err x) v = tt
  any-Safe s (ok done) v = v

  update-Safe :
      (host : Option (List ℕ)) (port : Option ℕ) (s : Server)
      → Listens s
      → Safe (update_external lib host port s)
  unfolding update_external
  update-Safe host port s v = any-Safe (record s { external_host = host; external_port = port }) _ v

  and_then-Safe :
      (next : Server → Server × Result (Unit {0})) (p : Server × Result (Unit {0}))
      → ((s : Server) → Listens s → Safe (next s))
      → Safe p
      → Safe (and_then next p)
  and_then-Safe next (s, err x) k v = tt
  and_then-Safe next (s, ok done) k v = k s v

  mapping-Safe :
      (external_port : ℕ) (s : Server) → Listens s → Safe (create_port_mapping lib external_port s)
  mapping-Safe external_port s v = elim (Option-cases s.web_socket_server) [
    | inl h ↦ rw (h, create_port_mapping) tt
    | inr (p, h) ↦ elim (Option-cases (lib.create_mapping p external_port)) [
      | inl k ↦ rw (h, create_port_mapping) (rw (k, create_port_mapping) tt)
      | inr (id, k) ↦ rw (h, create_port_mapping) (rw (k, create_port_mapping) v)
    ]
  ]

  start-Safe : (config : Configuration) → Safe (start lib config)
  unfolding start
  start-Safe config =
      let port = value_or config.port 0 in
      let mapped = value_or config.external_port port in
      elim (Bool-cases (lib.init config.dummy_tls_service)) [
        | inr b ↦ rw b tt
        | inl b ↦ elim (Option-cases config.external_host) [
          | inl h ↦
              simp (b, h)
                (and_then-Safe (create_port_mapping lib mapped)
                  (create_web_socket_server lib port none new_server) (mapping-Safe mapped)
                  (create-Safe port none new_server))
          | inr (host, h) ↦
              (let here = some (configured_host lib config host) in
                let pair = configured_pair lib config in
                simp (b, h)
                  (and_then-Safe (update_external lib here (some mapped))
                    (create_web_socket_server lib port pair new_server)
                    (update-Safe here (some mapped)) (create-Safe port pair new_server)))
        ]
      ]

  rethrown-Listens :
      (p : Server × Result (Unit {0})) (s : Server) → Safe p → rethrown p ≡ ok s → Listens s
  rethrown-Listens (t, err x) s v h = cc h
  rethrown-Listens (t, ok done) s v h = let e : t ≡ s = cc h in rw (← e) v

  generate_url-Listens : (s : Server) → Listens s → (url : List ℕ) × (generate_url lib s ≡ ok url)
  unfolding generate_url
  generate_url-Listens s v = elim (Option-cases s.web_socket_server) [
    | inl h ↦ cc (h, v)
    | inr (listening, h) ↦ (url_text lib s listening, rw (h, generate_url) refl)
  ]

  -- A server that was constructed without a throw listens, and has a URL.
  pub construct-generate_url :
      (config : Configuration) (s : Server)
      → construct lib config ≡ ok s
      → (url : List ℕ) × (generate_url lib s ≡ ok url)
  unfolding construct
  construct-generate_url config s h =
      generate_url-Listens s (rethrown-Listens (start lib config) s (start-Safe config) h)
