-- ===== src/Server.antt =====
-- src/impl/server.hpp and server.cpp, and the configuration of include/legio/configuration.hpp: the
-- server for incoming WebSockets, and its URL. Strings are lists of their bytes.
pub mod Listening
use legio.Prelude.{
  Error, not, ℕ, zero, suc, ◌+◌, ◌/◌, ◌%◌, Bool, true, false, ◌==◌, ltb, leb, if◌then◌else◌, List,
  [], ◌∷◌, ◌++◌, Option, none, some, value_or, has_value, contains, ℕ_discrete, Result, ok, err,
  ◌>>=◌, initialization_failed, not_started, mapping_failed, certificate_failed, key_failed,
  port_mapping_failed, server_failed,
}
use legio.Routing.{Channel, Routing, add_channel}

-- `struct Configuration`
pub record Configuration : Type 0 where
  pub port : Option ℕ
  pub external_host : Option (List ℕ)
  pub external_port : Option ℕ
  pub tls_pem_certificate : Option (List ℕ)
  pub tls_pem_key : Option (List ℕ)
  pub dummy_tls_service : Option (List ℕ)

-- `struct Server::CertificatePair`
pub record CertificatePair : Type 0 where
  pub certificate : List ℕ
  pub key : List ℕ

-- `PLUM_DUMMYTLS_PEM_FULLCHAIN` and `PLUM_DUMMYTLS_PEM_PRIVKEY`
pub data Pem : Type 0 where
  fullchain privkey : Pem

-- `plum_state_t`
pub data PlumState : Type 0 where
  success failure other : PlumState

-- What the libraries answer: `plum_init` for a domain, `plum_get_dummytls_host` where it is positive,
-- `plum_get_dummytls_certificate` with `none` for a negative length, `plum_create_mapping` and
-- `plum_get_local_address` with `none` for a negative result, and the port on which a new
-- `rtc::WebSocketServer` listens, with the certificates if TLS is enabled.
pub record Services : Type 0 where
  pub init : Option (List ℕ) → Bool
  pub dummytls_host : List ℕ → Option (List ℕ)
  pub dummytls_certificate : Pem → Option ℕ × List ℕ
  pub create_mapping : ℕ → ℕ → Option ℕ
  pub local_address : Option (List ℕ)
  pub listen : ℕ → Option CertificatePair → Result ℕ

-- The members; `mapping_id` is `none` for a negative one, `web_socket_server` the server's port.
pub record Server : Type 0 where
  pub mapping_id : Option ℕ
  pub web_socket_server : Option ℕ
  pub tls_enabled : Bool
  pub external_host : Option (List ℕ)
  pub external_port : Option ℕ

abbrev pub new_server : Server
new_server = record {
  mapping_id = none;
  web_socket_server = none;
  tls_enabled = false;
  external_host = none;
  external_port = none;
}

-- The digits of a number of at most `rounds` digits, before `more`.
abbrev pub digits : ℕ → ℕ → List ℕ → List ℕ
digits zero n more = more
digits (suc rounds) n more =
    let rest = digits rounds (n / 10) ((b'0' + n % 10) ∷ more) in
    if ltb n 10 then (b'0' + n) ∷ more else rest

-- `url << port` for a `uint16_t`
abbrev pub decimal : ℕ → List ℕ
decimal port = digits 5 port []

-- `string GetLocalAddress()`, where the default is `"127.0.0.1"`
unfoldable pub get_local_address : Services → List ℕ
get_local_address lib =
    value_or lib.local_address (b'1' ∷ b'2' ∷ b'7' ∷ b'.' ∷ b'0' ∷ b'.' ∷ b'0' ∷ b'.' ∷ b'1' ∷ [])

-- `hostname`, in brackets if it has a colon
abbrev pub bracketed : List ℕ → List ℕ
bracketed hostname =
    if contains ℕ_discrete b':' hostname then b'[' ∷ (hostname ++ b']' ∷ []) else hostname

-- `(mTlsEnabled ? "wss" : "ws")`
abbrev pub scheme : Bool → List ℕ
scheme tls = if tls then b'w' ∷ b's' ∷ b's' ∷ [] else b'w' ∷ b's' ∷ []

-- The URL of a server that listens.
unfoldable pub url_text : Services → Server → ℕ → List ℕ
unfolding get_local_address
url_text lib s listening =
    let port = value_or s.external_port listening in
    let hostname = bracketed (value_or s.external_host (get_local_address lib)) in
    scheme s.tls_enabled ++ b':' ∷ b'/' ∷ b'/' ∷ (hostname ++ b':' ∷ (decimal port ++ b'/' ∷ []))

-- `string generateUrl() const`, and `url()`
unfoldable pub generate_url : Services → Server → Result (List ℕ)
unfolding url_text
generate_url lib s = elim s.web_socket_server [
  | none ↦ err not_started
  | some listening ↦ ok (url_text lib s listening)
]

-- `void createWebSocketServer(uint16_t port, optional<CertificatePair> certPair)`
unfoldable pub create_web_socket_server :
    Services → ℕ → Option CertificatePair → Server → Server × Result (Unit {0})
create_web_socket_server lib port cert_pair s =
    let s' = record s { web_socket_server = none; tls_enabled = has_value cert_pair } in
    elim (lib.listen port cert_pair) [
      | err e ↦ (s', err (server_failed e))
      | ok listening ↦ (record s' { web_socket_server = some listening }, ok tt)
    ]

-- The callbacks of `onClient` and of the incoming socket's `onOpen`
unfoldable pub client_opened :
    {Identifier : Type 0} → Channel → Routing Identifier → Routing Identifier
client_opened web_socket r = add_channel r web_socket

-- `void updateExternal(optional<string> externalHost, optional<uint16_t> externalPort)`; the log line
-- can throw.
unfoldable pub update_external :
    Services → Option (List ℕ) → Option ℕ → Server → Server × Result (Unit {0})
unfolding generate_url
update_external lib host port s =
    let s' = record s { external_host = host; external_port = port } in
    (s', generate_url lib s' >>= λ url. ok tt)

-- One call of `plum_get_dummytls_certificate` with its check, for a buffer of 8192 bytes.
abbrev read_pem : Services → Pem → Error → Result (List ℕ)
read_pem lib pem failed =
    let (len, text) = lib.dummytls_certificate pem in
    elim len [ none ↦ err failed | some n ↦ if leb 8192 n then err failed else ok text ]

-- The body of the `try` of `GetPlumCertificatePair`.
abbrev read_pair : Services → Result CertificatePair
read_pair lib = do
  certificate ← read_pem lib fullchain certificate_failed
  key ← read_pem lib privkey key_failed
  ok (record { certificate = certificate; key = key })

-- `optional<CertificatePair> GetPlumCertificatePair()`
unfoldable pub get_plum_certificate_pair : Services → Option CertificatePair
get_plum_certificate_pair lib = elim (read_pair lib) [ err e ↦ none | ok pair ↦ some pair ]

-- What follows a call, unless that threw.
abbrev pub and_then :
    (Server → Server × Result (Unit {0})) → Server × Result (Unit {0}) → Server × Result (Unit {0})
and_then next (s, err e) = (s, err e)
and_then next (s, ok done) = next s

-- `void PlumMappingCallback(int id, plum_state_t state, const plum_mapping_t *mapping)`
unfoldable pub plum_mapping_callback :
    Services → ℕ → PlumState → ℕ → List ℕ → ℕ → Server → Server × Result (Unit {0})
unfolding create_web_socket_server update_external get_plum_certificate_pair
plum_mapping_callback lib id state internal_port host port s =
    if not_this s.mapping_id then (s, ok tt) else elim state [
      | success ↦
          and_then (update_external lib (some host) (some port))
            (create_web_socket_server lib internal_port (get_plum_certificate_pair lib) s)
      | failure ↦ update_external lib none none s
      | other ↦ (s, ok tt)
    ]
  where
    not_this : Option ℕ → Bool
    not_this none = true
    not_this (some mapping_id) = not (id == mapping_id)

-- The certificates of the configuration, or those of the library.
abbrev pub configured_pair : Services → Configuration → Option CertificatePair
configured_pair lib config = elim config.tls_pem_certificate [
  | none ↦ get_plum_certificate_pair lib
  | some certificate ↦ elim config.tls_pem_key [
    | none ↦ get_plum_certificate_pair lib
    | some key ↦ some (record { certificate = certificate; key = key })
  ]
]

-- The host of the configuration, as the library names it if it provides the certificates.
abbrev pub configured_host : Services → Configuration → List ℕ → List ℕ
configured_host lib config host =
    if has_value config.tls_pem_certificate
    then (if has_value config.tls_pem_key then host else value_or (lib.dummytls_host host) host)
    else value_or (lib.dummytls_host host) host

-- The mapping of the port on which the server listens.
abbrev pub create_port_mapping : Services → ℕ → Server → Server × Result (Unit {0})
create_port_mapping lib external_port s = elim s.web_socket_server [
  | none ↦ (s, err not_started)
  | some listening ↦ elim (lib.create_mapping listening external_port) [
    | none ↦ (s, err mapping_failed)
    | some id ↦ (record s { mapping_id = some id }, ok tt)
  ]
]

-- The body of the constructor.
unfoldable pub start : Services → Configuration → Server × Result (Unit {0})
unfolding create_web_socket_server update_external
start lib config =
    let port = value_or config.port 0 in
    if lib.init config.dummy_tls_service
    then (elim config.external_host [
      | some host ↦
          and_then
            (update_external lib (some (configured_host lib config host))
              (some (value_or config.external_port port)))
            (create_web_socket_server lib port (configured_pair lib config) new_server)
      | none ↦
          and_then (create_port_mapping lib (value_or config.external_port port))
            (create_web_socket_server lib port none new_server)
    ])
    else (new_server, err initialization_failed)

-- The `catch` around it.
abbrev pub rethrown : Server × Result (Unit {0}) → Result Server
rethrown (s, err e) = err (port_mapping_failed e)
rethrown (s, ok done) = ok s

-- `Server(const Configuration &config, Node *node)`
unfoldable pub construct : Services → Configuration → Result Server
unfolding start
construct lib config = rethrown (start lib config)
