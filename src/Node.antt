-- ===== src/Node.antt =====
-- src/impl/node.hpp, node.cpp and component.cpp: the node, which owns the components and hands them
-- the events. A component, `Component *`, is a number that stands for its address.
pub mod Connect
pub mod Receive
pub mod Room
pub mod Trust
pub mod Accepted
pub mod Dispatch
pub mod Handled
pub mod Spared
pub mod Delivered
pub mod Authentic
pub mod Again
pub mod Delivery
pub mod Broadcast
pub mod Aside
pub mod Whole
pub mod Life
pub mod Kept
pub mod Opened
pub mod Emitted
pub mod Sent
pub mod Steps
pub mod Constructed
pub mod Reached
pub mod Signals
pub mod Sealed
pub mod Taken
pub mod Signaled
pub mod Connecting
use legio.Prelude.{
  ℕ, ◌==◌, ltb, leb, Bool, true, false, ◌&&◌, ◌||◌, if◌then◌else◌, List, [], ◌∷◌, ◌++◌, length,
  Option, none, some, Result, ok, err,
}
use legio.Binary.Base64.{Decoded, done, invalid_character, unfinished, overflow, from_base64_impl}
use legio.Crypto.{CryptoPp, ecdsa_public}
use legio.Routing.{Routing}
use legio.RoutingTable.{count}
use legio.Server.{Services, Server, generate_url}

-- `std::mismatch(prefix.begin(), prefix.end(), str.begin()).first == prefix.end()`, for a string at
-- least as long as the prefix
unfoldable pub matches : List ℕ → List ℕ → Bool
matches str [] = true
matches [] (p ∷ prefix) = false
matches (c ∷ str) (p ∷ prefix) = let rest = matches str prefix in if c == p then rest else false

-- `bool match_prefix(string_view str, string_view prefix)`
unfoldable pub match_prefix : List ℕ → List ℕ → Bool
unfolding matches
match_prefix str prefix = leb (length prefix) (length str) && matches str prefix

-- `void attach(Component *component)`
unfoldable pub attach : ℕ → List ℕ → List ℕ
attach component components = components ++ component ∷ []

-- `void detach(Component *component)`
unfoldable pub detach : ℕ → List ℕ → List ℕ
detach component [] = []
detach component (other ∷ components) =
    let rest = detach component components in
    if other == component then components else other ∷ rest

-- `void notify(const events::variant &event)`, where `handle` is a component's own `notify`, over the
-- state of all of them.
unfoldable pub notify_all :
    {World Event : Type 0} → (ℕ → Event → World → World) → List ℕ → Event → World → World
notify_all handle [] event w = w
notify_all handle (component ∷ components) event w =
    notify_all handle components event (handle component event w)

-- `void update()`, where `refresh` is a component's own `update` and `run` is `scheduler->run()`
unfoldable pub update_all :
    {World : Type 0} → (ℕ → World → World) → (World → World) → List ℕ → World → World
update_all refresh run [] w = run w
update_all refresh run (component ∷ components) w =
    update_all refresh run components (refresh component w)

-- `string url() const`; `none` is the call through the null pointer of a node without a port.
unfoldable pub node_url : Services → Option Server → Option (Result (List ℕ))
node_url lib none = none
node_url lib (some server) = some (generate_url lib server)

-- `bool isConnected() const`; `none` is the use of a null table.
unfoldable pub node_is_connected :
    {Identifier : Type 0} → Discrete Identifier → Routing Identifier → Option Bool
node_is_connected same r = elim r.table [
  | none ↦ none
  | some table ↦ some (ltb 0 (count same table))
]

-- `"ws:"` and `"wss:"`
abbrev pub ws_prefix : List ℕ
ws_prefix = b'w' ∷ b's' ∷ b':' ∷ []

abbrev pub wss_prefix : List ℕ
wss_prefix = b'w' ∷ b's' ∷ b's' ∷ b':' ∷ []

-- What `connect` does with its argument: `networking->connectWebSocket`, `networking->connectPeer`, or
-- a throw. `stuck` and `undefined` are no results of the code: the given rounds did not end the
-- decoder's loop, or its index overflowed.
pub data Target (Identifier : Type 0) : Type 0 where
  web_socket : List ℕ → Target Identifier
  peer : Identifier → Target Identifier
  no_identifier : Target Identifier
  stuck : Target Identifier
  undefined : Target Identifier

module _ (c : CryptoPp) where
  open c use {Point}

  -- `Identifier(const binary &bin)` of what the decoder returned
  unfoldable pub peer_of : Decoded (List ℕ) → Target Point
  peer_of unfinished = stuck
  peer_of overflow = undefined
  peer_of invalid_character = no_identifier
  peer_of (done bin) = elim (ecdsa_public c bin) [ err e ↦ no_identifier | ok id ↦ peer id ]

  -- `void connect(string url)`
  unfoldable pub connect_to : ℕ → List ℕ → Target Point
  unfolding match_prefix peer_of
  connect_to rounds url =
      let decoded = from_base64_impl rounds url in
      if match_prefix url ws_prefix || match_prefix url wss_prefix
      then web_socket url
      else peer_of decoded

-- `void receive(Identifier id, binary payload)`, where the callback, if one is set, acts on a state
-- `W` of the program
unfoldable pub receive_user :
    {Identifier W : Type 0} → Option (Identifier → List ℕ → W → W) → Identifier → List ℕ → W → W
receive_user none id payload w = w
receive_user (some message_callback) id payload w = message_callback id payload w
