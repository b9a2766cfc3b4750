-- ===== src/Node/Receive.antt =====
-- What bytes that arrive on a channel do to the graph: the callback that `Routing::addChannel` of
-- src/impl/routing.cpp gives the channel, `Routing::route`, and the graph's share of the event that
-- the node hands its components.
use legio.Prelude.{ℕ, List, [], ◌∷◌, ◌++◌, some, Result, ok, err, Bool}
use legio.ByteOrder.{Endian}
use legio.Crypto.{CryptoPp}
use legio.Message.{Message, parse, to_binary}
use legio.Routing.{Channel, Channels, Event, message, neighbor, Effects, route}
use legio.Graph.World.{World, Outcome, returned, thrown, undefined, unfinished, Call, and_then}
use legio.Graph.Updates.{local_id, neighbors_changed, hear}

module _ (c : CryptoPp) (e : Endian) (pair : c.PrivateKey) (net : Channels) (entropy : ℕ → ℕ)
    (address_lt : c.Point → c.Point → Bool) where
  open c use {Point, same_point}

  -- `Graph::notify`
  unfoldable pub notify_graph : ℕ → Event Point → Call c (Unit {0})
  notify_graph rounds (message m from) w = hear c e pair net entropy address_lt rounds m from w
  notify_graph rounds (neighbor id channel) w =
      neighbors_changed c e pair net entropy address_lt rounds w

  unfoldable pub notify_each : ℕ → List (Event Point) → Call c (Unit {0})
  unfolding notify_graph
  notify_each rounds [] w = (w, returned tt)
  notify_each rounds (event ∷ events) w =
      and_then (λ done. notify_each rounds events) (notify_graph rounds event w)

  -- The `catch`, which logs what was thrown.
  abbrev pub caught : World c × Outcome (Unit {0}) → World c × Outcome (Unit {0})
  caught (w, returned done) = (w, returned tt)
  caught (w, thrown x) = (w, returned tt)
  caught (w, undefined) = (w, undefined)
  caught (w, unfinished) = (w, unfinished)

  -- What follows `route`.
  abbrev pub take_effects : ℕ → Result (Effects Point) → Call c (Unit {0})
  take_effects rounds (err x) w = (w, thrown x)
  take_effects rounds (ok effects) w =
      notify_each rounds effects.events (record w { sent = w.sent ++ effects.sent })

  -- The rest of the `try`, for the message that was parsed.
  abbrev pub take_message : ℕ → Channel → Result (Message Point) → Call c (Unit {0})
  take_message rounds channel (err x) w = (w, thrown x)
  take_message rounds channel (ok m) w =
      take_effects rounds
        (route same_point (to_binary c e) net (local_id c e pair net entropy address_lt) w.routing m
          (some channel))
        w

  -- The callback of `channel->onMessage`
  unfoldable pub receive_bytes : ℕ → List ℕ → Channel → Call c (Unit {0})
  unfolding notify_each
  receive_bytes rounds bytes channel w = caught (take_message rounds channel (parse c e bytes) w)
