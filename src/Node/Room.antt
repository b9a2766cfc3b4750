-- ===== src/Node/Room.antt =====
-- A graph that is ready stays so when bytes are written or a neighbour is added.
use legio.Prelude.{
  ℕ, suc, ◌+◌, ◌*◌, ◌^◌, ◌<◌, ◌≤◌, Bool, List, [], ◌∷◌, length, Option, emplace, arith,
}
use legio.Crypto.{CryptoPp, CryptoLaws}
use legio.ByteOrder.{Endian}
use legio.State.{State}
use legio.State.Codec.{IsStrictOrder}
use legio.Routing.{Channel, Channels, Routing, add_neighbor}
use legio.Graph.World.{World}
use legio.Graph.Updates.Total.{own, held, IsReady}

module _ (c : CryptoPp) (laws : CryptoLaws c) (order : IsStrictOrder c.point_lt) (e : Endian)
    (pair : c.PrivateKey) (net : Channels) (entropy : ℕ → ℕ)
    (address_lt : c.Point → c.Point → Bool) where
  open c use {Point, same_point}

  abbrev me : Point
  me = own c laws order e pair net entropy address_lt

  abbrev known : World c → Point → Option (State Point)
  known w j = held c laws order e pair net entropy address_lt w j

  abbrev Ready : World c → Type 0
  Ready w = IsReady c laws order e pair net entropy address_lt w

  -- Writing to channels changes nothing that is held.
  pub sent-Ready :
      (w : World c) (out : List (Channel × List ℕ)) → Ready w → Ready (record w { sent = out })
  sent-Ready w out r = record {
    map = r.map;
    mine = r.mine;
    is_held = r.is_held;
    own_key = r.own_key;
    ahead = r.ahead;
    word = r.word;
    few = r.few;
  }

  length-emplace :
      (id : Point) (channel : Channel) (m : List (Point × Channel))
      → length (emplace same_point id channel m) ≤ suc (length m)
  unfolding emplace
  length-emplace id channel [] = omega arith
  length-emplace id channel ((j, ch) ∷ m) = ground (arith, length-emplace id channel m)

  pub length-add_neighbor :
      (r : Routing Point) (id : Point) (channel : Channel)
      → length (add_neighbor same_point r id channel).0.neighbors ≤ suc (length r.neighbors)
  unfolding add_neighbor
  length-add_neighbor r id channel = ground (arith, length-emplace id channel r.neighbors)

  -- There is room for one more neighbour in the next announcement.
  abbrev pub HasRoom : World c → Type 0
  HasRoom w = 33 * length w.routing.neighbors + 98 < 2 ^ 16

  abbrev pub linked : Point → Channel → World c → World c
  linked source channel w = record w {
    routing = (add_neighbor same_point w.routing source channel).0;
  }

  pub linked-Ready :
      (source : Point) (channel : Channel) (w : World c)
      → Ready w
      → HasRoom w
      → Ready (linked source channel w)
  linked-Ready source channel w r room = record {
    map = r.map;
    mine = r.mine;
    is_held = r.is_held;
    own_key = r.own_key;
    ahead = r.ahead;
    word = r.word;
    few = omega (arith, length-add_neighbor w.routing source channel, room);
  }
