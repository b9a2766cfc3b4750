-- ===== src/Examples/Updates.antt =====
-- Concrete runs of the theorems on the graph's updates: node 1 has node 2 as a neighbour on channel 20.
use legio.Prelude.{
  ℕ, ◌≡◌, refl, Bool, true, List, [], ◌∷◌, some, find, arith, ltb, replicate, ℕ_discrete, contains,
  ◌⊎◌, none, ok, ◌≢◌, length, ◌≤◌, ap, ◌∙◌, Option,
}
use legio.ByteOrder.{little, big_endian}
use legio.Crypto.{ecdh_public_key, verify}
use legio.Crypto.Sample.{toy, toy-CryptoLaws}
use legio.Message.Sequence.{compare_sequence}
use legio.State.{State, set_insert}
use legio.State.Codec.{IsStrictOrder}
use legio.Routing.{Channels, Routing, find_route}
use legio.RoutingTable.{empty_table}
use legio.Graph.{new_vertice}
use legio.Binary.Stream.{max_size}
use legio.Message.{check_signature, parse, Message}
use legio.Message.Codec.{
  signed_bytes, wire_header, wire_rest, IsAuthentic, IsEncodable, wire, parse-wire,
}
use legio.Graph.World.{World, returned}
use legio.Graph.Updates.{sorted_neighbors, insert_state, change_edges}
use legio.Graph.Updates.Total.{IsReady, held}
use legio.Graph.Updates.History.{newest_of, insert_each, insert_each-newest}
use legio.Graph.Updates.Insert.{IsInserted, insert_state-IsInserted}
use legio.Graph.Updates.Reach.{IsTotal, change_edges-find_route}

pub ltb-IsStrictOrder : IsStrictOrder ltb
ltb-IsStrictOrder = record {
  irreflexive = λ a. ground arith;
  transitive = λ a b d h k. ground (arith, h, k);
}

abbrev pub all_open : Channels
all_open = record { is_open = λ c. true; accepts = λ c bin. true }

abbrev pub no_entropy : ℕ → ℕ
no_entropy n = 0

abbrev key_of : ℕ → List ℕ
key_of n = n ∷ replicate 64 0

abbrev own_state : State ℕ
own_state = record { ecdsa_key = 1; sequence = 4; ecdh_public = key_of 8; neighbors = [] }

abbrev pub linked : Routing ℕ
linked = record {
  table = some empty_table;
  channels = 20 ∷ [];
  neighbors = (2, 20) ∷ [];
  receiving = 20 ∷ [];
}

abbrev pub home : World toy
home = record {
  vertices = (1, record new_vertice { state = some own_state }) ∷ [];
  routing_table = empty_table;
  ecdh = 8;
  hello_sequence = 0;
  state_sequence = 5;
  routing = linked;
  sent = [];
  drawn = 0;
}

abbrev pub Ready : World toy → Type 0
Ready w = IsReady toy toy-CryptoLaws ltb-IsStrictOrder little 1 all_open no_entropy ltb w

pub home-Ready : Ready home
unfolding find ecdh_public_key compare_sequence sorted_neighbors ℕ_discrete set_insert
home-Ready = record {
  map = (refl, tt);
  mine = own_state;
  is_held = refl;
  own_key = refl;
  ahead = refl;
  word = omega arith;
  few = omega arith;
}

abbrev pub news : State ℕ
news = record { ecdsa_key = 2; sequence = 9; ecdh_public = key_of 6; neighbors = 1 ∷ 3 ∷ [] }

insert_state-IsInserted_example :
    (w' : World toy) × (fresh : Bool) × (insert_state toy little 1 all_open no_entropy ltb 1 news
        home
      ≡ (w', returned fresh))
    × IsInserted toy toy-CryptoLaws ltb-IsStrictOrder little 1 all_open no_entropy ltb news home w'
        fresh
insert_state-IsInserted_example =
    insert_state-IsInserted toy toy-CryptoLaws ltb-IsStrictOrder little 1 all_open no_entropy ltb 0
      news home (λ e. omega (arith, e)) home-Ready

ltb-IsTotal : IsTotal toy little 1 all_open no_entropy ltb
ltb-IsTotal a b = ground arith

change_edges-find_route_example :
    (w' : World toy) × (change_edges toy little 1 all_open no_entropy ltb 1 (2 ∷ []) home
      ≡ (w', returned true))
    × (find_route ℕ_discrete w'.routing 2 ≡ some 20)
unfolding find contains sorted_neighbors ℕ_discrete set_insert
change_edges-find_route_example =
    change_edges-find_route toy little 1 all_open no_entropy ltb ltb-IsTotal home
      (record new_vertice { state = some own_state }) 2 20 refl (refl, tt) refl refl
      (λ e. omega (arith, e))

abbrev old_news : State ℕ
old_news = record { ecdsa_key = 2; sequence = 3; ecdh_public = key_of 6; neighbors = [] }

insert_each-newest_example :
    (w' : World toy) × (insert_each toy toy-CryptoLaws ltb-IsStrictOrder little 1 all_open
        no_entropy ltb 1
        (news ∷ old_news ∷ [])
        home
      ≡ (w', returned tt))
    × Ready w'
    × ((j : ℕ)
        → (j ≡ 1)
          ⊎ (held toy toy-CryptoLaws ltb-IsStrictOrder little 1 all_open no_entropy ltb w' j
              ≡ newest_of ℕ_discrete j (news ∷ old_news ∷ []) (
                  held toy toy-CryptoLaws ltb-IsStrictOrder little 1 all_open no_entropy ltb home
                    j)))
insert_each-newest_example =
    insert_each-newest toy toy-CryptoLaws ltb-IsStrictOrder little 1 all_open no_entropy ltb 0
      (news ∷ old_news ∷ []) home ((λ e. omega (arith, e)), ((λ e. omega (arith, e)), tt))
      home-Ready

-- Node 7 says hello on the channel 30.
abbrev pub hello : Message ℕ
hello = record {
  type = 1;
  sequence = 5;
  source = some 7;
  destination = none;
  body = [];
  signature = 7 ∷ [];
}

hello-IsEncodable : IsEncodable toy hello
hello-IsEncodable = record {
  type_byte = omega arith;
  sequence_word = omega arith;
  body_size = omega arith;
  source_valid = refl;
  destination_valid = tt;
}

hello-IsAuthentic : IsAuthentic toy toy-CryptoLaws hello
unfolding check_signature signed_bytes verify
hello-IsAuthentic = refl

hello_size : length (wire toy hello) ≤ max_size
unfolding wire wire_header wire_rest big_endian
hello_size = omega arith

hello_parsed : parse toy little (wire toy hello) ≡ ok hello
hello_parsed =
    parse-wire toy toy-CryptoLaws little hello hello-IsEncodable hello-IsAuthentic hello_size

pub hello_foreign : (m : Message ℕ) → parse toy little (wire toy hello) ≡ ok m → m.source ≢ some 1
hello_foreign m h k =
    let q : hello ≡ m = cc (hello_parsed, h) in
    let s : ◌≡◌ {A = Option ℕ} (some 7) (some 1) = ap (λ (x : Message ℕ). x.source) q ∙ k in
    let d : ◌≡◌ {A = ℕ} 7 1 = cc s in omega (arith, d)
