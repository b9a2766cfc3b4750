-- ===== src/Examples/Network.antt =====
-- Concrete runs of the theorems on the routing, the graph, the states and the encryption.
use legio.Prelude.{
  ℕ, ◌≡◌, ◌↔◌, refl, true, false, ◌==◌, if◌then◌else◌, List, [], ◌∷◌, Option, none, some, has_value,
  find, contains, ℕ_discrete, Result, ok, arith, ltb, replicate, ◌++◌, length,
}
use legio.ByteOrder.{little}
use legio.Crypto.Sample.{toy, toy-CryptoLaws}
use legio.Crypto.{ecdh_public_key, agree}
use legio.Message.{Message}
use legio.Cipher.{CipherBody, parse_cipher, cipher_binary, encrypt, decrypt}
use legio.Cipher.Laws.{decrypt-encrypt, decrypt_accepts}
use legio.State.{State, to_message, from_message}
use legio.State.Codec.{IsStrictOrder, IsAnnounceable, from_message-to_message}
use legio.RoutingTable.{RoutingTable, find_next_hop}
use legio.Routing.{
  Channel, Channels, Routing, init, find_route, broadcast, route, remove_channel, Effects,
}
use legio.Routing.Neighbors.{
  Call, adds_channel, adds_neighbor, removes_channel, run, IsConsistent, run-IsConsistent,
  remove_channel-forgets, unless_channel,
}
use legio.Routing.Forwarding.{find_route_iff, written_to, copies, written_to-broadcast}
use legio.Graph.{Vertice, Vertices, new_vertice}
use legio.Graph.Paths.{compute_routing_table}
use legio.Graph.Paths.Settled.{direct_hop}
use legio.Graph.Paths.Reached.{compute_routing_table-direct}

-- Node 1 knows node 3 through its neighbour 2.
abbrev chain_table : RoutingTable ℕ
chain_table = record { next_hops = (2, 2) ∷ (3, 2) ∷ [] }

abbrev chain : Routing ℕ
chain = record {
  table = some chain_table;
  channels = 20 ∷ 30 ∷ [];
  neighbors = (2, 20) ∷ [];
  receiving = 20 ∷ 30 ∷ [];
}

abbrev history : List (Call ℕ)
history = adds_channel 20 ∷ adds_neighbor 2 20 ∷ removes_channel 20 ∷ []

run-IsConsistent_example : IsConsistent ℕ_discrete (run ℕ_discrete init history)
run-IsConsistent_example = run-IsConsistent ℕ_discrete history

find_route_iff_example : (find_route ℕ_discrete chain 2 ≡ some 20) ↔ (
    (has_value (find_next_hop ℕ_discrete chain_table 2) ≡ true)
    × (find ℕ_discrete 2 chain.neighbors ≡ some 20))
find_route_iff_example = find_route_iff ℕ_discrete chain chain_table 2 20 refl

abbrev open_channels : Channels
open_channels = record { is_open = λ c. true; accepts = λ c bin. true }

abbrev encode : Message ℕ → Result (List ℕ)
encode m = ok m.body

abbrev hello : Message ℕ
hello = record {
  type = 1;
  sequence = 5;
  source = some 7;
  destination = some 2;
  body = 8 ∷ [];
  signature = [];
}

written_to-broadcast_example :
    written_to 30 (broadcast ℕ_discrete encode open_channels chain hello (some 20)) ≡ (8 ∷ []) ∷ []
unfolding copies ℕ_discrete
written_to-broadcast_example =
    written_to-broadcast ℕ_discrete encode open_channels chain hello (some 20) (8 ∷ []) 30 refl

abbrev route_hello : Option Channel → Result (Effects ℕ)
route_hello from = route ℕ_discrete encode open_channels 1 chain hello from

remove_channel-forgets_example :
    (contains ℕ_discrete 30 (remove_channel (run ℕ_discrete init history) 20).channels
      ≡ (if 20 == 30 then false else contains ℕ_discrete 30 (run ℕ_discrete init history).channels))
    × (find ℕ_discrete 2 (remove_channel (run ℕ_discrete init history) 20).neighbors
        ≡ unless_channel ℕ_discrete (find ℕ_discrete 2 (run ℕ_discrete init history).neighbors) 20)
remove_channel-forgets_example =
    remove_channel-forgets ℕ_discrete (run ℕ_discrete init history) 20 30 2
      (run-IsConsistent ℕ_discrete history)

-- The vertices of that chain, at node 1.
abbrev vertice_to : List ℕ → Vertice ℕ
vertice_to ids = record new_vertice { edges = ids }

abbrev chain_vertices : Vertices ℕ
chain_vertices =
    (1, vertice_to (2 ∷ [])) ∷ (2, vertice_to (1 ∷ 3 ∷ [])) ∷ (3, vertice_to (2 ∷ [])) ∷ []

compute_routing_table-direct_example :
    (found : Vertices ℕ) × (table : RoutingTable ℕ) × (compute_routing_table ℕ_discrete ltb 2 1
        chain_vertices
      ≡ some (ok (found, table)))
    × ((id : ℕ)
        → find_next_hop ℕ_discrete table id ≡ (
            if has_value (find ℕ_discrete id chain_vertices)
            then direct_hop ℕ_discrete ltb 1 (2 ∷ []) id
            else none))
unfolding find ℕ_discrete
compute_routing_table-direct_example =
    compute_routing_table-direct ℕ_discrete ltb 1 2 (vertice_to (2 ∷ [])) chain_vertices refl
      (refl, (refl, (refl, tt))) (omega arith)

decrypt-encrypt_example :
    (b : CipherBody) × (surplus : List ℕ) × (encrypt toy
        (replicate 16 1)
        (8 ∷ 9 ∷ [])
        3
        (ecdh_public_key toy 4)
      ≡ ok b)
    × (parse_cipher (cipher_binary b) ≡ ok b)
    × (decrypt toy b 4 ≡ ok ((8 ∷ 9 ∷ []) ++ surplus))
    × (length surplus ≡ 32)
decrypt-encrypt_example =
    decrypt-encrypt toy toy-CryptoLaws (replicate 16 1) (8 ∷ 9 ∷ []) 3 4 refl (omega arith)

abbrev some_body : CipherBody
some_body = record {
  source = ecdh_public_key toy 3;
  destination = ecdh_public_key toy 4;
  iv = replicate 16 1;
  ciphertext = 8 ∷ [];
}

decrypt_accepts_example : decrypt toy some_body 4 ≡ ok (8 ∷ replicate 16 0)
unfolding agree ecdh_public_key
decrypt_accepts_example = decrypt_accepts toy toy-CryptoLaws some_body 4 (7 ∷ []) refl refl refl

ltb-IsStrictOrder : IsStrictOrder ltb
ltb-IsStrictOrder = record {
  irreflexive = λ a. ground arith;
  transitive = λ a b d h k. ground (arith, h, k);
}

abbrev toy_state : State ℕ
toy_state = record {
  ecdsa_key = 7;
  sequence = 5;
  ecdh_public = 3 ∷ replicate 64 0;
  neighbors = 2 ∷ 9 ∷ [];
}

toy_state-IsAnnounceable : IsAnnounceable toy toy-CryptoLaws ltb-IsStrictOrder toy_state
toy_state-IsAnnounceable = record {
  sequence_word = omega arith;
  key_size = refl;
  valid = (refl, (refl, tt));
  ascending = ((refl, tt), (tt, tt));
  few = omega arith;
}

from_message-to_message_example :
    (m : Message ℕ) × (to_message toy little 0 toy_state 7 ≡ ok m)
    × (from_message toy m ≡ some (ok toy_state))
from_message-to_message_example =
    from_message-to_message toy toy-CryptoLaws ltb-IsStrictOrder little 0 toy_state 7 refl
      toy_state-IsAnnounceable
