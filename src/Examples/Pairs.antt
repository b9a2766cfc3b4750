-- ===== src/Examples/Pairs.antt =====
-- Concrete runs of the theorems on two nodes: node 1 sends to node 2.
use legio.Prelude.{ℕ, ◌≡◌, refl, List, [], ◌∷◌, length, find, arith, ℕ_discrete}
use legio.ByteOrder.{little}
use legio.Binary.Strings.{pack_strings}
use legio.Crypto.{ecdh_public_key}
use legio.Crypto.Sample.{toy, toy-CryptoLaws}
use legio.RoutingTable.{find_next_hop}
use legio.Routing.{find_route}
use legio.Transport.{count_up}
use legio.Graph.Edges.{get_state}
use legio.Graph.World.{returned}
use legio.Node.{receive_user}
use legio.Node.Dispatch.{receive_data, send_user, wrote}
use legio.Node.Signals.{send_description}
use legio.Node.Sealed.{IsLinked}
use legio.Node.Taken.{Described}
use legio.Node.Delivery.{CanSend, send_user-receive_data}
use legio.Node.Signaled.{CanSignal, CanDescribe, send_description-receive_data}
use legio.Examples.Updates.{all_open, news}
use legio.Examples.Nodes.{platform, Inbox, Node, one, two, one-IsWired, two-IsWired, vector}

one-IsLinked : IsLinked toy toy-CryptoLaws little little all_open 1 2 20 one.world two.world
unfolding get_state find find_next_hop ecdh_public_key find_route ℕ_discrete
one-IsLinked = record {
  others = λ e. omega (arith, e);
  state = news;
  known = refl;
  key = refl;
  route = refl;
  accepts = λ bin. refl;
}

one_sends : CanSend toy toy-CryptoLaws platform Inbox 1 platform Inbox 2 20 one two
unfolding find
one_sends = record {
  sender_wired = one-IsWired;
  receiver_wired = two-IsWired;
  linked = one-IsLinked;
  number = omega arith;
  fresh = refl;
}

one_signals : CanSignal toy toy-CryptoLaws platform Inbox 1 platform Inbox 2 20 one two
unfolding find
one_signals = record {
  sender_wired = one-IsWired;
  receiver_wired = two-IsWired;
  linked = one-IsLinked;
  number = omega arith;
  fresh = refl;
  named = tt;
}

text_CanDescribe :
    CanDescribe toy toy-CryptoLaws platform Inbox 1 platform Inbox 2 (9 ∷ []) (9 ∷ [])
unfolding pack_strings
text_CanDescribe = record {
  type_text = (λ e. omega (arith, e), tt);
  sdp_text = (λ e. omega (arith, e), tt);
  understood = refl;
  fits = omega arith;
}

send_description-receive_data_example :
    (bytes : List ℕ) × (send_description toy platform Inbox 1 1 vector 0 2 (9 ∷ []) one ≡ (
      wrote toy platform Inbox 1
          ((20, bytes) ∷ [])
          (record one { signaling = count_up one.signaling }),
      returned tt,
    ))
    × Described toy platform Inbox 2 1
        (9 ∷ [])
        two
        (receive_data toy platform Inbox 2 1 bytes 40 two).0
send_description-receive_data_example =
    send_description-receive_data toy toy-CryptoLaws platform Inbox 1 platform Inbox 2 1 1 0 vector
      20 40 one two (9 ∷ []) (9 ∷ []) one_signals text_CanDescribe refl

send_user-receive_data_example :
    (bytes : List ℕ) × (surplus : List ℕ) × (send_user toy platform Inbox 1 1 vector 0 2
        (8 ∷ [])
        one
      ≡ (
        wrote toy platform Inbox 1 ((20, bytes) ∷ []) (record one { user = count_up one.user }),
        returned tt,
      ))
    × (length surplus ≡ 32)
    × ((receive_data toy platform Inbox 2 1 bytes 40 two).0.program
        ≡ receive_user two.message_callback 1 (8 ∷ surplus) two.program)
send_user-receive_data_example =
    send_user-receive_data toy toy-CryptoLaws platform Inbox 1 platform Inbox 2 1 1 0 vector
      (8 ∷ []) 20 40 one two one_sends refl (omega arith)
