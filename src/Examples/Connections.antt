-- ===== src/Examples/Connections.antt =====
-- Concrete runs of the theorems on peerings, networking, the server, the node and the scheduler.
use legio.Prelude.{
  ℕ, zero, suc, ◌+◌, ◌≡◌, ◌≢◌, ◌⊎◌, refl, Bool, true, false, ◌&&◌, ltb, List, [], ◌∷◌, ◌++◌, length,
  All, Option, none, some, contains, ℕ_discrete, if◌then◌else◌, arith, ok, replicate,
}
use legio.Binary.Base64.{to_base64url}
use legio.ByteOrder.Laws.{IsByte}
use legio.Crypto.{public_key}
use legio.Crypto.Sample.{toy, toy-CryptoLaws}
use legio.RoutingTable.{RoutingTable, nodes}
use legio.Routing.{Channel, Event, init}
use legio.Peering.{WebRtc, Link, set_data_channel, opened, closed, receive}
use legio.Peering.Signaling.{IsDescribed, payload_of, with_remote, receive-offers}
use legio.Peering.Replaced.{closed-replaced}
use legio.Networking.{Networking, connect_peer, update}
use legio.Networking.Tidy.{some_unknown, length-update}
use legio.Networking.Links.{IsTidy}
use legio.Networking.Steps.{starts, goes_on, connects, new_networking, Reached-IsTidy}
use legio.Server.{Services, Server, Configuration, generate_url, construct}
use legio.Server.Listening.{construct-generate_url}
use legio.Node.{peer, connect_to}
use legio.Node.Connect.{connect_to-to_base64url}
use legio.Scheduler.{Scheduler, TaskIdentifier, before}
use legio.Scheduler.Order.{IsScheduled}
use legio.Scheduler.Run.{run}
use legio.Scheduler.Progress.{run-ends, run-order, NotDue, WereDue, functions}

-- A description is its text, and its type is always an offer.
abbrev pub offers_only : WebRtc
offers_only = record {
  Description = List ℕ;
  describe = λ sdp type. ok sdp;
  is_offer = λ d. true;
  type_string = λ d. b'o' ∷ [];
  sdp = λ d. d;
}

abbrev link_to : ℕ → Link ℕ (List ℕ)
link_to id = record {
  peering = record { remote_id = id; data_channel = none };
  routing = init;
  calls = [];
}

text_IsDescribed : (n : ℕ) → (n ≢ 0) → IsDescribed offers_only (n ∷ [])
text_IsDescribed n h = record {
  type_text = (λ e. omega (arith, e), tt);
  sdp_text = (h, tt);
  round_trip = refl;
}

abbrev greater : ℕ → ℕ → Bool
greater a b = ltb b a

receive-offers_example :
    let at_a =
      receive offers_only greater 5 true (payload_of offers_only (9 ∷ []) ++ []) (link_to 3) in
    let at_b =
      receive offers_only greater 3 true (payload_of offers_only (8 ∷ []) ++ []) (link_to 5) in
    ((greater 5 3 ≡ true)
      × (at_a ≡ (link_to 3, ok tt))
      × (at_b ≡ (with_remote offers_only (8 ∷ []) (link_to 5), ok tt)))
    ⊎ ((greater 3 5 ≡ true)
        × (at_a ≡ (with_remote offers_only (9 ∷ []) (link_to 3), ok tt))
        × (at_b ≡ (link_to 5, ok tt)))
receive-offers_example =
    receive-offers offers_only greater 5 3 (8 ∷ []) (9 ∷ []) (link_to 3) (link_to 5) [] [] refl refl
      refl (text_IsDescribed 8 (λ e. omega (arith, e))) (text_IsDescribed 9 (λ e. omega (arith, e)))
      refl refl

-- A link after its data channels 20 and then 30 opened.
abbrev after_open : Channel → Link ℕ (List ℕ) → Link ℕ (List ℕ)
after_open channel l = kept (opened ℕ_discrete (set_data_channel channel l))
  where
    kept : Option (Link ℕ (List ℕ) × Option (Event ℕ)) → Link ℕ (List ℕ)
    kept none = l
    kept (some (l', event)) = l'

abbrev after_event : Channel → Link ℕ (List ℕ) → Option (Event ℕ)
after_event channel l = kept (opened ℕ_discrete (set_data_channel channel l))
  where
    kept : Option (Link ℕ (List ℕ) × Option (Event ℕ)) → Option (Event ℕ)
    kept none = none
    kept (some (l', event)) = event

abbrev first_link : Link ℕ (List ℕ)
first_link = after_open 20 (link_to 3)

abbrev second_link : Link ℕ (List ℕ)
second_link = after_open 30 first_link

closed-replaced_example :
    (contains ℕ_discrete 20 (closed second_link).routing.channels ≡ true)
    × (contains ℕ_discrete 30 (closed second_link).routing.channels ≡ false)
unfolding opened set_data_channel
closed-replaced_example =
    closed-replaced ℕ_discrete (link_to 3) first_link second_link 20 30 (after_event 20 (link_to 3))
      (after_event 30 first_link) (λ e. omega (arith, e)) refl refl

abbrev next_channel : ℕ → Channel
next_channel n = 100 + n

abbrev two_nodes : RoutingTable ℕ
two_nodes = record { next_hops = (2, 2) ∷ (4, 2) ∷ [] }

abbrev calm : Networking ℕ (List ℕ)
calm = record new_networking { routing = record init { table = some two_nodes } }

abbrev no_shuffle : List ℕ → List ℕ
no_shuffle ids = ids

length-update_example :
    (n' : Networking ℕ (List ℕ)) × (update ℕ_discrete next_channel no_shuffle calm ≡ some n')
    × (length n'.peerings
        ≡ 0 + (if true && some_unknown ℕ_discrete (nodes ℕ_discrete two_nodes) [] then 1 else 0))
length-update_example = length-update ℕ_discrete next_channel no_shuffle calm two_nodes refl

-- After a socket was opened and node 7 was connected to.
abbrev connected : Networking ℕ (List ℕ)
connected = connect_peer ℕ_discrete next_channel 7 new_networking

Reached-IsTidy_example : IsTidy ℕ_discrete connected
Reached-IsTidy_example =
    Reached-IsTidy offers_only ℕ_discrete greater 5 next_channel (goes_on starts (connects 7))

-- A machine whose libraries do what they are asked.
abbrev pub willing : Services
willing = record {
  init = λ domain. true;
  dummytls_host = λ host. none;
  dummytls_certificate = λ pem. (some 1, b'p' ∷ []);
  create_mapping = λ internal external. some 3;
  local_address = none;
  listen = λ port pair. ok port;
}

abbrev pub default_configuration : Configuration
default_configuration = record {
  port = some 8080;
  external_host = none;
  external_port = none;
  tls_pem_certificate = none;
  tls_pem_key = none;
  dummy_tls_service = none;
}

abbrev running : Server
running = record {
  mapping_id = some 3;
  web_socket_server = some 8080;
  tls_enabled = false;
  external_host = none;
  external_port = none;
}

construct-generate_url_example : (url : List ℕ) × (generate_url willing running ≡ ok url)
unfolding construct
construct-generate_url_example = construct-generate_url willing default_configuration running refl

zeros-IsByte : (n : ℕ) → All IsByte (replicate n 0)
zeros-IsByte zero = tt
zeros-IsByte (suc n) = (omega arith, zeros-IsByte n)

connect_to-to_base64url_example :
    (text : List ℕ) × (to_base64url (public_key toy 7) false ≡ some text)
    × (connect_to toy 38 text ≡ peer 7)
unfolding public_key
connect_to-to_base64url_example =
    connect_to-to_base64url toy toy-CryptoLaws 38 7 false refl (omega arith, zeros-IsByte 32)
      (omega arith)

-- Two tasks are due at the times 10 and 20, and the clock reads 15.
abbrev waiting : Scheduler ℕ
waiting = record { tasks = ((10, 0), 6) ∷ ((20, 1), 7) ∷ []; next_task_number = 2 }

abbrev no_effect : ℕ → Scheduler ℕ → Scheduler ℕ
no_effect func s = s

abbrev at_15 : ℕ → ℕ
at_15 k = 15

waiting-IsScheduled : IsScheduled waiting
unfolding before
waiting-IsScheduled = record {
  ordered = ((refl, tt), (tt, tt));
  numbered = (omega arith, (omega arith, tt));
}

run-ends_example :
    (final : Scheduler ℕ) × (funcs : List ℕ) × (run no_effect at_15 3 0 waiting
      ≡ some (final, funcs))
    × NotDue 15 final.tasks
run-ends_example =
    run-ends no_effect at_15 3 0 waiting (λ func t. omega arith) (λ func t v. v) waiting-IsScheduled
      (omega arith)

run-order_example :
    (ran : List (TaskIdentifier × ℕ)) × (left : List (TaskIdentifier × ℕ)) × (waiting.tasks
      ≡ ran ++ left)
    × (run no_effect at_15 3 0 waiting ≡ some (record waiting { tasks = left }, functions ran))
    × WereDue at_15 0 ran
    × NotDue 15 left
run-order_example =
    run-order no_effect at_15 3 0 waiting (λ func t. refl) waiting-IsScheduled (omega arith)
