-- ===== src/Peering.antt =====
-- src/impl/peering.hpp and peering.cpp: the direct connection to one remote node, over a data channel
-- of the WebRTC library. The callbacks that the library is given are the functions `opened`, `closed`,
-- `offered`, `described` and `gathered`.
pub mod Signaling
pub mod Replaced
use legio.Prelude.{
  ℕ, Bool, false, ◌&&◌, if◌then◌else◌, List, [], ◌∷◌, ◌++◌, get_or, Option, none, some, bytes_eq,
  Result, ok, err,
}
use legio.Binary.Strings.{pack_strings, unpack_strings}
use legio.Routing.{Channel, Channels, Event, Routing, add_channel, remove_channel, add_neighbor}

-- What is used of `rtc::Description`: the constructor from a description and its type, which can
-- throw, the test for an offer, and the conversions back.
pub record WebRtc : Type 1 where
  pub Description : Type 0
  pub describe : List ℕ → List ℕ → Result Description
  pub is_offer : Description → Bool
  pub type_string : Description → List ℕ
  pub sdp : Description → List ℕ

-- The class's members other than the shared `Routing`; the peer connection is the one to `remote_id`.
pub record Peering (Identifier : Type 0) : Type 0 where
  pub remote_id : Identifier
  pub data_channel : Option Channel

-- Calls of the library and of the transport.
pub data Call (Identifier Description : Type 0) : Type 0 where
  closes : Channel → Call Identifier Description
  creates_channel : Identifier → List ℕ → Channel → Call Identifier Description
  sets_remote : Identifier → Description → Call Identifier Description
  signals : Identifier → List ℕ → Call Identifier Description

-- A peering, the routing that it shares, and the calls that were made.
pub record Link (Identifier Description : Type 0) : Type 0 where
  pub peering : Peering Identifier
  pub routing : Routing Identifier
  pub calls : List (Call Identifier Description)

-- `const string DataChannelName = "legio"`
abbrev pub data_channel_name : List ℕ
data_channel_name = b'l' ∷ b'e' ∷ b'g' ∷ b'i' ∷ b'o' ∷ []

module _ {Identifier : Type 0} where
  -- `bool isConnected() const`
  unfoldable pub is_connected : Channels → Peering Identifier → Bool
  is_connected net p = elim p.data_channel [ none ↦ false | some channel ↦ net.is_open channel ]

  -- `Peering(…)` with `createPeerConnection()`
  unfoldable pub create_peering_at : Identifier → Peering Identifier
  create_peering_at remote_id = record { remote_id = remote_id; data_channel = none }

module _ {Identifier Description : Type 0} where
  -- `void disconnect()`
  unfoldable pub disconnect : Link Identifier Description → Link Identifier Description
  disconnect l = elim l.peering.data_channel [
    | none ↦ l
    | some channel ↦ record {
      peering = record l.peering { data_channel = none };
      routing = remove_channel l.routing channel;
      calls = l.calls ++ closes channel ∷ [];
    }
  ]

  -- `void setDataChannel(shared_ptr<rtc::DataChannel> dataChannel)`
  unfoldable pub set_data_channel :
      Channel → Link Identifier Description → Link Identifier Description
  set_data_channel channel l = record l {
    peering = record l.peering { data_channel = some channel };
  }

  -- `void connect()`, where the library creates the channel `fresh`
  unfoldable pub connect : Channel → Link Identifier Description → Link Identifier Description
  unfolding disconnect set_data_channel
  connect fresh l =
      let l' = disconnect l in
      set_data_channel fresh (record l' {
        calls = l'.calls ++ creates_channel l.peering.remote_id data_channel_name fresh ∷ [];
      })

  -- The callback of `onDataChannel`
  unfoldable pub offered :
      Channel → List ℕ → Link Identifier Description → Link Identifier Description
  unfolding set_data_channel
  offered channel label l =
      if bytes_eq label data_channel_name then set_data_channel channel l else l

  -- The callback of `onClosed`, whichever data channel was closed; removing a null pointer removes
  -- nothing.
  unfoldable pub closed : Link Identifier Description → Link Identifier Description
  closed l = elim l.peering.data_channel [
    | none ↦ l
    | some channel ↦ record l { routing = remove_channel l.routing channel }
  ]

  -- The callback of `onOpen`, whichever data channel was opened, with the event of `addNeighbor`;
  -- `none` is the call through a null pointer.
  unfoldable pub opened :
      Discrete Identifier
      → Link Identifier Description
      → Option (Link Identifier Description × Option (Event Identifier))
  opened same l = elim l.peering.data_channel [
    | none ↦ none
    | some channel ↦
        let (r, event) =
          add_neighbor same (add_channel l.routing channel) l.peering.remote_id channel in
        some (record l { routing = r }, event)
  ]

module _ (rtc : WebRtc) {Identifier : Type 0} where
  open rtc use {Description, describe, is_offer, type_string, sdp}

  -- `void sendLocalDescription(rtc::Description description)`
  unfoldable pub send_local_description :
      Description → Link Identifier Description → Link Identifier Description
  send_local_description d l = record l {
    calls = l.calls ++ signals l.peering.remote_id (pack_strings (type_string d ∷ sdp d ∷ [])) ∷ [];
  }

  -- The callbacks of `onLocalDescription` and of `onGatheringStateChange`, where `complete` says
  -- whether the state is `GatheringState::Complete`
  unfoldable pub described :
      Bool → Description → Link Identifier Description → Link Identifier Description
  unfolding send_local_description
  described complete d l = if complete then send_local_description d l else l

  unfoldable pub gathered :
      Bool → Option Description → Link Identifier Description → Link Identifier Description
  unfolding send_local_description
  gathered complete none l = l
  gathered complete (some d) l = if complete then send_local_description d l else l

  -- Whether `receive` ignores an offer; `greater` is `operator>` of the identifiers.
  unfoldable pub ignores :
      (Identifier → Identifier → Bool) → Identifier → Bool → Identifier → Description → Bool
  ignores greater local_id have_local_offer remote_id d =
      is_offer d && have_local_offer && greater local_id remote_id

  -- `receive` from the construction of the description on.
  abbrev pub take_description :
      (Identifier → Identifier → Bool)
      → Identifier
      → Bool
      → Link Identifier Description
      → Result Description
      → Link Identifier Description × Result (Unit {0})
  take_description greater local_id have_local_offer l (err e) = (l, err e)
  take_description greater local_id have_local_offer l (ok d) =
      if ignores greater local_id have_local_offer l.peering.remote_id d
      then (l, ok tt)
      else (record l { calls = l.calls ++ sets_remote l.peering.remote_id d ∷ [] }, ok tt)

  -- `void receive(binary payload)`, where `have_local_offer` says whether the signaling state is
  -- `SignalingState::HaveLocalOffer`
  unfoldable pub receive :
      (Identifier → Identifier → Bool)
      → Identifier
      → Bool
      → List ℕ
      → Link Identifier Description
      → Link Identifier Description × Result (Unit {0})
  unfolding ignores
  receive greater local_id have_local_offer payload l =
      let strs = unpack_strings 2 payload in
      take_description greater local_id have_local_offer l
        (describe (get_or strs 1 []) (get_or strs 0 []))
