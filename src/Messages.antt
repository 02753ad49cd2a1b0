-- ===== src/Messages.antt =====
-- What the server and the players say to each other, and what of it arrives: the packets that
-- server/Server.cpp, server/Client.cpp and client/Client.cpp send, through Packet::Serialize and
-- PacketFactory::ReadPacket (shared/Protocol.cpp).
use legendofstealth.Protocol.RoundTrip.{AllFit}
use legendofstealth.Protocol.Delivery.{read_packet-serialize}
use legendofstealth.Server.Loop.{rejection}
use legendofstealth.Server.State.{player_did_leave, player_did_join}
use legendofstealth.Protocol.Words.{IsWord}
use legendofstealth.Protocol.Packet.{
  field_bytes, serialize_fields, add_field, new_packet, serialize, get_packet_type, Members, Packet,
}
use legendofstealth.Connector.{join_request}
use legendofstealth.Server.Client.{stack_storage, merc, team_code, spy, join_response, Team}
use legendofstealth.Protocol.Factory.{
  new_player_did_leave, factory_map, read_packet, packet_join_request, packet_join_response,
  packet_player_did_join, first_ptr, second_ptr, third_ptr, new_server_shutdown, new_join_request,
  new_join_response, new_player_did_join,
}
use legendofstealth.Prelude.{
  arith, All, done, ◌++◌, ◌==◌, ◌≡◌, none, zero, List, some, if◌then◌else◌, Option, suc, ℕ, refl,
}

pub data Message : Type 0 where
  asks_to_join : ℕ → Message
  admits : ℕ → Team → Message
  refuses : Message
  joined : ℕ → Team → Message
  left : ℕ → Message
  shuts_down : Message

-- The packet that the program sends for it.
unfoldable pub packet_of : Message → Packet
unfolding join_request join_response player_did_join player_did_leave
packet_of (asks_to_join port) = join_request port
packet_of (admits player_id team) = join_response player_id team
packet_of refuses = rejection
packet_of (joined player_id team) = player_did_join player_id team
packet_of (left player_id) = player_did_leave player_id
packet_of shuts_down = new_server_shutdown stack_storage

-- `static_cast<Team>`
abbrev pub team_of : ℕ → Team
team_of zero = spy
team_of (suc n) = merc

-- What a packet says, by its type.
abbrev pub responded : ℕ → ℕ → ℕ → Message
responded zero player_id team = refuses
responded (suc n) player_id team = admits player_id (team_of team)

unfoldable pub understood : Packet → Option Message
understood p =
    if get_packet_type p == packet_join_request
    then some (asks_to_join (p.members first_ptr))
    else if get_packet_type p == packet_join_response
    then some (responded (p.members first_ptr) (p.members second_ptr) (p.members third_ptr))
    else if get_packet_type p == packet_player_did_join
    then some (joined (p.members first_ptr) (team_of (p.members second_ptr)))
    else none

-- Ids and ports are words of 32 bits.
abbrev pub IsSendable : Message → Type 0
IsSendable (asks_to_join port) = IsWord port
IsSendable (admits player_id team) = IsWord player_id
IsSendable refuses = Unit
IsSendable (joined player_id team) = IsWord player_id
IsSendable (left player_id) = IsWord player_id
IsSendable shuts_down = Unit

-- What arrives of it.
abbrev pub arrives : Message → Option Message
arrives (asks_to_join port) = some (asks_to_join port)
arrives (admits player_id team) = some (admits player_id team)
arrives refuses = some refuses
arrives (joined player_id team) = some (joined player_id team)
arrives (left player_id) = none
arrives shuts_down = none

abbrev pub heard : Option Packet → Option Message
heard none = none
heard (some p) = understood p

team_of_code : (t : Team) → team_of (team_code t) ≡ t
team_of_code spy = refl
team_of_code merc = refl

team_code-IsWord : (t : Team) → IsWord (team_code t)
team_code-IsWord spy = omega arith
team_code-IsWord merc = omega arith

-- What arrives of a packet of a class that the factory knows, where it is understood as a message.
module _ (storage : Members) (rest : List ℕ) (n packetlen : ℕ) where
  abbrev Arrives : Packet → Option Message → Type 0
  Arrives p m =
      (o : Option Packet) × (read_packet storage (serialize p ++ rest) n packetlen
        ≡ done (o, packetlen))
      × (heard o ≡ m)

  read_as :
      (p : Packet) (newfunc : Members → Packet) (m : Message)
      → factory_map (get_packet_type p) ≡ some newfunc
      → p.fields ≡ (newfunc storage).fields
      → AllFit p.members (newfunc storage).members p.fields
      → ((r : Packet)
          → get_packet_type r ≡ get_packet_type p
          → All (λ f. r.members f.ptr ≡ p.members f.ptr) p.fields
          → understood r ≡ some m)
      → Arrives p (some m)
  read_as p newfunc m known same fit reads =
      let (r, e, type, values) =
        read_packet-serialize storage p newfunc rest n packetlen known same fit in
      (some r, e, reads r type values)

  request-Arrives :
      (port : ℕ) → IsWord port → Arrives (packet_of (asks_to_join port)) (some (asks_to_join port))
  unfolding packet_of join_request new_join_request new_packet add_field factory_map get_packet_type
      understood
  request-Arrives port fits =
      read_as (packet_of (asks_to_join port)) new_join_request (asks_to_join port) refl refl
        ((omega arith, omega arith), (fits, tt)) (λ r type values. rw (type, values.1.0) refl)

  response-Arrives :
      (player_id : ℕ) (team : Team)
      → IsWord player_id
      → Arrives (packet_of (admits player_id team)) (some (admits player_id team))
  unfolding packet_of join_response new_join_response new_packet add_field factory_map
      get_packet_type understood
  response-Arrives player_id team fits =
      read_as (packet_of (admits player_id team)) new_join_response (admits player_id team) refl
        refl
        (
          (omega arith, omega arith),
          ((omega arith, omega arith), (fits, (team_code-IsWord team, tt))),
        )
        (λ r type values.
          rw (type, values.1.0, values.1.1.0, values.1.1.1.0, team_of_code team) refl)

  refusal-Arrives : Arrives (packet_of refuses) (some refuses)
  unfolding packet_of new_join_response new_packet add_field factory_map get_packet_type understood
  refusal-Arrives =
      read_as (packet_of refuses) new_join_response refuses refl refl
        ((omega arith, omega arith), ((omega arith, omega arith), (omega arith, (omega arith, tt))))
        (λ r type values. rw (type, values.1.0) refl)

  joined-Arrives :
      (player_id : ℕ) (team : Team)
      → IsWord player_id
      → Arrives (packet_of (joined player_id team)) (some (joined player_id team))
  unfolding packet_of player_did_join new_player_did_join new_packet add_field factory_map
      get_packet_type understood
  joined-Arrives player_id team fits =
      read_as (packet_of (joined player_id team)) new_player_did_join (joined player_id team) refl
        refl ((omega arith, omega arith), (fits, (team_code-IsWord team, tt)))
        (λ r type values. rw (type, values.1.0, values.1.1.0, team_of_code team) refl)

  left_is_unknown : (player_id : ℕ) → Arrives (packet_of (left player_id)) none
  unfolding packet_of player_did_leave new_player_did_leave new_packet add_field factory_map
      serialize serialize_fields field_bytes read_packet
  left_is_unknown player_id = (none, refl, refl)

  shutdown_is_unknown : Arrives (packet_of shuts_down) none
  unfolding packet_of new_server_shutdown new_packet add_field factory_map serialize
      serialize_fields field_bytes read_packet
  shutdown_is_unknown = (none, refl, refl)

-- ReadPacket, given what Serialize wrote of a message that the program sends, with an id or a port of
-- 32 bits, and anything behind it: it returns, and what it returns says the same as the message; but
-- it is NULL for the two messages that a player has left and that the server shuts down.
pub read_packet-packet_of :
    (storage : Members) (m : Message) (rest : List ℕ) (n packetlen : ℕ)
    → IsSendable m
    → (o : Option Packet) × (read_packet storage (serialize (packet_of m) ++ rest) n packetlen
        ≡ done (o, packetlen))
      × (heard o ≡ arrives m)
read_packet-packet_of storage (asks_to_join port) rest n packetlen fits =
    request-Arrives storage rest n packetlen port fits
read_packet-packet_of storage (admits player_id team) rest n packetlen fits =
    response-Arrives storage rest n packetlen player_id team fits
read_packet-packet_of storage refuses rest n packetlen fits =
    refusal-Arrives storage rest n packetlen
read_packet-packet_of storage (joined player_id team) rest n packetlen fits =
    joined-Arrives storage rest n packetlen player_id team fits
read_packet-packet_of storage (left player_id) rest n packetlen fits =
    left_is_unknown storage rest n packetlen player_id
read_packet-packet_of storage shuts_down rest n packetlen fits =
    shutdown_is_unknown storage rest n packetlen
