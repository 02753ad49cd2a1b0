-- ===== src/Protocol/Factory.antt =====
-- The packet classes and class PacketFactory (shared/Protocol.h, shared/Protocol.cpp).
use legendofstealth.Prelude.{
  ℕ, List, [], ◌∷◌, Option, none, some, ◌==◌, if◌then◌else◌, Outcome, done, faults,
}
use legendofstealth.Protocol.Packet.{
  Packet, Members, store, byte_field, uint32, new_packet, add_field, deserialize,
}

-- enum PacketType
abbrev pub packet_undefined : ℕ
packet_undefined = 0

abbrev pub packet_join_request : ℕ
packet_join_request = 1

abbrev pub packet_join_response : ℕ
packet_join_response = 2

abbrev pub packet_player_did_join : ℕ
packet_player_did_join = 3

abbrev pub packet_player_did_leave : ℕ
packet_player_did_leave = 4

abbrev pub packet_server_shutdown : ℕ
packet_server_shutdown = 5

-- The members of a subclass follow `_type` in the order of their declaration.
abbrev pub first_ptr : ℕ
first_ptr = 1

abbrev pub second_ptr : ℕ
second_ptr = 2

abbrev pub third_ptr : ℕ
third_ptr = 3

-- `member = v` in a constructor or in the code that fills a packet.
abbrev pub with_member : ℕ → ℕ → Packet → Packet
with_member a v p = record p { members = store p.members a v }

-- JoinRequestPacket: `port`.
unfoldable pub new_join_request : Members → Packet
new_join_request storage =
    add_field uint32 first_ptr (with_member first_ptr 0 (new_packet packet_join_request storage))

-- JoinResponsePacket: `response`, `playerID`, `team`.
unfoldable pub new_join_response : Members → Packet
new_join_response storage =
    let p = new_packet packet_join_response storage in
    let q = with_member second_ptr 0 (with_member third_ptr 0 (with_member first_ptr 0 p)) in
    add_field uint32 third_ptr (add_field uint32 second_ptr (add_field byte_field first_ptr q))

-- PlayerDidJoinPacket: `playerID`, `team`.
unfoldable pub new_player_did_join : Members → Packet
new_player_did_join storage =
    let p = new_packet packet_player_did_join storage in
    let q = with_member second_ptr 0 (with_member first_ptr 0 p) in
    add_field uint32 second_ptr (add_field uint32 first_ptr q)

-- PlayerDidLeavePacket: `playerID`.
unfoldable pub new_player_did_leave : Members → Packet
new_player_did_leave storage =
    add_field uint32 first_ptr
      (with_member first_ptr 0 (new_packet packet_player_did_leave storage))

unfoldable pub new_server_shutdown : Members → Packet
new_server_shutdown storage = new_packet packet_server_shutdown storage

-- `_map`, as PacketFactory's constructor fills it: the class that is made for a type.
unfoldable pub factory_map : ℕ → Option (Members → Packet)
factory_map type =
    if type == packet_join_request
    then some new_join_request
    else if type == packet_join_response
    then some new_join_response
    else if type == packet_player_did_join
    then some new_player_did_join
    else none

abbrev pub made : Option (Packet × ℕ) → ℕ → Outcome (Option Packet × ℕ)
made none packetlen = faults
made (some (p, read)) packetlen = done (some p, packetlen)

abbrev pub make : Option (Members → Packet) → Members → List ℕ → ℕ → ℕ → Outcome (Option Packet × ℕ)
make none storage buffer bufferlen packetlen = done (none, packetlen)
make (some newfunc) storage buffer bufferlen packetlen =
    made (deserialize (newfunc storage) buffer bufferlen) packetlen

-- ReadPacket(buffer, bufferlen, packetlen): the packet, or NULL, and `packetlen` as it is left.
-- `storage` is what the memory of the new object holds.
unfoldable pub read_packet : Members → List ℕ → ℕ → ℕ → Outcome (Option Packet × ℕ)
read_packet storage [] bufferlen packetlen = faults
read_packet storage (type ∷ rest) bufferlen packetlen =
    make (factory_map type) storage (type ∷ rest) bufferlen packetlen
