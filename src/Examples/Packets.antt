-- ===== src/Examples/Packets.antt =====
-- Packets on the wire: the theorems on shared/Protocol.cpp at concrete packets.
use legendofstealth.Messages.{read_packet-packet_of, heard, joined, packet_of}
use legendofstealth.Protocol.Bounds.{deserialize_short}
use legendofstealth.Protocol.Delivery.{read_packet-serialize}
use legendofstealth.Server.Client.{stack_storage, merc}
use legendofstealth.Protocol.RoundTrip.{deserialize-serialize, NotIn, AllFit, Distinct}
use legendofstealth.Protocol.Factory.{new_player_did_join, read_packet, factory_map}
use legendofstealth.Server.State.{player_did_join}
use legendofstealth.Prelude.{
  Option, List, sym, ℕ, arith, All, done, some, [], ◌++◌, ◌∷◌, none, ◌≡◌, length,
}
use legendofstealth.Protocol.Packet.{
  get_packet_type, add_field, new_packet, deserialize, serialize, Members, Packet,
}
use legendofstealth.Prelude.{refl}

-- A packet that tells that player 7 joins the mercs.
abbrev joins : Packet
joins = player_did_join 7 merc

-- A block that starts with the type of a packet that the factory does not make.
abbrev leave_block : List ℕ
leave_block = 4 ∷ 0 ∷ []

abbrev short_block : List ℕ
short_block = 3 ∷ 0 ∷ []

-- What `packetlen` is before a call.
abbrev three : ℕ
three = 3

abbrev zero_storage : Members
zero_storage = λ _. 0

joins-Distinct : Distinct joins.fields
unfolding player_did_join new_player_did_join new_packet add_field
joins-Distinct =
    (((λ e. omega arith), ((λ e. omega arith), tt)), (((λ e. omega arith), tt), (tt, tt)))

joins-AllFit : AllFit joins.members (new_player_did_join zero_storage).members joins.fields
unfolding player_did_join new_player_did_join new_packet add_field
joins-AllFit = ((omega arith, omega arith), (omega arith, (omega arith, tt)))

same_fields : (new_player_did_join zero_storage).fields ≡ joins.fields
unfolding player_did_join new_player_did_join new_packet add_field
same_fields = refl

deserialize-serialize_example :
    (r : Packet) × (deserialize (new_player_did_join zero_storage) (serialize joins ++ (1 ∷ [])) 10
      ≡ some (r, length (serialize joins)))
    × All (λ f. r.members f.ptr ≡ joins.members f.ptr) joins.fields
    × ((a : ℕ) → NotIn a joins.fields → r.members a ≡ (new_player_did_join zero_storage).members a)
    × (r.fields ≡ (new_player_did_join zero_storage).fields)
deserialize-serialize_example =
    deserialize-serialize joins (new_player_did_join zero_storage) (1 ∷ []) 10 same_fields
      joins-Distinct joins-AllFit

known_join : factory_map (get_packet_type joins) ≡ some new_player_did_join
unfolding player_did_join new_player_did_join new_packet add_field get_packet_type factory_map
known_join = refl

read_packet-serialize_example :
    (r : Packet) × (read_packet zero_storage (serialize joins ++ []) 9 0 ≡ done (some r, 0))
    × (get_packet_type r ≡ get_packet_type joins)
    × All (λ f. r.members f.ptr ≡ joins.members f.ptr) joins.fields
read_packet-serialize_example =
    read_packet-serialize zero_storage joins new_player_did_join [] 9 0 known_join (sym same_fields)
      joins-AllFit

deserialize_short_example : deserialize joins short_block 9 ≡ none
unfolding player_did_join new_player_did_join new_packet add_field
deserialize_short_example = deserialize_short joins short_block 9 (omega arith)

read_packet-packet_of_example :
    (o : Option Packet) × (read_packet stack_storage
        (serialize (packet_of (joined 7 merc)) ++ 9 ∷ [])
        64
        0
      ≡ done (o, 0))
    × (heard o ≡ some (joined 7 merc))
read_packet-packet_of_example =
    read_packet-packet_of stack_storage (joined 7 merc) (9 ∷ []) 64 0 (omega arith)
