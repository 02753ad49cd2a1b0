-- ===== src/Examples/Connections.antt =====
-- Connections over the scripted network: the theorems on shared/Socket.cpp at concrete reads.
use legendofstealth.Socket.Ending.{get_data-IsEnded, IsEnded}
use legendofstealth.Socket.Delivery.{get_packet-none, get_packet-unknown, get_packet-hangs}
use legendofstealth.Prelude.Int.{negsuc}
use legendofstealth.Socket.Stream.{get_data-failed, get_data-overflow, fetched}
use legendofstealth.Protocol.Packet.{Packet}
use legendofstealth.Net.{Received, got}
use legendofstealth.Protocol.Factory.{new_join_request, factory_map}
use legendofstealth.Socket.Transfer.{get_data}
use legendofstealth.Prelude.{
  Option, arith, out_of_fuel, some, true, faults, done, replicate, ◌≡◌, [], ◌∷◌, ℕ, none, List,
}
use legendofstealth.Prelude.{refl}
use legendofstealth.Examples.Network.{scripted, scripted-IsNet, connection}
use legendofstealth.Socket.Receive

abbrev two_bytes : List ℕ
two_bytes = 1 ∷ 2 ∷ []

abbrev full_read : List ℕ
full_read = replicate 128 1

get_data-overflow_example :
    get_data scripted connection (got full_read ∷ got two_bytes ∷ []) ≡ faults
get_data-overflow_example =
    get_data-overflow scripted scripted-IsNet connection (got full_read ∷ got two_bytes ∷ [])
      (got two_bytes ∷ []) full_read two_bytes [] refl refl refl refl (omega arith)

get_data-failed_example :
    get_data scripted connection [] ≡ done (fetched scripted (replicate 128 0) (negsuc 0), [])
get_data-failed_example = get_data-failed scripted scripted-IsNet connection [] [] refl refl

pub active : (w : List Received) → Receive.has_activity scripted connection w ≡ (true, w)
unfolding Receive.has_activity
active w = refl

known_request : factory_map 1 ≡ some new_join_request
unfolding factory_map
known_request = refl

unknown_leave : factory_map 4 ≡ none
unfolding factory_map
unknown_leave = refl

get_packet-hangs_example :
    Receive.get_packet scripted 50 connection (got two_bytes ∷ []) ≡ out_of_fuel
get_packet-hangs_example =
    get_packet-hangs scripted scripted-IsNet connection (got two_bytes ∷ []) (got two_bytes ∷ []) []
      refl refl (active (got two_bytes ∷ [])) 50 1 (2 ∷ []) new_join_request refl (omega arith)
      known_request

-- A packet that the factory does not make, as the call above.
pub unknown_call :
    Receive.get_packet scripted 2 connection (got (4 ∷ []) ∷ []) ≡ done (none, connection, [])
unknown_call =
    get_packet-unknown scripted scripted-IsNet connection (got (4 ∷ []) ∷ []) (got (4 ∷ []) ∷ []) []
      refl refl (active (got (4 ∷ []) ∷ [])) 1 4 [] refl (omega arith) unknown_leave

abbrev no_packet : Option Packet
no_packet = none

get_packet-none_example : (no_packet ≡ none) × (connection.pqueue ≡ [])
get_packet-none_example =
    get_packet-none scripted 2 connection connection (got (4 ∷ []) ∷ []) [] no_packet refl
      unknown_call

get_data-IsEnded_example :
    IsEnded (get_data scripted connection (got full_read ∷ got full_read ∷ []))
get_data-IsEnded_example =
    get_data-IsEnded scripted scripted-IsNet connection (got full_read ∷ got full_read ∷ [])
