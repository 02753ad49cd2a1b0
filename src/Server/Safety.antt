-- ===== src/Server/Safety.antt =====
-- The invariant over the handlers of Server::ServerLoop and over any number of its rounds
-- (server/Server.cpp).
use legendofstealth.Protocol.Factory.{first_ptr, packet_join_request}
use legendofstealth.Socket.State.{udp}
use legendofstealth.Protocol.Packet.{get_packet_type, Packet}
use legendofstealth.Server.Invariant.{admit-Inv, Holds, Inv}
use legendofstealth.Server.Loop.{with_activity, received, new_server, accept_new_client}
use legendofstealth.Server.State.{max_players, is_server_full, Server}
use legendofstealth.Server.Api.{SocketApi}
use legendofstealth.Prelude.{
  none, inr, ◌==◌, inl, true, some, Bool-cases, out_of_fuel, throws, ◌^◌, [], faults, ◌<◌, arith,
  Ensures-bind, ◌+◌, false, length, done, ◌∷◌, ◌≡◌, Bool, Option, Ensures, List, Outcome, ℕ, refl,
}

module _ (api : SocketApi) where
  open api use {World, Conn, adopt, has_activity, get_packet, delete}

  pub anything : {A : Type 0} (o : Outcome A) → Ensures (λ _. Unit {0}) o
  anything (done a) = tt
  anything faults = tt
  anything throws = tt
  anything out_of_fuel = tt

  unchanged_Holds : (s : Server Conn) (w : World) → Inv s → Holds (s.next_player_id + 1) (s, w)
  unchanged_Holds s w v = (v, omega arith)

  received-Inv :
      (s : Server Conn) (r : Option Packet × Conn × World)
      → Inv s
      → length s.clients < max_players
      → s.next_player_id + 1 < 2 ^ 32
      → Ensures (Holds (s.next_player_id + 1)) (received api s r)
  received-Inv s (none, socket, w) v room small = unchanged_Holds s (delete socket w) v
  received-Inv s (some p, socket, w) v room small =
      elim (Bool-cases (get_packet_type p == packet_join_request)) [
        | inl join ↦ rw join (admit-Inv api s socket (p.members first_ptr) w v room small)
        | inr other ↦ rw other (unchanged_Holds s (delete socket w) v)
      ]

  with_activity-Inv :
      (s : Server Conn) (socket : Conn) (a : Bool × World)
      → Inv s
      → length s.clients < max_players
      → s.next_player_id + 1 < 2 ^ 32
      → Ensures (Holds (s.next_player_id + 1)) (with_activity api s socket a)
  with_activity-Inv s socket (false, w) v room small = unchanged_Holds s (delete socket w) v
  with_activity-Inv s socket (true, w) v room small =
      Ensures-bind (λ _. Unit {0}) (Holds (s.next_player_id + 1)) (get_packet socket w)
        (received api s) (anything (get_packet socket w)) (λ r _. received-Inv s r v room small)

  -- AcceptNewClient, where the server is not full and the counter of ids does not wrap: however the
  -- sockets behave, if it returns then the invariant holds after it.
  pub accept_new_client-Inv :
      (s : Server Conn) (socket : Conn) (w : World)
      → Inv s
      → length s.clients < max_players
      → s.next_player_id + 1 < 2 ^ 32
      → Ensures (Holds (s.next_player_id + 1)) (accept_new_client api s socket w)
  unfolding accept_new_client
  accept_new_client-Inv s socket w v room small =
      with_activity-Inv s socket (has_activity socket w) v room small

  pub not_full : (s : Server Conn) → is_server_full s ≡ false → length s.clients < max_players
  unfolding is_server_full
  not_full s e = ground arith

  abbrev pub total_length : List (List ℕ) → ℕ
  total_length [] = 0
  total_length (handles ∷ rounds) = length handles + total_length rounds

  -- The server starts with the invariant.
  pub new_server-Inv :
      (w : World) → Ensures (λ r. Inv r.0 × (r.0.next_player_id ≡ 1)) (new_server api w)
  unfolding new_server
  new_server-Inv w =
      Ensures-bind (λ _. Unit {0}) _ (SocketApi.open_address api udp _ 43720 w) _ (anything _)
        (λ r _. (
          record { few = omega arith; counter = omega arith; admitted = tt; ids = tt; apart = tt },
          refl,
        ))
