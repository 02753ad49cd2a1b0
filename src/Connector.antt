-- ===== src/Connector.antt =====
-- class client::ServerConnector (client/Client.h, client/Client.cpp): how a player's program joins a
-- server. `Connect`, `Ownership` and `Stranded` have the proofs.
pub mod Connect
pub mod Ownership
pub mod Stranded
use legendofstealth.Server.Client.{stack_storage, merc, team_code}
use legendofstealth.Socket.State.{tcp, udp}
use legendofstealth.Protocol.Factory.{
  third_ptr, packet_join_response, second_ptr, new_join_request, first_ptr, with_member,
}
use legendofstealth.Server.Api.{SocketApi}
use legendofstealth.Protocol.Packet.{get_packet_type, Packet}
use legendofstealth.Prelude.{
  zero, ◌-◌, ◌==◌, true, not, suc, ltb, faults, throws, some, false, out_of_fuel, ◌>>=◌, done,
  if◌then◌else◌, none, Option, Outcome, Bool, List, ℕ,
}

-- `team` is the number that is cast to a Team.
pub record Connector (C : Type 0) : Type 0 where
  pub host : List ℕ
  pub tcp_port : ℕ
  pub udp_port : ℕ
  pub tcp_socket : Option C
  pub udp_socket : Option C
  pub tcp_get : Bool
  pub udp_get : Bool
  pub is_connected : Bool
  pub player_id : ℕ
  pub team : ℕ

-- ServerConnector::ServerConnector
unfoldable pub new_connector : {C : Type 0} → List ℕ → ℕ → ℕ → Connector C
new_connector host tcp_port udp_port = record {
  host = host;
  tcp_port = tcp_port;
  udp_port = udp_port;
  tcp_socket = none;
  udp_socket = none;
  tcp_get = false;
  udp_get = false;
  is_connected = false;
  player_id = 0;
  team = team_code merc;
}

-- IsConnectedToServer
unfoldable pub is_connected_to_server : {C : Type 0} → Connector C → Bool
is_connected_to_server k = k.is_connected

-- AssertIsConnected, then the value of a getter.
abbrev pub if_connected : {C A : Type 0} → Connector C → A → Outcome A
if_connected k a = if k.is_connected then done a else throws

unfoldable pub get_tcp_socket : {C : Type 0} → Connector C → Outcome (Option C)
get_tcp_socket k = if_connected k k.tcp_socket

unfoldable pub get_udp_socket : {C : Type 0} → Connector C → Outcome (Option C)
get_udp_socket k = if_connected k k.udp_socket

unfoldable pub get_player_id : {C : Type 0} → Connector C → Outcome ℕ
get_player_id k = if_connected k k.player_id

unfoldable pub get_team : {C : Type 0} → Connector C → Outcome ℕ
get_team k = if_connected k k.team

-- The clock: `time(0)`, and `usleep`. `freed` is what the storage of a packet holds after `delete`.
pub record Platform (W : Type 0) : Type 0 where
  pub time : W → ℕ × W
  pub sleep : W → W
  pub freed : Packet → W → Packet

-- The packet that asks to join, with the port of the UDP socket.
unfoldable pub join_request : ℕ → Packet
join_request port = with_member first_ptr port (new_join_request stack_storage)

module _ (api : SocketApi) (os : Platform (SocketApi.World api)) where
  open api use {
    World, Conn, open_host, has_activity, get_packet, send_packet, is_connection_open,
    get_listen_port_udp, delete,
  }
  open os use {time, sleep, freed}

  abbrev pub Answer : Type 0
  Answer = Outcome (Bool × Connector Conn × World)

  abbrev pub delete_if : Option Conn → World → World
  delete_if none w = w
  delete_if (some c) w = delete c w

  -- CleanUpSockets
  unfoldable pub clean_up_sockets : Connector Conn → World → Connector Conn × World
  clean_up_sockets k w = (
    record k { tcp_socket = none; udp_socket = none },
    delete_if k.udp_socket (delete_if k.tcp_socket w),
  )

  -- ~ServerConnector
  unfoldable pub delete_connector : Connector Conn → World → World
  delete_connector k w =
      let w' = if k.tcp_get then w else delete_if k.tcp_socket w in
      if k.udp_get then w' else delete_if k.udp_socket w'

  abbrev pub failure : Connector Conn × World → Answer
  failure (k, w) = done (false, k, w)

  -- A PACKET_JOIN_RESPONSE. The members are read after the packet has been deleted.
  unfoldable pub on_response : Connector Conn → Packet → World → Answer
  on_response k p w =
      let kept = freed p w in
      if p.members first_ptr == 0
      then failure (clean_up_sockets k w)
      else done (
        true,
        record k {
          player_id = kept.members second_ptr;
          team = kept.members third_ptr;
          is_connected = true;
        },
        w,
      )

  -- What the inner loop does with what GetPacket returns; `again` goes on with the loops. NULL is
  -- dereferenced.
  abbrev pub on_packet :
      (Conn → World → Answer) → Connector Conn → Option Packet × Conn × World → Answer
  on_packet again k (none, socket, w) = faults
  on_packet again k (some p, socket, w) =
      let other = again socket w in
      if get_packet_type p == packet_join_response
      then on_response (record k { tcp_socket = some socket }) p w
      else other

  -- The test of the outer loop: `time(0) - start < 10`.
  abbrev pub on_time : (World → Answer) → ℕ → Connector Conn → ℕ × World → Answer
  on_time again start k (now, w) =
      let rest = again w in if ltb (now - start) 10 then rest else failure (clean_up_sockets k w)

  -- The test of the inner loop: HasActivity.
  abbrev pub on_activity :
      (Conn → World → Answer) → (World → Answer) → Connector Conn → Conn → Bool × World → Answer
  on_activity again rest k socket (true, w) = get_packet socket w >>= on_packet again k
  on_activity again rest k socket (false, w) = rest (sleep w)

  -- The two loops of ConnectToServer: `inner` is where they stand. Each test takes a round.
  unfoldable pub wait_loop : ℕ → Bool → ℕ → Connector Conn → Conn → World → Answer
  wait_loop zero inner start k socket w = out_of_fuel
  wait_loop (suc fuel) false start k socket w =
      on_time (λ w'. wait_loop fuel true start k socket w') start
        (record k { tcp_socket = some socket }) (time w)
  wait_loop (suc fuel) true start k socket w =
      on_activity (λ t w'. wait_loop fuel true start k t w')
        (λ w'. wait_loop fuel false start k socket w') k socket (has_activity socket w)

  abbrev pub wait : ℕ → Connector Conn → Conn → ℕ × World → Answer
  wait fuel k socket (start, w) = wait_loop fuel false start k socket w

  abbrev pub requested : ℕ → Connector Conn → Conn → Bool × World → Answer
  requested fuel k socket (true, w) = wait fuel k socket (time w)
  requested fuel k socket (false, w) = failure (clean_up_sockets k w)

  abbrev pub opened : ℕ → Connector Conn → Conn → Conn × World → Answer
  opened fuel k udp_socket (tcp_socket, w) =
      let k' = record k { udp_socket = some udp_socket; tcp_socket = some tcp_socket } in
      let request =
        requested fuel k' tcp_socket
          (send_packet tcp_socket (join_request (get_listen_port_udp udp_socket)) w) in
      if not (is_connection_open tcp_socket) then failure (clean_up_sockets k' w) else request

  -- The part of ConnectToServer behind the test that it is not connected.
  unfoldable pub connecting : ℕ → Connector Conn → World → Answer
  connecting fuel k w = open_host udp k.host k.udp_port 0 w >>= λ u.
      open_host tcp k.host k.tcp_port 0 u.1 >>= opened fuel k u.0

  -- ConnectToServer, with a number of rounds for its loops.
  unfoldable pub connect_to_server : ℕ → Connector Conn → World → Answer
  connect_to_server fuel k w = if k.is_connected then done (true, k, w) else connecting fuel k w
