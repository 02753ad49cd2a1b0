-- ===== src/Server/Client.antt =====
-- class server::Client (server/Client.h, server/Client.cpp): a connected player.
use legendofstealth.Socket.Transfer.{vector_storage}
use legendofstealth.Net.{IpAddress}
use legendofstealth.Protocol.Factory.{
  new_join_response, first_ptr, second_ptr, third_ptr, with_member,
}
use legendofstealth.Server.Api.{SocketApi}
use legendofstealth.Socket.State.{tcp, udp, TlProtocol}
use legendofstealth.Protocol.Packet.{serialize, Packet, Members}
use legendofstealth.Prelude.{◌>>=◌, ◌∷◌, [], true, done, Bool, Outcome, ◌++◌, List, ℕ}

-- enum Team (shared/Protocol.h)
pub data Team : Type 0 where
  spy merc : Team

abbrev pub team_code : Team → ℕ
team_code spy = 0
team_code merc = 1

-- `ptr` is the address of the object, by which the server tells clients apart.
pub record Client (C : Type 0) : Type 0 where
  pub ptr : ℕ
  pub player_id : ℕ
  pub team : Team
  pub tcp_socket : C
  pub udp_socket : C
  pub udp_port : ℕ
  pub tcp_queue : List ℕ
  pub udp_queue : List ℕ

-- The storage of a packet on the stack: every member that is sent is assigned before.
abbrev pub stack_storage : Members
stack_storage = λ _. 0

-- AddPacketToQueue(proto, packet)
unfoldable pub add_packet_to_queue : {C : Type 0} → TlProtocol → Packet → Client C → Client C
add_packet_to_queue udp p c = record c { udp_queue = c.udp_queue ++ serialize p }
add_packet_to_queue tcp p c = record c { tcp_queue = c.tcp_queue ++ serialize p }

-- The packet of SendJoinResponsePacket.
unfoldable pub join_response : ℕ → Team → Packet
join_response player_id team =
    with_member third_ptr (team_code team)
      (with_member second_ptr player_id (with_member first_ptr 1 (new_join_response stack_storage)))

module _ (api : SocketApi) where
  open api use {
    World, Conn, open_address, send_packet, send_bytes, is_connection_open, get_ip_address, delete,
  }

  -- Client(playerID, team, udpPort, tcpSocket), at the address `ptr`.
  abbrev pub built : ℕ → ℕ → Team → ℕ → Conn → Conn × World → Outcome (Client Conn × World)
  built ptr player_id team udp_port tcp_socket (udp_socket, w) = done (
    record {
      ptr = ptr;
      player_id = player_id;
      team = team;
      tcp_socket = tcp_socket;
      udp_socket = udp_socket;
      udp_port = udp_port;
      tcp_queue = [];
      udp_queue = [];
    },
    w,
  )

  unfoldable pub new_client : ℕ → ℕ → Team → ℕ → Conn → World → Outcome (Client Conn × World)
  new_client ptr player_id team udp_port tcp_socket w =
      open_address udp
        (record { host = IpAddress.host (get_ip_address tcp_socket); port = udp_port }) 0 w
      >>= built ptr player_id team udp_port tcp_socket

  -- ~Client
  unfoldable pub delete_client : Client Conn → World → World
  delete_client c w = delete c.udp_socket (delete c.tcp_socket w)

  -- SendPacketQueue(proto): SendPacket is given the storage of the queue. The queue is cleared also
  -- where sending fails.
  abbrev pub queue_sent :
      List ℕ → Conn → Client Conn → Client Conn → World → Outcome (Bool × Client Conn × World)
  queue_sent [] socket c cleared w = done (true, c, w)
  queue_sent (b ∷ bytes) socket c cleared w =
      send_bytes socket vector_storage (b ∷ bytes) w >>= λ r. done (r.0, cleared, r.1)

  unfoldable pub send_packet_queue :
      TlProtocol → Client Conn → World → Outcome (Bool × Client Conn × World)
  send_packet_queue udp c w = queue_sent c.udp_queue c.udp_socket c (record c { udp_queue = [] }) w
  send_packet_queue tcp c w = queue_sent c.tcp_queue c.tcp_socket c (record c { tcp_queue = [] }) w

  -- SendPacket(packet)
  unfoldable pub send_client_packet : Client Conn → Packet → World → Bool × World
  send_client_packet c p w = send_packet c.tcp_socket p w

  -- SendJoinResponsePacket
  unfoldable pub send_join_response_packet : Client Conn → World → Bool × World
  unfolding send_client_packet
  send_join_response_packet c w = send_client_packet c (join_response c.player_id c.team) w

  -- IsConnected
  unfoldable pub is_connected : Client Conn → Bool
  is_connected c = is_connection_open c.tcp_socket
