-- ===== src/Server/Api.antt =====
-- What the server and the connecting client use of class Socket, as an interface, and the
-- implementation of shared/Socket.cpp as an instance of it.
use legendofstealth.Socket.Receive.{has_activity, get_packet}
use legendofstealth.Socket.Transfer.{vector_storage, Buffer, send_packet, send_bytes}
use legendofstealth.Socket.State.{is_connection_open, get_ip_address, get_listen_port_udp}
use legendofstealth.Protocol.Packet.{Packet}
use legendofstealth.Socket.Open.{delete_socket, socket_to_host, socket_to_address, socket_of_tcp}
use legendofstealth.Socket.State.{Socket, TlProtocol}
use legendofstealth.Net.{IpAddress, SdlNet}
use legendofstealth.Prelude.{refl, faults, ◌≡◌, Option, Bool, List, Outcome, ℕ}

pub record SocketApi : Type 1 where
  pub World : Type 0
  pub Conn : Type 0
  -- Socket(tcpsocket), Socket(protocol, ipaddr, port) and Socket(protocol, hostname, port, port).
  pub adopt : ℕ → World → Outcome (Conn × World)
  pub open_address : TlProtocol → IpAddress → ℕ → World → Outcome (Conn × World)
  pub open_host : TlProtocol → List ℕ → ℕ → ℕ → World → Outcome (Conn × World)
  pub has_activity : Conn → World → Bool × World
  pub get_packet : Conn → World → Outcome (Option Packet × Conn × World)
  pub send_packet : Conn → Packet → World → Bool × World
  pub send_bytes : Conn → Buffer → List ℕ → World → Outcome (Bool × World)
  -- SendPacket(buf, len) deletes the buffer, also where that is the storage of a vector.
  pub send_bytes-faults :
      (c : Conn) (buf : List ℕ) (w : World) → send_bytes c vector_storage buf w ≡ faults
  pub is_connection_open : Conn → Bool
  pub get_ip_address : Conn → IpAddress
  pub get_listen_port_udp : Conn → ℕ
  pub delete : Conn → World → World

pub vector_deleted :
    (net : SdlNet) (s : Socket) (buf : List ℕ) (w : SdlNet.World net)
    → send_bytes net s vector_storage buf w ≡ faults
unfolding send_bytes
vector_deleted net s buf w = refl

-- The sockets of shared/Socket.cpp over SDL_net; GetPacket has the given number of rounds.
abbrev pub sdl_sockets : SdlNet → ℕ → SocketApi
sdl_sockets net fuel = record {
  World = SdlNet.World net;
  Conn = Socket;
  adopt = socket_of_tcp net;
  open_address = socket_to_address net;
  open_host = socket_to_host net;
  has_activity = has_activity net;
  get_packet = get_packet net fuel;
  send_packet = send_packet net;
  send_bytes = send_bytes net;
  send_bytes-faults = vector_deleted net;
  is_connection_open = is_connection_open;
  get_ip_address = get_ip_address;
  get_listen_port_udp = get_listen_port_udp;
  delete = delete_socket net;
}
