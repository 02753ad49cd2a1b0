-- ===== src/Socket/Open.antt =====
-- The constructors and the destructor of Socket, with ConnectTCP, CreateUDP, CreateSocketSet and
-- Init (shared/Socket.cpp). Log lines are left out.
use legendofstealth.Socket.State.{udp, tcp, get_octal_ip, TlProtocol, Socket}
use legendofstealth.Net.{IpAddress, SdlNet}
use legendofstealth.Prelude.{
  ◌>>=◌, none, true, false, some, throws, [], done, faults, ◌==◌, List, Bool, if◌then◌else◌,
  Outcome, Option, ℕ,
}

module _ (net : SdlNet) where
  open net use {
    World, resolve_host, alloc_socket_set, free_socket_set, tcp_add_socket, udp_add_socket,
    udp_bind, tcp_open, udp_open, tcp_peer_address, udp_own_address,
  }

  -- CreateSocketSet
  unfoldable pub create_socket_set : Socket → World → Outcome (Socket × World)
  create_socket_set s w =
      if s.socket_set == 0
      then (let (handle, w') = alloc_socket_set w in
          if handle == 0 then throws else done (record s { socket_set = handle }, w'))
      else done (s, w)

  -- ConnectTCP
  unfoldable pub connect_tcp : Socket → World → Outcome (Socket × World)
  connect_tcp s w =
      let (handle, w') = tcp_open s.ip w in
      if handle == 0 then throws else done (record s { tcp_handle = handle }, w')

  abbrev pub with_port : Socket → Option IpAddress → World → Outcome (Socket × World)
  with_port s none w = faults
  with_port s (some address) w = done (record s { udp_listen_port = address.port }, w)

  -- CreateUDP: a failure to open is only logged, and the port is read all the same.
  unfoldable pub create_udp : Socket → World → Outcome (Socket × World)
  create_udp s w =
      let (handle, w') = udp_open s.udp_listen_port w in
      with_port (record s { udp_handle = handle }) (udp_own_address handle w') w'

  abbrev pub added : Socket → Bool × World → Outcome (Socket × World)
  added s (true, w) = done (s, w)
  added s (false, w) = throws

  abbrev pub add_tcp : Socket × World → Outcome (Socket × World)
  add_tcp (s, w) = added s (tcp_add_socket s.socket_set s.tcp_handle w)

  abbrev pub add_udp : Socket × World → Outcome (Socket × World)
  add_udp (s, w) = added s (udp_add_socket s.socket_set s.udp_handle w)

  abbrev pub bind_udp : Socket × World → Outcome (Socket × World)
  bind_udp (s, w) = added s (udp_bind s.udp_handle s.ip w)

  abbrev pub init_protocol : TlProtocol → Socket × World → Outcome (Socket × World)
  init_protocol tcp (s, w) = connect_tcp s w >>= add_tcp
  init_protocol udp (s, w) = create_udp s w >>= add_udp >>= bind_udp

  -- Init
  unfoldable pub init : Socket → World → Outcome (Socket × World)
  init s w = create_socket_set s w >>= init_protocol s.protocol

  abbrev pub blank_socket : TlProtocol → List ℕ → IpAddress → ℕ → Socket
  blank_socket protocol hostname ip udp_listen_port = record {
    socket_set = 0;
    protocol = protocol;
    pqueue = [];
    udp_listen_port = udp_listen_port;
    hostname = hostname;
    tcp_handle = 0;
    udp_handle = 0;
    ip = ip;
    tcp_disconnect = false;
  }

  abbrev pub resolved :
      TlProtocol → List ℕ → ℕ → Option IpAddress × World → Outcome (Socket × World)
  resolved protocol hostname udp_listen_port (none, w) = throws
  resolved protocol hostname udp_listen_port (some address, w) =
      init (blank_socket protocol hostname address udp_listen_port) w

  -- Socket(protocol, hostname, port, udpListenPort); SocketTCP(host, port) is this with TCP and 0.
  unfoldable pub socket_to_host : TlProtocol → List ℕ → ℕ → ℕ → World → Outcome (Socket × World)
  socket_to_host protocol hostname port udp_listen_port w =
      resolved protocol hostname udp_listen_port (resolve_host hostname port w)

  -- Socket(protocol, ipaddr, udpListenPort)
  unfoldable pub socket_to_address : TlProtocol → IpAddress → ℕ → World → Outcome (Socket × World)
  socket_to_address protocol address udp_listen_port w =
      init (blank_socket protocol (get_octal_ip address.host) address udp_listen_port) w

  abbrev pub from_peer : ℕ → Option IpAddress → World → Outcome (Socket × World)
  from_peer handle none w = faults
  from_peer handle (some address) w =
      create_socket_set
        (record (blank_socket tcp (get_octal_ip address.host) address 0) { tcp_handle = handle }) w
      >>= add_tcp

  -- Socket(tcpsocket): for a connection that has been set up. The peer's address is copied unseen.
  unfoldable pub socket_of_tcp : ℕ → World → Outcome (Socket × World)
  socket_of_tcp handle w = from_peer handle (tcp_peer_address handle w) w

  -- ~Socket
  unfoldable pub delete_socket : Socket → World → World
  delete_socket s w = if s.socket_set == 0 then w else free_socket_set s.socket_set w
