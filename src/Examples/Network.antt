-- ===== src/Examples/Network.antt =====
-- Concrete networks, sockets and clients for the examples.
use legendofstealth.Socket.Transfer.{vector_storage, new_array, Buffer}
use legendofstealth.Protocol.Factory.{new_join_request, first_ptr, with_member}
use legendofstealth.Protocol.Packet.{Packet}
use legendofstealth.Prelude.{
  refl, faults, Bool, Outcome, length-replicate, replicate, ℕ, List, [], ◌∷◌, none, some, done,
  true, false, ◌+◌, ltb, length,
}
use legendofstealth.Prelude.Int.{pos}
use legendofstealth.Net.{SdlNet, IsNet, Received, failed, IpAddress}
use legendofstealth.Server.Api.{SocketApi}
use legendofstealth.Server.State.{Server, proto_lobby}
use legendofstealth.Server.Client.{stack_storage, Client, Team, spy, merc}
use legendofstealth.Socket.State.{Socket, tcp}
use legendofstealth.Connector.{Platform}

abbrev pub localhost : IpAddress
localhost = record { host = 2130706433; port = 43718 }

abbrev pub next_read : List Received → Received × List Received
next_read [] = (failed, [])
next_read (r ∷ rs) = (r, rs)

-- A network whose reads over TCP return a script, and whose calls succeed otherwise.
abbrev pub scripted : SdlNet
scripted = record {
  World = List Received;
  resolve_host = λ _ _ w. (some localhost, w);
  alloc_socket_set = λ w. (1, w);
  free_socket_set = λ _ w. w;
  tcp_add_socket = λ _ _ w. (true, w);
  udp_add_socket = λ _ _ w. (true, w);
  udp_bind = λ _ _ w. (true, w);
  tcp_open = λ _ w. (1, w);
  udp_open = λ _ w. (2, w);
  tcp_peer_address = λ _ _. some localhost;
  udp_own_address = λ _ _. some localhost;
  check_sockets = λ _ w. (pos 1, w);
  socket_ready = λ _ _. true;
  tcp_recv = λ _ _ w. next_read w;
  alloc_packet = λ w. (1, w);
  free_packet = λ _ w. w;
  udp_recv = λ _ w. (none, w);
  tcp_send = λ _ b w. (pos (length b), w);
  udp_send = λ _ _ b w. (pos (length b), w);
  new_block = λ n w. (replicate n 0, w);
  new_storage = λ w. (λ _. 0, w);
}

pub scripted-IsNet : IsNet scripted
scripted-IsNet = record { length-new_block = λ n w. length-replicate n 0 }

-- A connection over TCP.
abbrev pub connection : Socket
connection = record {
  socket_set = 1;
  protocol = tcp;
  pqueue = [];
  udp_listen_port = 0;
  hostname = [];
  tcp_handle = 1;
  udp_handle = 0;
  ip = localhost;
  tcp_disconnect = false;
}

abbrev pub asks_to_join : Packet
asks_to_join = with_member first_ptr 43721 (new_join_request stack_storage)

abbrev pub deleted_or_sent : {W : Type 0} → Buffer → W → Outcome (Bool × W)
deleted_or_sent new_array w = done (true, w)
deleted_or_sent vector_storage w = faults

-- Sockets that are numbers, open unless they are 0; what is deleted is put in front of the world.
abbrev pub numbered : SocketApi
numbered = record {
  World = List ℕ;
  Conn = ℕ;
  adopt = λ h w. done (h, w);
  open_address = λ _ _ _ w. done (9, w);
  open_host = λ _ _ _ _ w. done (8, w);
  has_activity = λ _ w. (true, w);
  get_packet = λ c w. done (some asks_to_join, c, w);
  send_packet = λ _ _ w. (true, w);
  send_bytes = λ _ buffer _ w. deleted_or_sent buffer w;
  send_bytes-faults = λ _ _ _. refl;
  is_connection_open = λ c. ltb 0 c;
  get_ip_address = λ _. localhost;
  get_listen_port_udp = λ c. c;
  delete = λ c w. c ∷ w;
}

-- A server that sends nothing, and a clock that is the world.
abbrev pub silent : SocketApi
silent = record {
  World = ℕ;
  Conn = ℕ;
  adopt = λ h w. done (h, w);
  open_address = λ _ _ _ w. done (9, w);
  open_host = λ _ _ _ _ w. done (8, w);
  has_activity = λ _ w. (false, w);
  get_packet = λ c w. done (none, c, w);
  send_packet = λ _ _ w. (true, w);
  send_bytes = λ _ buffer _ w. deleted_or_sent buffer w;
  send_bytes-faults = λ _ _ _. refl;
  is_connection_open = λ c. ltb 0 c;
  get_ip_address = λ _. localhost;
  get_listen_port_udp = λ c. c;
  delete = λ _ w. w;
}

abbrev pub clock : Platform ℕ
clock = record { time = λ w. (w, w); sleep = λ w. w + 1; freed = λ p _. p }

abbrev pub stopped_clock : {W : Type 0} → Platform W
stopped_clock = record { time = λ w. (0, w); sleep = λ w. w; freed = λ p _. p }

-- A client whose TCP socket is `socket`.
abbrev pub player : ℕ → Team → ℕ → Client ℕ
player id team socket = record {
  ptr = id;
  player_id = id;
  team = team;
  tcp_socket = socket;
  udp_socket = 9;
  udp_port = 43721;
  tcp_queue = [];
  udp_queue = [];
}

abbrev pub server_of : List (Client ℕ) → ℕ → Server ℕ
server_of clients next = record {
  udp_socket = 7;
  proto_phase = proto_lobby;
  clients = clients;
  next_player_id = next;
  next_ptr = next;
}

-- Three players; the connection of the second is closed.
abbrev pub three_players : Server ℕ
three_players = server_of (player 1 merc 1 ∷ player 2 spy 0 ∷ player 3 merc 3 ∷ []) 4
