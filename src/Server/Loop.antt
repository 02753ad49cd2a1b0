-- ===== src/Server/Loop.antt =====
-- The handlers of Server::ServerLoop (server/Server.cpp).
use legendofstealth.Protocol.Packet.{get_packet_type, Packet}
use legendofstealth.Socket.State.{tcp, udp}
use legendofstealth.Protocol.Factory.{
  packet_join_request, new_server_shutdown, new_join_response, first_ptr, with_member,
}
use legendofstealth.Server.State.{
  Result, proto_game, proto_negot, proto_none, is_server_full, kick_client, next_id,
  player_did_join, proto_lobby, get_team_for_next_player, broadcast, ProtocolPhase, Server,
}
use legendofstealth.Server.Client.{
  is_connected, stack_storage, send_join_response_packet, new_client, delete_client,
  send_packet_queue, Client,
}
use legendofstealth.Server.Api.{SocketApi}
use legendofstealth.Prelude.{
  zero, ◌==◌, set, ◌+◌, ◌++◌, [], not, some, none, ◌∷◌, ◌&&◌, false, get_elem?, if◌then◌else◌, true,
  Option, done, length, suc, ◌>>=◌, List, Bool, Outcome, ℕ,
}

-- A JoinResponsePacket whose `response` is false.
abbrev pub rejection : Packet
rejection = with_member first_ptr 0 (new_join_response stack_storage)

module _ (api : SocketApi) where
  open api use {World, Conn, adopt, open_address, has_activity, get_packet, send_packet, delete}

  -- Server::Server; 43720 is UDP_SERVER_PORT.
  unfoldable pub new_server : World → Outcome (Server Conn × World)
  new_server w = do
    (socket, w') ← open_address udp (record { host = 0; port = 43720 }) 43720 w
    done (
      record {
        udp_socket = socket;
        proto_phase = proto_lobby;
        clients = [];
        next_player_id = 1;
        next_ptr = 1;
      },
      w',
    )

  -- ~Server
  unfoldable pub delete_server : Server Conn → World → World
  delete_server s w = delete s.udp_socket w

  -- `!client->SendPacketQueue(TCP) || !client->SendPacketQueue(UDP)`, negated: both succeeded. The
  -- second is not called where the first fails.
  abbrev pub udp_after_tcp : Bool × Client Conn × World → Outcome (Bool × Client Conn × World)
  udp_after_tcp (false, c, w) = done (false, c, w)
  udp_after_tcp (true, c, w) = send_packet_queue api udp c w

  unfoldable pub send_queues : Client Conn → World → Outcome (Bool × Client Conn × World)
  send_queues c w = send_packet_queue api tcp c w >>= udp_after_tcp

  -- The body of the loop of FlushClientPacketQueues at the index `i`, after sending.
  abbrev pub flush_sent :
      (ℕ → Server Conn → World → Outcome (Result api))
      → ℕ
      → Server Conn
      → Bool × Client Conn × World
      → Outcome (Result api)
  flush_sent again i s (sent, c, w) =
      let s' = record s { clients = set s.clients i c } in
      let kept = again (i + 1) s' w in
      let gone = kick_client api (some c) s' w in
      let failed = again i gone.0 gone.1 in if sent then kept else failed

  abbrev pub flush_at :
      (ℕ → Server Conn → World → Outcome (Result api))
      → ℕ
      → Server Conn
      → World
      → Option (Client Conn)
      → Outcome (Result api)
  flush_at again i s w none = done (s, w)
  flush_at again i s w (some c) =
      let gone = kick_client api (some c) s w in
      let lost = again i gone.0 gone.1 in
      let rest = send_queues c w >>= flush_sent again i s in
      if not (is_connected api c) then lost else rest

  unfoldable pub flush_loop : ℕ → ℕ → Server Conn → World → Outcome (Result api)
  flush_loop zero i s w = done (s, w)
  flush_loop (suc fuel) i s w =
      flush_at (λ j s' w'. flush_loop fuel j s' w') i s w (get_elem? s.clients i)

  -- FlushClientPacketQueues
  unfoldable pub flush_client_packet_queues : Server Conn → World → Outcome (Result api)
  flush_client_packet_queues s w = flush_loop (length s.clients) 0 s w

  -- The end of AcceptNewClient: the new client, and whether its response was sent.
  abbrev pub welcomed : Server Conn → Client Conn → Bool × World → Server Conn × World
  welcomed s c (false, w) = (s, delete_client api c w)
  welcomed s c (true, w) =
      let (s', w') = broadcast api tcp (player_did_join c.player_id c.team) s w in
      (record s' { clients = s'.clients ++ (c ∷ []) }, w')

  abbrev pub respond : Server Conn → Client Conn × World → Outcome (Server Conn × World)
  respond s (c, w) = done (welcomed s c (send_join_response_packet api c w))

  -- `new Client(GetNextPlayerID(), GetTeamForNextPlayer(), udpPort, clientTcpSocket)`, and on.
  unfoldable pub admit : Server Conn → Conn → ℕ → World → Outcome (Server Conn × World)
  admit s socket udp_port w =
      new_client api s.next_ptr s.next_player_id (get_team_for_next_player s) udp_port socket w
      >>= respond
          (record s { next_player_id = next_id s.next_player_id; next_ptr = s.next_ptr + 1 })

  abbrev pub received : Server Conn → Option Packet × Conn × World → Outcome (Server Conn × World)
  received s (none, socket, w) = done (s, delete socket w)
  received s (some p, socket, w) =
      if get_packet_type p == packet_join_request
      then admit s socket (p.members first_ptr) w
      else done (s, delete socket w)

  abbrev pub with_activity : Server Conn → Conn → Bool × World → Outcome (Server Conn × World)
  with_activity s socket (false, w) = done (s, delete socket w)
  with_activity s socket (true, w) = get_packet socket w >>= received s

  -- AcceptNewClient(clientTcpSocket)
  unfoldable pub accept_new_client : Server Conn → Conn → World → Outcome (Server Conn × World)
  accept_new_client s socket w = with_activity s socket (has_activity socket w)

  -- The rejection in HandleNewTCPConnections.
  unfoldable pub reject : Server Conn → Conn → World → Server Conn × World
  reject s socket w = (s, delete socket (send_packet socket rejection w).1)

  abbrev pub is_lobby : ProtocolPhase → Bool
  is_lobby proto_lobby = true
  is_lobby proto_none = false
  is_lobby proto_negot = false
  is_lobby proto_game = false

  abbrev pub handle_socket : Server Conn → Conn × World → Outcome (Server Conn × World)
  handle_socket s (socket, w) =
      if is_lobby s.proto_phase && not (is_server_full s)
      then accept_new_client s socket w
      else done (reject s socket w)

  -- HandleNewTCPConnections. The list is the connections that the loop takes from the listener
  -- until none is waiting, those that come in while it runs included.
  unfoldable pub handle_new_tcp_connections :
      List ℕ → Server Conn → World → Outcome (Server Conn × World)
  handle_new_tcp_connections [] s w = done (s, w)
  handle_new_tcp_connections (handle ∷ handles) s w =
      adopt handle w >>= handle_socket s >>= λ r. handle_new_tcp_connections handles r.0 r.1

  -- One round of ServerLoop in a phase other than PROTO_NONE.
  unfoldable pub iteration : List ℕ → Server Conn → World → Outcome (Server Conn × World)
  iteration handles s w =
      handle_new_tcp_connections handles s w >>= λ r. flush_client_packet_queues r.0 r.1

  -- ServerLoop; `rounds` has the connections that each round finds. It ends in PROTO_NONE, and
  -- otherwise with the list.
  abbrev pub is_none : ProtocolPhase → Bool
  is_none proto_none = true
  is_none proto_negot = false
  is_none proto_lobby = false
  is_none proto_game = false

  unfoldable pub server_loop : List (List ℕ) → Server Conn → World → Outcome (Server Conn × World)
  server_loop [] s w = done (s, w)
  server_loop (handles ∷ rounds) s w =
      let more = iteration handles s w >>= λ r. server_loop rounds r.0 r.1 in
      if is_none s.proto_phase
      then done (broadcast api tcp (new_server_shutdown stack_storage) s w)
      else more
