-- ===== src/Server/Listening.antt =====
-- The server and the thread of its listener together: the loop of Server::HandleNewTCPConnections
-- and Server::ServerLoop over the list that the thread adds to (server/Server.cpp,
-- server/ConnectionListener.cpp).
use legendofstealth.Server.Client.{stack_storage}
use legendofstealth.Protocol.Factory.{new_server_shutdown}
use legendofstealth.Socket.State.{tcp}
use legendofstealth.Server.Loop.{is_none, flush_client_packet_queues, handle_socket}
use legendofstealth.Server.State.{broadcast, Server}
use legendofstealth.Listener.{has_new_connection, take_socket, Listener, tcp_round}
use legendofstealth.Server.Api.{SocketApi}
use legendofstealth.Prelude.{
  if◌then◌else◌, ◌>>=◌, zero, done, out_of_fuel, faults, [], ◌++◌, suc, Outcome, ◌∷◌, List, ℕ,
}

-- What SDLNet_TCP_Accept returns in the rounds of the thread that come before HasNewConnection, and
-- in those between it and GetNewSocket.
pub record Arrivals : Type 0 where
  pub before : List ℕ
  pub between : List ℕ

-- Rounds of TcpLoop.
abbrev pub tcp_rounds : List ℕ → Listener → Listener
tcp_rounds [] l = l
tcp_rounds (socket ∷ sockets) l = tcp_rounds sockets (tcp_round socket l)

module _ (api : SocketApi) where
  open api use {World, Conn, adopt}

  -- `new Socket(socket)` and the body of the loop. GetNewSocket gives NULL where it has no connection:
  -- the body reads through it.
  abbrev pub handle_taken :
      (Server Conn → Listener → World → Outcome (Server Conn × Listener × World))
      → Server Conn
      → ℕ × Listener
      → World
      → Outcome (Server Conn × Listener × World)
  handle_taken again s (zero, l) w = faults
  handle_taken again s (suc n, l) w =
      adopt (suc n) w >>= handle_socket api s >>= λ r. again r.0 l r.1

  -- HandleNewTCPConnections: the list has what arrives in each of its rounds, and the fuel is its
  -- length.
  unfoldable pub drain_loop :
      List Arrivals → Server Conn → Listener → World → Outcome (Server Conn × Listener × World)
  drain_loop [] s l w = out_of_fuel
  drain_loop (a ∷ later) s l w =
      let waiting = tcp_rounds a.before l in
      let body =
        handle_taken (λ s' l' w'. drain_loop later s' l' w') s
          (take_socket (tcp_rounds a.between waiting)) w in
      if has_new_connection waiting then body else done (s, waiting, w)

  -- ServerLoop, with what arrives in each of its rounds.
  unfoldable pub serve :
      List (List Arrivals)
      → Server Conn
      → Listener
      → World
      → Outcome (Server Conn × Listener × World)
  serve [] s l w = done (s, l, w)
  serve (arrivals ∷ rounds) s l w =
      let more = drain_loop arrivals s l w >>= λ r.
      flush_client_packet_queues api r.0 r.2 >>= λ flushed. serve rounds flushed.0 r.1 flushed.1 in
      let told = broadcast api tcp (new_server_shutdown stack_storage) s w in
      if is_none api s.proto_phase then done (told.0, l, told.1) else more

-- NULL is no connection.
abbrev pub real : List ℕ → List ℕ
real [] = []
real (zero ∷ xs) = real xs
real (suc n ∷ xs) = suc n ∷ real xs

abbrev pub arrived : List Arrivals → List ℕ
arrived [] = []
arrived (a ∷ later) = real a.before ++ (real a.between ++ arrived later)
