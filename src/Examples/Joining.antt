-- ===== src/Examples/Joining.antt =====
-- A player who joins: the theorems on server/Server.cpp, server/ConnectionListener.cpp and
-- client/Client.cpp at concrete connections.
use legendofstealth.Server.Main.{main}
use legendofstealth.Server.Listening.{Arrivals}
use legendofstealth.Server.Nobody.{main-IsUnvisited, IsUnvisited}
use legendofstealth.Server.Informed.{Apart}
use legendofstealth.Examples.Connections.{unknown_call, active}
use legendofstealth.Socket.Open.{delete_socket}
use legendofstealth.Net.{got}
use legendofstealth.Connector.Stranded.{connect_to_server-Failed}
use legendofstealth.Socket.State.{Socket}
use legendofstealth.Connector.Connect.{wait_loop-timeout, connect_to_server-Told, Idle, Told}
use legendofstealth.Connector.{
  clean_up_sockets, failure, is_connected_to_server, wait_loop, connect_to_server, new_connector,
  Connector,
}
use legendofstealth.Server.Api.{sdl_sockets, SocketApi}
use legendofstealth.Server.Joining.{accept_new_client-nobody, accept_new_client-refused}
use legendofstealth.Server.Loop.{accept_new_client}
use legendofstealth.Server.State.{proto_lobby, Server}
use legendofstealth.Server.Client.{join_response, spy}
use legendofstealth.Prelude.{
  List, ◌-◌, Ensures, some, ◌∷◌, none, done, ◌≡◌, [], ℕ, arith, false, refl,
}
use legendofstealth.Examples.Network.{
  numbered, silent, scripted, connection, clock, stopped_clock, three_players,
}

three-Apart : Apart three_players.clients
three-Apart = (((λ e. omega arith), ((λ e. omega arith), tt)), (((λ e. omega arith), tt), (tt, tt)))

-- A server that answers every request.
abbrev welcoming : SocketApi
welcoming = record numbered { get_packet = λ c w. done (some (join_response 1 spy), c, w) }

-- A server over the program's own sockets that nobody has joined, and a client that sends 4.
abbrev empty_server : Server Socket
empty_server = record {
  udp_socket = connection;
  proto_phase = proto_lobby;
  clients = [];
  next_player_id = 1;
  next_ptr = 1;
}

turned_away :
    accept_new_client (sdl_sockets scripted 2) empty_server connection (got (4 ∷ []) ∷ [])
    ≡ done (empty_server, delete_socket scripted connection [])
turned_away =
    accept_new_client-refused (sdl_sockets scripted 2) empty_server connection connection
      (got (4 ∷ []) ∷ []) (got (4 ∷ []) ∷ []) [] none (active (got (4 ∷ []) ∷ [])) unknown_call tt

accept_new_client-nobody_example : empty_server ≡ empty_server
accept_new_client-nobody_example =
    accept_new_client-nobody scripted 2 empty_server empty_server connection (got (4 ∷ []) ∷ [])
      (delete_socket scripted connection []) refl turned_away

abbrev connector : Connector ℕ
connector = new_connector [] 43718 43719

connector-Idle : Idle connector
unfolding new_connector is_connected_to_server
connector-Idle = (refl, (refl, refl))

connect_to_server-Told_example :
    Ensures Told (connect_to_server welcoming stopped_clock 5 connector [])
connect_to_server-Told_example =
    connect_to_server-Told welcoming stopped_clock 5 connector [] connector-Idle

wait_loop-timeout_example :
    (w' : ℕ) × (wait_loop silent clock 21 false 0 connector 8 0
      ≡ failure silent clock
          (clean_up_sockets silent clock (record connector { tcp_socket = some 8 }) w'))
wait_loop-timeout_example =
    wait_loop-timeout silent clock (λ w. 10 - w) 0 connector 8 (λ w. refl) (λ w h. omega arith)
      (λ w h. omega arith) 21 0 (omega arith)

unconnected : is_connected_to_server (new_connector {C = Socket} [] 43718 43719) ≡ false
unfolding new_connector is_connected_to_server
unconnected = refl

connect_to_server-Failed_example :
    Ensures
      (λ r. r.0 ≡ false)
      (connect_to_server (sdl_sockets scripted 5) stopped_clock 5 (new_connector [] 43718 43719) [])
connect_to_server-Failed_example =
    connect_to_server-Failed scripted 5 stopped_clock 5 (new_connector [] 43718 43719) []
      unconnected

-- Two rounds, in the first of which the connection 7 arrives.
abbrev two_rounds : List (List Arrivals)
two_rounds =
    (record { before = 7 ∷ []; between = [] } ∷ record { before = []; between = [] } ∷ [])
    ∷ (record { before = []; between = [] } ∷ [])
    ∷ []

main-IsUnvisited_example :
    Ensures
      (λ r. IsUnvisited scripted 2 r.0)
      (main (sdl_sockets scripted 2) two_rounds (got (4 ∷ []) ∷ []))
main-IsUnvisited_example = main-IsUnvisited scripted 2 two_rounds (got (4 ∷ []) ∷ [])
