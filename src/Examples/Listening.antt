-- ===== src/Examples/Listening.antt =====
-- Connections that come in while the server serves: the theorems on server/ConnectionListener.cpp
-- and on Server::HandleNewTCPConnections at concrete arrivals.
use legendofstealth.Server.Draining.{drain_loop-handle}
use legendofstealth.Server.Loop.{handle_new_tcp_connections}
use legendofstealth.Examples.Network.{three_players, numbered}
use legendofstealth.Server.Listening.{drain_loop, Arrivals}
use legendofstealth.Listener.Service.{none_yet, Calls-taken, accepting, taking, Calls}
use legendofstealth.Listener.Interleaving.{
  noted_taken, accepts, start, later, Reach, Reach-IsOrderly, System, IsOrderly,
}
use legendofstealth.Listener.{Listener, take_socket, new_listener, tcp_round}
use legendofstealth.Prelude.{
  done, ◌>>=◌, arith, some, ◌++◌, false, [], List, get_elem?, ◌≡◌, ◌∷◌, ℕ, refl,
}

abbrev arrived_twice : System
arrived_twice = record {
  listener = tcp_round 6 (tcp_round 5 new_listener);
  accepted = 5 ∷ 6 ∷ [];
  taken = [];
}

arrived_twice-Reach : Reach arrived_twice
unfolding tcp_round new_listener
arrived_twice-Reach = later (later start (accepts _ 5 refl)) (accepts _ 6 refl)

Reach-IsOrderly_example : IsOrderly arrived_twice
Reach-IsOrderly_example = Reach-IsOrderly arrived_twice-Reach

-- The server has called GetNewSocket twice, and a connection has come in between.
abbrev served_twice : System
served_twice = record {
  listener = tcp_round 7 (tcp_round 6 (tcp_round 5 new_listener));
  accepted = 5 ∷ 6 ∷ 7 ∷ [];
  taken = [];
}

second_turn : Calls 2 arrived_twice (
    noted_taken
      (take_socket (noted_taken (take_socket served_twice.listener) served_twice).listener)
      (noted_taken (take_socket served_twice.listener) served_twice))
unfolding tcp_round new_listener
second_turn = taking (taking (accepting {t = arrived_twice} 7 none_yet refl))

Calls-taken_example :
    get_elem?
      (noted_taken
        (take_socket (noted_taken (take_socket served_twice.listener) served_twice).listener)
        (noted_taken (take_socket served_twice.listener) served_twice)).taken
      1
    ≡ some 6
Calls-taken_example = Calls-taken 1 6 arrived_twice-Reach refl second_turn (omega arith)

-- A connection waits, a second one comes while it is handled, and then none.
abbrev arriving : List Arrivals
arriving =
    record { before = []; between = 6 ∷ [] }
    ∷ record { before = 0 ∷ []; between = [] }
    ∷ record { before = []; between = [] }
    ∷ []

abbrev one_waiting : Listener
one_waiting = record { abort_threads = false; new_connections = 5 ∷ [] }

drain_loop-handle_example :
    (handled : List ℕ) × (missed : List ℕ) × (left : Listener) × (handled ++ missed ≡ 5 ∷ 6 ∷ [])
    × (left.new_connections ≡ [])
    × (drain_loop numbered arriving three_players one_waiting [] ≡ (
        handle_new_tcp_connections numbered handled three_players [] >>= λ r.
        done (r.0, left, r.1)))
drain_loop-handle_example =
    drain_loop-handle numbered arriving one_waiting three_players [] (omega arith, tt) (omega arith)
