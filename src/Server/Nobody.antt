-- ===== src/Server/Nobody.antt =====
-- The program of the server over the sockets of shared/Socket.cpp: nobody ever joins
-- (server/Main.cpp, server/Server.cpp).
use legendofstealth.Server.Joining.{accept_new_client-nobody}
use legendofstealth.Server.Safety.{anything}
use legendofstealth.Socket.Open.{socket_to_address, socket_of_tcp}
use legendofstealth.Server.Loop.{
  is_none, accept_new_client, is_lobby, handle_socket, flush_loop, new_server,
  flush_client_packet_queues, reject,
}
use legendofstealth.Net.{SdlNet}
use legendofstealth.Socket.State.{Socket, tcp, udp}
use legendofstealth.Socket.Fresh.{socket_of_tcp-Fresh}
use legendofstealth.Server.Api.{sdl_sockets}
use legendofstealth.Server.Main.{main}
use legendofstealth.Server.State.{is_server_full, Server, proto_lobby}
use legendofstealth.Server.Listening.{tcp_rounds, Arrivals, serve, drain_loop, handle_taken}
use legendofstealth.Listener.{new_listener, Listener, has_new_connection, take_socket}
use legendofstealth.Prelude.{
  ap, inr, not, zero, Ensures-mono, inl, ◌&&◌, out_of_fuel, throws, ◌>>=◌, sym, faults, subst,
  Bool-cases, ◌∷◌, Ensures-bind, [], done, List, suc, Ensures, ◌≡◌, ℕ, Outcome, refl,
}

Ensures-done :
    {A : Type 0} (P : A → Type 0) (o : Outcome A) → ((a : A) → o ≡ done a → P a) → Ensures P o
Ensures-done P (done a) h = h a refl
Ensures-done P faults h = tt
Ensures-done P throws h = tt
Ensures-done P out_of_fuel h = tt

module _ (net : SdlNet) (fuel : ℕ) where
  open net use {World}

  -- The server is as it was.
  abbrev Kept : Server Socket → Outcome (Server Socket × World) → Type 0
  Kept s o = Ensures (λ r. r.0 ≡ s) o

  handle_socket-Kept :
      (s : Server Socket) (r : Socket × World)
      → r.0.pqueue ≡ []
      → Kept s (handle_socket (sdl_sockets net fuel) s r)
  unfolding reject
  handle_socket-Kept s (socket, w) empty =
      elim (Bool-cases (is_lobby (sdl_sockets net fuel) s.proto_phase && not (is_server_full s))) [
        | inl room ↦ rw room (
            Ensures-done (λ r. r.0 ≡ s) (accept_new_client (sdl_sockets net fuel) s socket w)
              (λ r e. accept_new_client-nobody net fuel s r.0 socket w r.1 empty e))
        | inr none_left ↦ rw none_left refl
      ]

  -- The server is as it was, with the listener.
  abbrev KeptBy : Server Socket → Outcome (Server Socket × Listener × World) → Type 0
  KeptBy s o = Ensures (λ r. r.0 ≡ s) o

  taken-Kept :
      (again : Server Socket → Listener → World → Outcome (Server Socket × Listener × World))
      (s : Server Socket) (t : ℕ × Listener) (w : World)
      → ((l : Listener) (w' : World) → KeptBy s (again s l w'))
      → KeptBy s (handle_taken (sdl_sockets net fuel) again s t w)
  taken-Kept again s (zero, l) w ih = tt
  taken-Kept again s (suc n, l) w ih =
      Ensures-bind (λ r. r.0 ≡ s) (λ r. r.0 ≡ s) _ (λ r. again r.0 l r.1)
        (Ensures-bind (λ r. (r.0.protocol ≡ tcp) × (r.0.pqueue ≡ [])) (λ r. r.0 ≡ s)
          (socket_of_tcp net (suc n) w) (handle_socket (sdl_sockets net fuel) s)
          (socket_of_tcp-Fresh net (suc n) w) (λ r h. handle_socket-Kept s r h.1))
        (λ r h. subst (λ t. KeptBy s (again t l r.1)) (sym h) (ih l r.1))

  drain_loop-Kept :
      (arrivals : List Arrivals) (s : Server Socket) (l : Listener) (w : World)
      → KeptBy s (drain_loop (sdl_sockets net fuel) arrivals s l w)
  unfolding drain_loop
  drain_loop-Kept [] s l w = tt
  drain_loop-Kept (a ∷ later) s l w =
      elim (Bool-cases (has_new_connection (tcp_rounds a.before l))) [
        | inl waits ↦ rw waits (
            taken-Kept (λ s' l' w'. drain_loop (sdl_sockets net fuel) later s' l' w') s
              (take_socket (tcp_rounds a.between (tcp_rounds a.before l))) w
              (λ l' w'. drain_loop-Kept later s l' w'))
        | inr empty ↦ rw empty refl
      ]

  -- Without clients there is nothing to flush.
  flush_nobody :
      (s : Server Socket) (w : World)
      → s.clients ≡ []
      → flush_client_packet_queues (sdl_sockets net fuel) s w ≡ done (s, w)
  unfolding flush_client_packet_queues flush_loop
  flush_nobody s w e = rw e refl

  serve-Kept :
      (rounds : List (List Arrivals)) (s : Server Socket) (l : Listener) (w : World)
      → s.clients ≡ []
      → s.proto_phase ≡ proto_lobby
      → KeptBy s (serve (sdl_sockets net fuel) rounds s l w)
  unfolding serve
  serve-Kept [] s l w empty lobby = refl
  serve-Kept (arrivals ∷ rounds) s l w empty lobby =
      rw (ap (is_none (sdl_sockets net fuel)) lobby) (
        Ensures-bind (λ r. r.0 ≡ s) (λ r. r.0 ≡ s)
          (drain_loop (sdl_sockets net fuel) arrivals s l w) _ (drain_loop-Kept arrivals s l w)
          (λ r h.
            subst
              (λ t. KeptBy s (
                flush_client_packet_queues (sdl_sockets net fuel) t r.2 >>= λ flushed.
                serve (sdl_sockets net fuel) rounds flushed.0 r.1 flushed.1))
              (sym h)
              (subst
                (λ o.
                  KeptBy s
                    (o >>= λ flushed. serve (sdl_sockets net fuel) rounds flushed.0 r.1 flushed.1))
                (sym (flush_nobody s r.2 empty)) (serve-Kept rounds s r.1 r.2 empty lobby))))

  -- The server as it is made.
  abbrev pub IsUnvisited : Server Socket → Type 0
  IsUnvisited s = (s.clients ≡ []) × (s.next_player_id ≡ 1) × (s.proto_phase ≡ proto_lobby)

  -- The program of the server over its own sockets, over any number of rounds of ServerLoop while the
  -- thread of the listener adds connections, whatever the network does and whoever connects: at
  -- every time that it reaches, no client has ever joined, no id has been given out, and the phase is
  -- PROTO_LOBBY.
  pub main-IsUnvisited :
      (rounds : List (List Arrivals)) (w : World)
      → Ensures (λ r. IsUnvisited r.0) (main (sdl_sockets net fuel) rounds w)
  unfolding main new_server
  main-IsUnvisited rounds w =
      Ensures-bind (λ r. IsUnvisited r.0) (λ r. IsUnvisited r.0)
        (new_server (sdl_sockets net fuel) w) _
        (Ensures-bind (λ _. Unit {0}) (λ r. IsUnvisited r.0) (socket_to_address net udp _ 43720 w) _
          (anything (sdl_sockets net fuel) _) (λ r _. (refl, refl, refl)))
        (λ r h.
          Ensures-mono (λ t. t.0 ≡ r.0) (λ t. IsUnvisited t.0)
            (serve (sdl_sockets net fuel) rounds r.0 new_listener r.1)
            (serve-Kept rounds r.0 new_listener r.1 h.0 h.2) (λ t e. subst IsUnvisited (sym e) h))
