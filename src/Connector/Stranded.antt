-- ===== src/Connector/Stranded.antt =====
-- ServerConnector over the program's own sockets (client/Client.cpp, shared/Socket.cpp).
use legendofstealth.Socket.Delivery.{get_packet-none}
use legendofstealth.Protocol.Packet.{Packet}
use legendofstealth.Server.Safety.{anything}
use legendofstealth.Socket.Open.{socket_to_host}
use legendofstealth.Socket.Fresh.{socket_to_host-Fresh, IsFresh}
use legendofstealth.Socket.State.{is_connection_open, udp, tcp, Socket}
use legendofstealth.Server.Api.{sdl_sockets, SocketApi}
use legendofstealth.Connector.{
  on_activity, on_packet, Answer, opened, requested, is_connected_to_server, connect_to_server,
  connecting, Connector, wait_loop, Platform,
}
use legendofstealth.Net.{SdlNet}
use legendofstealth.Socket.Receive
use mathlib.Core.Option.{none-ne-some}
use legendofstealth.Prelude.{
  out_of_fuel, throws, faults, zero, some, ◌>>=◌, none, Option, Outcome, inr, sym, inl, ◌-◌, done,
  ltb, true, if◌then◌else◌, Bool-cases, subst, suc, Ensures-bind, [], false, Ensures, ◌≡◌, Bool, ℕ,
  refl,
}

module _ (net : SdlNet) (packets : ℕ) (os : Platform (SdlNet.World net)) where
  open net use {World}
  open os use {time, sleep}

  abbrev api : SocketApi
  api = sdl_sockets net packets

  -- The result, if there is one, is false.
  abbrev Failed : Bool × Connector Socket × World → Type 0
  Failed r = r.0 ≡ false

  wait_loop-Failed :
      (fuel : ℕ) (inner : Bool) (start : ℕ) (k : Connector Socket) (socket : Socket) (w : World)
      → socket.pqueue ≡ []
      → Ensures Failed (wait_loop api os fuel inner start k socket w)
  unfolding wait_loop
  wait_loop-Failed zero inner start k socket w e = tt
  wait_loop-Failed (suc fuel) false start k socket w e =
      elim (Bool-cases (ltb ((time w).0 - start) 10)) [
        | inl early ↦ rw early (wait_loop-Failed fuel true start k socket (time w).1 e)
        | inr late ↦ rw late refl
      ]
  wait_loop-Failed (suc fuel) true start k socket w e =
      active (λ w'. wait_loop-Failed fuel false start k socket w' e)
        (Receive.has_activity net socket w)
    where
      again : Socket → World → Answer api os
      again t w' = wait_loop api os fuel true start k t w'

      got :
          (o : Outcome (Option Packet × Socket × World))
          → ((q : Option Packet) (t : Socket) (w2 : World) → o ≡ done (q, t, w2) → q ≡ none)
          → Ensures Failed (o >>= on_packet api os again k)
      got (done (none, t, w2)) never = tt
      got (done (some p, t, w2)) never = absurd (none-ne-some p (sym (never (some p) t w2 refl)))
      got faults never = tt
      got throws never = tt
      got out_of_fuel never = tt

      active :
          ((w' : World) → Ensures Failed (wait_loop api os fuel false start k socket w'))
          → (a : Bool × World)
          → Ensures Failed (
              on_activity api os again
                (λ w'. wait_loop api os fuel false start k socket w')
                k
                socket
                a)
      active ih (true, w1) =
          got (Receive.get_packet net packets socket w1)
            (λ q t w2 e'. (get_packet-none net packets socket t w1 w2 q e e').0)
      active ih (false, w1) = ih (sleep w1)

  requested-Failed :
      (fuel : ℕ) (k : Connector Socket) (socket : Socket) (r : Bool × World)
      → socket.pqueue ≡ []
      → Ensures Failed (requested api os fuel k socket r)
  requested-Failed fuel k socket (true, w) e =
      wait_loop-Failed fuel false (time w).0 k socket (time w).1 e
  requested-Failed fuel k socket (false, w) e = refl

  opened-Failed :
      (fuel : ℕ) (k : Connector Socket) (u : Socket) (t : Socket × World)
      → IsFresh net tcp t.0
      → Ensures Failed (opened api os fuel k u t)
  opened-Failed fuel k u (t, w) e = elim (Bool-cases (is_connection_open t)) [
    | inl on ↦ rw on (requested-Failed fuel _ t _ e.queue)
    | inr off ↦ rw off refl
  ]

  connecting-Failed :
      (fuel : ℕ) (k : Connector Socket) (w : World) → Ensures Failed (connecting api os fuel k w)
  unfolding connecting
  connecting-Failed fuel k w =
      Ensures-bind (λ _. Unit {0}) Failed (socket_to_host net udp k.host k.udp_port 0 w) _
        (anything api (socket_to_host net udp k.host k.udp_port 0 w))
        (λ u _.
          Ensures-bind (λ r. IsFresh net tcp r.0) Failed
            (socket_to_host net tcp k.host k.tcp_port 0 u.1) (opened api os fuel k u.0)
            (socket_to_host-Fresh net tcp k.host k.tcp_port 0 u.1)
            (λ t h. opened-Failed fuel k u.0 t h))

  -- ConnectToServer over the program's own sockets, on a connector that is not connected: whatever
  -- the network and the server do, if it returns then it returns false.
  pub connect_to_server-Failed :
      (fuel : ℕ) (k : Connector Socket) (w : World)
      → is_connected_to_server k ≡ false
      → Ensures (λ r. r.0 ≡ false) (connect_to_server api os fuel k w)
  unfolding connect_to_server is_connected_to_server
  connect_to_server-Failed fuel k w e =
      subst (λ b. Ensures Failed (if b then done (true, k, w) else connecting api os fuel k w))
        (sym e) (connecting-Failed fuel k w)
