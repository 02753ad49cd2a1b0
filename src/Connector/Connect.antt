-- ===== src/Connector/Connect.antt =====
-- What ServerConnector::ConnectToServer promises (client/Client.h, client/Client.cpp).
use legendofstealth.Server.Safety.{anything}
use legendofstealth.Socket.State.{tcp, udp}
use legendofstealth.Protocol.Factory.{packet_join_response, first_ptr}
use legendofstealth.Protocol.Packet.{get_packet_type, Packet}
use legendofstealth.Server.Api.{SocketApi}
use legendofstealth.Connector.{
  connecting, on_activity, on_packet, opened, requested, failure, connect_to_server, wait_loop,
  on_response, clean_up_sockets, Platform, is_connected_to_server, Connector,
}
use legendofstealth.Prelude.{
  ◌∙◌, ap, sym, ◌*◌, done, ◌<◌, if◌then◌else◌, arith, subst, ◌≤◌, zero, inr, ◌-◌, ◌==◌, inl, ltb,
  Ensures-bind, suc, Bool-cases, Ensures, false, true, none, ◌≡◌, some, Bool, Option, ℕ, refl,
}

-- The connector has both sockets, or neither.
abbrev pub IsSome : {A : Type 0} → Option A → Type 0
IsSome none = ⊥
IsSome (some a) = Unit

-- The flags that say that a socket was handed out.
abbrev pub NotTaken : {C : Type 0} → Connector C → Type 0
NotTaken k = (k.tcp_get ≡ false) × (k.udp_get ≡ false)

-- A connector before ConnectToServer.
abbrev pub Idle : {C : Type 0} → Connector C → Type 0
Idle k = (is_connected_to_server k ≡ false) × NotTaken k

pub record IsConnected {C : Type 0} (k : Connector C) : Type 0 where
  pub connected : is_connected_to_server k ≡ true
  pub tcp_there : IsSome k.tcp_socket
  pub udp_there : IsSome k.udp_socket
  pub not_taken : NotTaken k

pub record IsUnconnected {C : Type 0} (k : Connector C) : Type 0 where
  pub unconnected : is_connected_to_server k ≡ false
  pub no_tcp : k.tcp_socket ≡ none
  pub no_udp : k.udp_socket ≡ none
  pub not_taken : NotTaken k

-- What ConnectToServer's result says of the connector.
abbrev pub Told : {C W : Type 0} → Bool × Connector C × W → Type 0
Told (true, k, w) = IsConnected k
Told (false, k, w) = IsUnconnected k

ltb_late : (n : ℕ) → 10 ≤ n → ltb n 10 ≡ false
ltb_late n h = ground arith

module _ (api : SocketApi) (os : Platform (SocketApi.World api)) where
  open api use {World, Conn, open_host, has_activity, get_packet, send_packet, is_connection_open}
  open os use {time, sleep}

  failure-Told :
      (k : Connector Conn) (w : World)
      → Idle k
      → Ensures Told (failure api os (clean_up_sockets api os k w))
  unfolding clean_up_sockets is_connected_to_server
  failure-Told k w e = record { unconnected = e.0; no_tcp = refl; no_udp = refl; not_taken = e.1 }

  on_response-Told :
      (k : Connector Conn) (p : Packet) (w : World)
      → Idle k
      → IsSome k.tcp_socket
      → IsSome k.udp_socket
      → Ensures Told (on_response api os k p w)
  unfolding on_response is_connected_to_server
  on_response-Told k p w e t u = elim (Bool-cases (p.members first_ptr == 0)) [
    | inl rejected ↦ rw rejected (failure-Told k w e)
    | inr accepted ↦
        rw accepted (record { connected = refl; tcp_there = t; udp_there = u; not_taken = e.1 })
  ]

  wait_loop-Told :
      (fuel : ℕ) (inner : Bool) (start : ℕ) (k : Connector Conn) (socket : Conn) (w : World)
      → Idle k
      → IsSome k.udp_socket
      → Ensures Told (wait_loop api os fuel inner start k socket w)
  unfolding wait_loop is_connected_to_server
  wait_loop-Told zero inner start k socket w e u = tt
  wait_loop-Told (suc fuel) false start k socket w e u =
      elim (Bool-cases (ltb ((time w).0 - start) 10)) [
        | inl early ↦ rw early (wait_loop-Told fuel true start k socket (time w).1 e u)
        | inr late ↦ rw late (failure-Told (record k { tcp_socket = some socket }) (time w).1 e)
      ]
  wait_loop-Told (suc fuel) true start k socket w e u =
      active (wait_loop-Told fuel true start k) (wait_loop-Told fuel false start k socket)
        (has_activity socket w)
    where
      got :
          ((t : Conn) (w' : World)
            → Idle k
            → IsSome k.udp_socket
            → Ensures Told (wait_loop api os fuel true start k t w'))
          → (r : Option Packet × Conn × World)
          → Ensures Told (on_packet api os (λ t w'. wait_loop api os fuel true start k t w') k r)
      got ih (none, t, w1) = tt
      got ih (some p, t, w1) = elim (Bool-cases (get_packet_type p == packet_join_response)) [
        | inl response ↦
            rw response (on_response-Told (record k { tcp_socket = some t }) p w1 e tt u)
        | inr other ↦ rw other (ih t w1 e u)
      ]

      active :
          ((t : Conn) (w' : World)
            → Idle k
            → IsSome k.udp_socket
            → Ensures Told (wait_loop api os fuel true start k t w'))
          → ((w' : World)
              → Idle k
              → IsSome k.udp_socket
              → Ensures Told (wait_loop api os fuel false start k socket w'))
          → (a : Bool × World)
          → Ensures Told (
              on_activity api os
                (λ t w'. wait_loop api os fuel true start k t w')
                (λ w'. wait_loop api os fuel false start k socket w')
                k
                socket
                a)
      active ih ih' (true, w1) =
          Ensures-bind (λ _. Unit {0}) Told (get_packet socket w1) _
            (anything api (get_packet socket w1)) (λ r _. got ih r)
      active ih ih' (false, w1) = ih' (sleep w1) e u

  requested-Told :
      (fuel : ℕ) (k : Connector Conn) (socket : Conn) (r : Bool × World)
      → Idle k
      → IsSome k.udp_socket
      → Ensures Told (requested api os fuel k socket r)
  requested-Told fuel k socket (true, w) e u =
      wait_loop-Told fuel false (time w).0 k socket (time w).1 e u
  requested-Told fuel k socket (false, w) e u = failure-Told k w e

  opened-Told :
      (fuel : ℕ) (k : Connector Conn) (u : Conn) (t : Conn × World)
      → Idle k
      → Ensures Told (opened api os fuel k u t)
  unfolding is_connected_to_server
  opened-Told fuel k u (t, w) e = elim (Bool-cases (is_connection_open t)) [
    | inl on ↦ rw on (requested-Told fuel _ t _ e tt)
    | inr off ↦ rw off (failure-Told (record k { udp_socket = some u; tcp_socket = some t }) w e)
  ]

  connecting-Told :
      (fuel : ℕ) (k : Connector Conn) (w : World)
      → Idle k
      → Ensures Told (connecting api os fuel k w)
  unfolding connecting
  connecting-Told fuel k w e =
      Ensures-bind (λ _. Unit {0}) Told (open_host udp k.host k.udp_port 0 w) _
        (anything api (open_host udp k.host k.udp_port 0 w))
        (λ u _.
          Ensures-bind (λ _. Unit {0}) Told (open_host tcp k.host k.tcp_port 0 u.1)
            (opened api os fuel k u.0) (anything api (open_host tcp k.host k.tcp_port 0 u.1))
            (λ t _. opened-Told fuel k u.0 t e))

  -- ConnectToServer on a connector that is not connected and whose flags for sockets that were
  -- handed out are false, however the sockets, the clock and the server behave: if it returns true
  -- then the connector is connected and has both sockets; if it returns false then it is not
  -- connected and both sockets are gone. In both cases the flags are still false.
  pub connect_to_server-Told :
      (fuel : ℕ) (k : Connector Conn) (w : World)
      → Idle k
      → Ensures Told (connect_to_server api os fuel k w)
  unfolding connect_to_server is_connected_to_server
  connect_to_server-Told fuel k w e =
      subst (λ b. Ensures Told (if b then done (true, k, w) else connecting api os fuel k w))
        (sym e.0) (connecting-Told fuel k w e)

  -- The loops of ConnectToServer end: where the socket never has activity, and some number falls
  -- in each round in which it is not 0 and is 0 only when ten seconds have passed, then with more
  -- than two rounds for each of its values the loops give up, and the sockets are cleaned up.
  pub wait_loop-timeout :
      (remaining : World → ℕ) (start : ℕ) (k : Connector Conn) (socket : Conn)
      → ((w : World) → (has_activity socket w).0 ≡ false)
      → ((w : World) → remaining w ≡ 0 → 10 ≤ (time w).0 - start)
      → ((w : World)
          → 0 < remaining w
          → remaining (sleep (has_activity socket (time w).1).1) < remaining w)
      → (fuel : ℕ) (w : World) → remaining w * 2 < fuel
      → (w' : World) × (wait_loop api os fuel false start k socket w
          ≡ failure api os (clean_up_sockets api os (record k { tcp_socket = some socket }) w'))
  unfolding wait_loop
  wait_loop-timeout remaining start k socket quiet late falls zero w h = absurd (omega arith)
  wait_loop-timeout remaining start k socket quiet late falls (suc zero) w h =
      ((time w).1, rw (ltb_late ((time w).0 - start) (late w (omega arith))))
  wait_loop-timeout remaining start k socket quiet late falls (suc (suc fuel)) w h =
      elim (Bool-cases (ltb ((time w).0 - start) 10)) [
        | inr over ↦ ((time w).1, rw over)
        | inl early ↦
            let w1 = sleep (has_activity socket (time w).1).1 in
            let (w', e) =
              wait_loop-timeout remaining start k socket quiet late falls fuel w1
                (omega (arith, falls w (still_early w early))) in
            (
              w',
              rw early (
                  ap
                    (λ b.
                      on_activity api os (λ t w2. wait_loop api os fuel true start k t w2)
                        (λ w2. wait_loop api os fuel false start k socket w2) k socket
                        (b, (has_activity socket (time w).1).1))
                    (quiet (time w).1)
                  ∙ e),
            )
      ]
    where
      still_early : (x : World) → ltb ((time x).0 - start) 10 ≡ true → 0 < remaining x
      still_early x early = ground (arith, late x)
