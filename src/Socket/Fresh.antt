-- ===== src/Socket/Fresh.antt =====
-- What the constructors of Socket hand over (shared/Socket.cpp).
use legendofstealth.Socket.Open.{
  bind_udp, add_udp, blank_socket, from_peer, add_tcp, resolved, with_port, added, init_protocol,
  socket_of_tcp, socket_to_address, socket_to_host, init, create_udp, connect_tcp,
  create_socket_set,
}
use legendofstealth.Socket.State.{get_octal_ip, udp, tcp, is_connection_open, Socket, TlProtocol}
use legendofstealth.Net.{IpAddress, SdlNet}
use legendofstealth.Prelude.{
  sym, subst, none, ◌>>=◌, inr, some, inl, false, true, Ensures-bind, ◌==◌, [], Option, Bool-cases,
  Bool, ◌≡◌, Ensures, List, ℕ, refl,
}

module _ (net : SdlNet) where
  open net use {
    World, resolve_host, tcp_open, udp_open, tcp_add_socket, udp_add_socket, udp_bind,
    udp_own_address, alloc_socket_set, tcp_peer_address,
  }

  -- A socket with nothing in its queue, of the protocol that was asked for; over TCP it is open.
  pub record IsFresh (protocol : TlProtocol) (s : Socket) : Type 0 where
    pub kind : s.protocol ≡ protocol
    pub queue : s.pqueue ≡ []
    pub usable : protocol ≡ tcp → is_connection_open s ≡ true

  abbrev Fresh : TlProtocol → Socket × World → Type 0
  Fresh protocol r = IsFresh protocol r.0

  -- Before it is connected.
  abbrev Blank : TlProtocol → Socket × World → Type 0
  Blank protocol r = (r.0.protocol ≡ protocol) × (r.0.pqueue ≡ []) × (r.0.tcp_disconnect ≡ false)

  added-Fresh :
      (protocol : TlProtocol) (s : Socket) (r : Bool × World)
      → IsFresh protocol s
      → Ensures (Fresh protocol) (added net s r)
  added-Fresh protocol s (true, w) h = h
  added-Fresh protocol s (false, w) h = tt

  create_socket_set-Blank :
      (protocol : TlProtocol) (s : Socket) (w : World)
      → Blank protocol (s, w)
      → Ensures (Blank protocol) (create_socket_set net s w)
  unfolding create_socket_set
  create_socket_set-Blank protocol s w h = elim (Bool-cases (s.socket_set == 0)) [
    | inl new ↦ elim (Bool-cases ((alloc_socket_set w).0 == 0)) [
      | inl bad ↦ rw (new, bad) tt
      | inr good ↦ rw (new, good) h
    ]
    | inr old ↦ rw old h
  ]

  connect_tcp-Fresh :
      (s : Socket) (w : World) → Blank tcp (s, w) → Ensures (Fresh tcp) (connect_tcp net s w)
  unfolding connect_tcp is_connection_open
  connect_tcp-Fresh s w h = elim (Bool-cases ((tcp_open s.ip w).0 == 0)) [
    | inl bad ↦ rw bad tt
    | inr good ↦ rw good (record { kind = h.0; queue = h.1; usable = λ _. rw (h.2, good) })
  ]

  create_udp-Fresh :
      (s : Socket) (w : World) → Blank udp (s, w) → Ensures (Fresh udp) (create_udp net s w)
  unfolding create_udp
  create_udp-Fresh s w h =
      go (udp_own_address (udp_open s.udp_listen_port w).0 (udp_open s.udp_listen_port w).1)
    where
      go :
          (o : Option IpAddress)
          → Ensures (Fresh udp) (
              with_port net
                (record s { udp_handle = (udp_open s.udp_listen_port w).0 })
                o
                (udp_open s.udp_listen_port w).1)
      go none = tt
      go (some a) = record { kind = h.0; queue = h.1; usable = λ e. cc }

  init-Fresh :
      (protocol : TlProtocol) (s : Socket) (w : World)
      → Blank protocol (s, w)
      → Ensures (Fresh protocol) (init net s w)
  unfolding init
  init-Fresh protocol s w h =
      subst (λ q. Ensures (Fresh protocol) (create_socket_set net s w >>= init_protocol net q))
        (sym h.0)
        (Ensures-bind (Blank protocol) (Fresh protocol) (create_socket_set net s w)
          (init_protocol net protocol) (create_socket_set-Blank protocol s w h)
          (by_protocol protocol))
    where
      by_protocol :
          (q : TlProtocol) (r : Socket × World)
          → Blank q r
          → Ensures (Fresh q) (init_protocol net q r)
      by_protocol tcp (t, w1) b =
          Ensures-bind (Fresh tcp) (Fresh tcp) (connect_tcp net t w1) (add_tcp net)
            (connect_tcp-Fresh t w1 b) (λ r f. added-Fresh tcp r.0 _ f)
      by_protocol udp (t, w1) b =
          Ensures-bind (Fresh udp) (Fresh udp) (create_udp net t w1 >>= add_udp net) (bind_udp net)
            (Ensures-bind (Fresh udp) (Fresh udp) (create_udp net t w1) (add_udp net)
              (create_udp-Fresh t w1 b) (λ r f. added-Fresh udp r.0 _ f))
            (λ r f. added-Fresh udp r.0 _ f)

  -- The constructor that takes a host name: if it returns, its socket is of the protocol that was
  -- asked for, its queue is empty, and over TCP its connection counts as open.
  pub socket_to_host-Fresh :
      (protocol : TlProtocol) (hostname : List ℕ) (port listen : ℕ) (w : World)
      → Ensures (λ r. IsFresh protocol r.0) (socket_to_host net protocol hostname port listen w)
  unfolding socket_to_host
  socket_to_host-Fresh protocol hostname port listen w = found (resolve_host hostname port w)
    where
      found :
          (o : Option IpAddress × World)
          → Ensures (Fresh protocol) (resolved net protocol hostname listen o)
      found (none, w1) = tt
      found (some a, w1) =
          init-Fresh protocol (blank_socket net protocol hostname a listen) w1 (refl, refl, refl)

  pub socket_to_address-Fresh :
      (protocol : TlProtocol) (address : IpAddress) (listen : ℕ) (w : World)
      → Ensures (λ r. IsFresh protocol r.0) (socket_to_address net protocol address listen w)
  unfolding socket_to_address
  socket_to_address-Fresh protocol address listen w = init-Fresh protocol _ w (refl, refl, refl)

  -- The constructor that takes a connection: if it returns, the socket is a TCP socket with an empty
  -- queue, over that connection.
  pub socket_of_tcp-Fresh :
      (handle : ℕ) (w : World)
      → Ensures (λ r. (r.0.protocol ≡ tcp) × (r.0.pqueue ≡ [])) (socket_of_tcp net handle w)
  unfolding socket_of_tcp
  socket_of_tcp-Fresh handle w = found (tcp_peer_address handle w)
    where
      added_keeps :
          (s : Socket) (r : Bool × World)
          → Blank tcp (s, w)
          → Ensures (λ x. (x.0.protocol ≡ tcp) × (x.0.pqueue ≡ [])) (added net s r)
      added_keeps s (true, w1) b = (b.0, b.1)
      added_keeps s (false, w1) b = tt

      found :
          (o : Option IpAddress)
          → Ensures (λ r. (r.0.protocol ≡ tcp) × (r.0.pqueue ≡ [])) (from_peer net handle o w)
      found none = tt
      found (some a) =
          Ensures-bind (Blank tcp) _
            (create_socket_set net
              (record (blank_socket net tcp (get_octal_ip a.host) a 0) { tcp_handle = handle }) w)
            (add_tcp net)
            (create_socket_set-Blank tcp
              (record (blank_socket net tcp (get_octal_ip a.host) a 0) { tcp_handle = handle }) w
              (refl, refl, refl))
            (λ r b. added_keeps r.0 _ b)
