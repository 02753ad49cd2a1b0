-- ===== src/Server/Draining.antt =====
-- The loop of Server::HandleNewTCPConnections, while the thread of the listener adds connections
-- (server/Server.cpp, server/ConnectionListener.cpp).
use legendofstealth.Server.Listening.{arrived, drain_loop, Arrivals, real, tcp_rounds}
use legendofstealth.Server.Loop.{handle_new_tcp_connections, handle_socket}
use legendofstealth.Server.State.{Server}
use legendofstealth.Listener.{popped, has_new_connection, take_socket, Listener, tcp_round}
use legendofstealth.Server.Api.{SocketApi}
use legendofstealth.Prelude.{
  >>=_assoc, >>=_ext, length-append, true, ◌+◌, All-append, length, subst, append_assoc, lt→ltb,
  ◌<◌, ap, arith, All, ◌∙◌, ==_ne, append-nil, ◌>>=◌, zero, sym, done, [], ◌≡◌, ◌++◌, suc, ◌∷◌,
  List, ℕ, refl,
}

tcp_round-suc :
    (n : ℕ) (l : Listener) → (tcp_round (suc n) l).new_connections ≡ l.new_connections ++ suc n ∷ []
unfolding tcp_round
tcp_round-suc n l =
    rw (==_ne (suc n) 0 (λ e. absurd (omega arith)), lt→ltb 0 (suc n) (omega arith)) refl

tcp_rounds-real :
    (sockets : List ℕ) (l : Listener)
    → (tcp_rounds sockets l).new_connections ≡ l.new_connections ++ real sockets
unfolding tcp_round
tcp_rounds-real [] l = sym (append-nil l.new_connections)
tcp_rounds-real (zero ∷ xs) l = tcp_rounds-real xs l
tcp_rounds-real (suc n ∷ xs) l =
    tcp_rounds-real xs (tcp_round (suc n) l)
    ∙ ap (λ hs. hs ++ real xs) (tcp_round-suc n l)
    ∙ append_assoc l.new_connections (suc n ∷ []) (real xs)

real-All : (xs : List ℕ) → All (λ h. 0 < h) (real xs)
real-All [] = tt
real-All (zero ∷ xs) = real-All xs
real-All (suc n ∷ xs) = (omega arith, real-All xs)

tcp_rounds-All :
    (sockets : List ℕ) (l : Listener)
    → All (λ h. 0 < h) l.new_connections
    → All (λ h. 0 < h) (tcp_rounds sockets l).new_connections
tcp_rounds-All sockets l v =
    subst (All (λ h. 0 < h)) (sym (tcp_rounds-real sockets l))
      (All-append (λ h. 0 < h) l.new_connections (real sockets) v (real-All sockets))

-- The first connection of the queue, as HasNewConnection and GetNewSocket see it.
one_waits :
    (before : List ℕ) (l : Listener) (xs : List ℕ) (n : ℕ)
    → (tcp_rounds before l).new_connections ≡ suc n ∷ xs
    → has_new_connection (tcp_rounds before l) ≡ true
unfolding has_new_connection
one_waits before l xs n e = rw e (lt→ltb 0 (suc (length xs)) (omega arith))

module _ (a : Arrivals) (l : Listener) (xs : List ℕ) (n : ℕ)
    (e : (tcp_rounds a.before l).new_connections ≡ suc n ∷ xs) where
  queue_then :
      (tcp_rounds a.between (tcp_rounds a.before l)).new_connections
      ≡ suc n ∷ (xs ++ real a.between)
  queue_then = tcp_rounds-real a.between (tcp_rounds a.before l) ∙ ap (λ hs. hs ++ real a.between) e

  takes_first : take_socket (tcp_rounds a.between (tcp_rounds a.before l)) ≡ (
    suc n,
    record (tcp_rounds a.between (tcp_rounds a.before l)) {
      new_connections = xs ++ real a.between;
    },
  )
  unfolding take_socket
  takes_first = ap (λ q. popped q (tcp_rounds a.between (tcp_rounds a.before l))) queue_then

  first_is : l.new_connections ++ (real a.before ++ real a.between) ≡ suc n ∷ (xs ++ real a.between)
  first_is =
      sym (append_assoc l.new_connections (real a.before) (real a.between))
      ∙ ap (λ hs. hs ++ real a.between) (sym (tcp_rounds-real a.before l) ∙ e)

  later_All : All (λ h. 0 < h) l.new_connections → All (λ h. 0 < h) (xs ++ real a.between)
  later_All v =
      (subst (All (λ h. 0 < h)) queue_then
        (tcp_rounds-All a.between (tcp_rounds a.before l) (tcp_rounds-All a.before l v))).1

  fewer :
      (later : List Arrivals)
      → length l.new_connections + length (arrived (a ∷ later)) < length (a ∷ later)
      → length (xs ++ real a.between) + length (arrived later) < length later
  fewer later enough = omega (
    arith,
    ap length first_is,
    length-append l.new_connections (real a.before ++ real a.between),
    length-append (real a.before) (real a.between),
    length-append (real a.before) (real a.between ++ arrived later),
    length-append (real a.between) (arrived later),
  )

module _ (api : SocketApi) where
  open api use {World, Conn, adopt}

  -- What the loop of HandleNewTCPConnections does, with what arrives in its rounds: it handles the
  -- connections in `handled` and leaves the listener `l'`, and those in `missed` arrive after it.
  pub record Drained (arrivals : List Arrivals) (l : Listener) : Type 0 where
    pub handled : List ℕ
    pub missed : List ℕ
    pub left : Listener
    pub empty : left.new_connections ≡ []
    pub in_order : handled ++ missed ≡ l.new_connections ++ arrived arrivals
    pub does :
        (s : Server Conn) (w : World)
        → drain_loop api arrivals s l w
          ≡ (handle_new_tcp_connections api handled s w >>= λ r. done (r.0, left, r.1))

  Drained-nothing :
      (a : Arrivals) (later : List Arrivals) (l : Listener)
      → (tcp_rounds a.before l).new_connections ≡ []
      → Drained (a ∷ later) l
  unfolding drain_loop has_new_connection handle_new_tcp_connections
  Drained-nothing a later l e = record {
    handled = [];
    missed = real a.between ++ arrived later;
    left = tcp_rounds a.before l;
    empty = e;
    in_order =
        ap (λ hs. hs ++ (real a.between ++ arrived later)) (sym e ∙ tcp_rounds-real a.before l)
        ∙ append_assoc l.new_connections (real a.before) (real a.between ++ arrived later);
    does = λ s w. rw e refl;
  }

  Drained-one :
      (a : Arrivals) (later : List Arrivals) (l l' : Listener) (n : ℕ)
      → has_new_connection (tcp_rounds a.before l) ≡ true
      → take_socket (tcp_rounds a.between (tcp_rounds a.before l)) ≡ (suc n, l')
      → l.new_connections ++ (real a.before ++ real a.between) ≡ suc n ∷ l'.new_connections
      → Drained later l'
      → Drained (a ∷ later) l
  unfolding drain_loop handle_new_tcp_connections
  Drained-one a later l l' n waits takes order rest = record {
    handled = suc n ∷ rest.handled;
    missed = rest.missed;
    left = rest.left;
    empty = rest.empty;
    in_order =
        ap (λ hs. suc n ∷ hs) rest.in_order
        ∙ ap (λ hs. hs ++ arrived later) (sym order)
        ∙ append_assoc l.new_connections (real a.before ++ real a.between) (arrived later)
        ∙ ap (λ hs. l.new_connections ++ hs)
            (append_assoc (real a.before) (real a.between) (arrived later));
    does = λ s w.
        rw (waits, takes)
          (>>=_ext (adopt (suc n) w >>= handle_socket api s) _ _ (λ r. rest.does r.0 r.1)
            ∙ sym (
                >>=_assoc (adopt (suc n) w >>= handle_socket api s)
                  (λ r. handle_new_tcp_connections api rest.handled r.0 r.1)
                  (λ r. done (r.0, rest.left, r.1))));
  }

  pub drain :
      (arrivals : List Arrivals) (l : Listener)
      → All (λ h. 0 < h) l.new_connections
      → length l.new_connections + length (arrived arrivals) < length arrivals
      → Drained arrivals l
  drain [] l v enough = absurd (omega arith)
  drain (a ∷ later) l v enough =
      by_queue (λ l' v' enough'. drain later l' v' enough') (tcp_rounds a.before l).new_connections
        refl
    where
      by_queue :
          ((l' : Listener)
            → All (λ h. 0 < h) l'.new_connections
            → length l'.new_connections + length (arrived later) < length later
            → Drained later l')
          → (q : List ℕ) → (tcp_rounds a.before l).new_connections ≡ q
          → Drained (a ∷ later) l
      by_queue ih [] e = Drained-nothing a later l e
      by_queue ih (zero ∷ xs) e =
          absurd (omega (arith, (subst (All (λ h. 0 < h)) e (tcp_rounds-All a.before l v)).0))
      by_queue ih (suc n ∷ xs) e =
          Drained-one a later l _ n (one_waits a.before l xs n e) (takes_first a l xs n e)
            (first_is a l xs n e) (ih _ (later_All a l xs n e v) (fewer a l xs n e later enough))

  -- HandleNewTCPConnections while the thread of the listener adds connections, where those that wait
  -- are not NULL and the loop has more rounds than the connections that wait and arrive: it comes to
  -- the same, whether that returns or not, as handling the first ones of the connections that wait and
  -- arrive, in their order, as if they had all been there, and where that returns it leaves none
  -- waiting; the others of them arrive after it.
  pub drain_loop-handle :
      (arrivals : List Arrivals) (l : Listener) (s : Server Conn) (w : World)
      → All (λ h. 0 < h) l.new_connections
      → length l.new_connections + length (arrived arrivals) < length arrivals
      → (handled : List ℕ) × (missed : List ℕ) × (left : Listener) × (handled ++ missed
          ≡ l.new_connections ++ arrived arrivals)
        × (left.new_connections ≡ [])
        × (drain_loop api arrivals s l w
            ≡ (handle_new_tcp_connections api handled s w >>= λ r. done (r.0, left, r.1)))
  drain_loop-handle arrivals l s w v enough =
      let d = drain arrivals l v enough in
      (d.handled, d.missed, d.left, d.in_order, d.empty, d.does s w)
