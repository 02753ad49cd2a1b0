-- ===== src/Server/Broadcast.antt =====
-- What Server::Broadcast does to the clients, against a description without an index
-- (server/Server.cpp).
use legendofstealth.Server.Informed.{
  push_after, open_step, let_go, set_here, informed, departures, here, Apart, past_end, midway,
}
use legendofstealth.Socket.State.{tcp}
use legendofstealth.Server.Kick.{
  map-push-nil, NoneAt-push, push-push, kick_client-middle, map-push-push, leave_bytes, push,
  NoneAt,
}
use legendofstealth.Server.State.{broadcast, broadcast_at, Result, Server, broadcast_loop}
use legendofstealth.Protocol.Packet.{serialize, Packet}
use legendofstealth.Server.Client.{add_packet_to_queue, delete_client, is_connected, Client}
use legendofstealth.Server.Api.{SocketApi}
use legendofstealth.Prelude.{
  ◌≢◌, All-append, length-map, sym, length-append, ap₂, true, false, set, get_elem?, zero, inr, inl,
  Bool-cases, suc, append_assoc, arith, ◌∙◌, map-append, All, ap, ◌≤◌, [], ◌≡◌, length, map, ◌++◌,
  ◌∷◌, List, ℕ, refl,
}

module _ (api : SocketApi) where
  open api use {World, Conn}

  -- One round, for a client that is connected.
  broadcast_open :
      (fuel : ℕ) (p : Packet) (s : Server Conn) (w : World) (passed : List (Client Conn))
      (before : List ℕ) (c : Client Conn) (todo : List (Client Conn))
      → is_connected api c ≡ true
      → s.clients ≡ midway api passed before (c ∷ todo)
      → broadcast_loop api (suc fuel) (length passed) tcp p s w
        ≡ broadcast_loop api fuel
            (length (passed ++ push (before ++ serialize p) c ∷ []))
            tcp
            p
            (record s {
              clients = midway api (passed ++ push (before ++ serialize p) c ∷ []) before todo;
            })
            w
  unfolding broadcast_loop add_packet_to_queue is_connected
  broadcast_open fuel p s w passed before c todo on e =
      ap (λ l. broadcast_at api again (length passed) tcp p s w (get_elem? l (length passed))) e
      ∙ ap (broadcast_at api again (length passed) tcp p s w) (here api passed before c todo)
      ∙ rw on (
          ap₂ (λ l i. broadcast_loop api fuel i tcp p (record s { clients = l }) w)
            (ap (λ l. set l (length passed) (push (serialize p) (push before c))) e
              ∙ set_here api passed (push before c) (push (serialize p) (push before c))
                  (map (push before) todo)
              ∙ ap (λ x. (passed ++ x ∷ []) ++ map (push before) todo)
                  (push-push before (serialize p) c))
            (omega (arith, length-append passed (push (before ++ serialize p) c ∷ []))))
    where
      again : ℕ → Server Conn → World → Result api
      again j s' w' = broadcast_loop api fuel j tcp p s' w'

  -- One round, for a client that is not.
  broadcast_closed :
      (fuel : ℕ) (p : Packet) (s : Server Conn) (w : World) (passed : List (Client Conn))
      (before : List ℕ) (c : Client Conn) (todo : List (Client Conn))
      → is_connected api c ≡ false
      → NoneAt c.ptr passed
      → NoneAt c.ptr todo
      → s.clients ≡ midway api passed before (c ∷ todo)
      → broadcast_loop api (suc fuel) (length passed) tcp p s w
        ≡ broadcast_loop api fuel
            (length (map (push (leave_bytes c)) passed))
            tcp
            p
            (record s {
              clients =
                  midway api (map (push (leave_bytes c)) passed) (before ++ leave_bytes c) todo;
            })
            (delete_client api c w)
  unfolding broadcast_loop is_connected delete_client
  broadcast_closed fuel p s w passed before c todo off hp ht e =
      ap (λ l. broadcast_at api again (length passed) tcp p s w (get_elem? l (length passed))) e
      ∙ ap (broadcast_at api again (length passed) tcp p s w) (here api passed before c todo)
      ∙ rw off (
          ap (λ (r : Result api). broadcast_loop api fuel (length passed) tcp p r.0 r.1)
            (kick_client-middle api s passed (map (push before) todo) (push before c)
              (push before c) w e refl hp (NoneAt-push c.ptr before todo ht))
          ∙ ap₂
              (λ l i.
                broadcast_loop api fuel i tcp p (record s { clients = l }) (delete_client api c w))
              (map-append (push (leave_bytes c)) passed (map (push before) todo)
                ∙ ap (λ l. map (push (leave_bytes c)) passed ++ l)
                    (map-push-push before (leave_bytes c) todo))
              (sym (length-map (push (leave_bytes c)) passed)))
    where
      again : ℕ → Server Conn → World → Result api
      again j s' w' = broadcast_loop api fuel j tcp p s' w'

  loop_end :
      (fuel : ℕ) (p : Packet) (s : Server Conn) (w : World) (passed : List (Client Conn))
      → s.clients ≡ passed ++ []
      → broadcast_loop api fuel (length passed) tcp p s w ≡ (record s { clients = passed ++ [] }, w)
  unfolding broadcast_loop
  loop_end zero p s w passed e = ap (λ l. (record s { clients = l }, w)) e
  loop_end (suc fuel) p s w passed e =
      ap (λ l. broadcast_at api again (length passed) tcp p s w (get_elem? l (length passed))) e
      ∙ ap (broadcast_at api again (length passed) tcp p s w) (past_end api passed)
      ∙ ap (λ l. (record s { clients = l }, w)) e
    where
      again : ℕ → Server Conn → World → Result api
      again j s' w' = broadcast_loop api fuel j tcp p s' w'

  pub NoneAt-passed :
      (passed : List (Client Conn)) (x : Client Conn) (todo : List (Client Conn))
      → All (λ c. NoneAt c.ptr passed) todo
      → NoneAt x.ptr todo
      → All (λ c. NoneAt c.ptr (passed ++ x ∷ [])) todo
  NoneAt-passed passed x [] h n = tt
  NoneAt-passed passed x (c ∷ todo) h n = (
    All-append (λ d. d.ptr ≢ c.ptr) passed (x ∷ []) h.0 ((λ e. n.0 (sym e)), tt),
    NoneAt-passed passed x todo h.1 n.1,
  )

  pub NoneAt-map-push :
      (b : List ℕ) (passed todo : List (Client Conn))
      → All (λ c. NoneAt c.ptr passed) todo
      → All (λ c. NoneAt c.ptr (map (push b) passed)) todo
  NoneAt-map-push b passed [] h = tt
  NoneAt-map-push b passed (c ∷ todo) h =
      (NoneAt-push c.ptr b passed h.0, NoneAt-map-push b passed todo h.1)

  loop-informed :
      (fuel : ℕ) (p : Packet) (s : Server Conn) (w : World) (passed : List (Client Conn))
      (before : List ℕ) (todo : List (Client Conn))
      → length todo ≤ fuel
      → All (λ c. NoneAt c.ptr passed) todo
      → Apart todo
      → s.clients ≡ midway api passed before todo
      → broadcast_loop api fuel (length passed) tcp p s w ≡ (
        record s {
          clients = map (push (departures api todo)) passed ++ informed api before p todo;
        },
        let_go api todo w,
      )
  loop-informed fuel p s w passed before [] h hp apart e =
      loop_end fuel p s w passed e
      ∙ ap (λ l. (record s { clients = l ++ [] }, w)) (sym (map-push-nil passed))
  loop-informed zero p s w passed before (c ∷ todo) h hp apart e = absurd (omega arith)
  loop-informed (suc fuel) p s w passed before (c ∷ todo) h hp apart e =
      elim (Bool-cases (is_connected api c)) [
        | inl on ↦
            let x = push (before ++ serialize p) c in
            broadcast_open fuel p s w passed before c todo on e
            ∙ loop-informed fuel p
                (record s { clients = midway api (passed ++ x ∷ []) before todo }) w
                (passed ++ x ∷ []) before todo (omega arith)
                (NoneAt-passed passed x todo hp.1 apart.0) apart.1 refl
            ∙ rw on (
                ap (λ l. (record s { clients = l }, let_go api todo w))
                  (open_step api passed x (departures api todo) (informed api before p todo)
                    ∙ ap
                        (λ y.
                          map (push (departures api todo)) passed
                          ++ (y ∷ informed api before p todo))
                        (push-push (before ++ serialize p) (departures api todo) c
                          ∙ ap (λ q. push q c)
                              (append_assoc before (serialize p) (departures api todo)))))
        | inr off ↦
            let lc = leave_bytes c in
            broadcast_closed fuel p s w passed before c todo off hp.0 apart.0 e
            ∙ loop-informed fuel p
                (record s { clients = midway api (map (push lc) passed) (before ++ lc) todo })
                (delete_client api c w) (map (push lc) passed) (before ++ lc) todo (omega arith)
                (NoneAt-map-push lc passed todo hp.1) apart.1 refl
            ∙ rw off (
                ap (λ l. (record s { clients = l }, let_go api todo (delete_client api c w)))
                  (push_after api lc (departures api todo) passed
                    (informed api (before ++ lc) p todo)))
      ]

  pub NoneAt-nil : (cs : List (Client Conn)) → All (λ c. NoneAt {C = Conn} c.ptr []) cs
  NoneAt-nil [] = tt
  NoneAt-nil (c ∷ cs) = (tt, NoneAt-nil cs)

  -- Broadcast over TCP, for clients at distinct addresses: the clients whose connection is closed
  -- are gone and their sockets deleted, in order; the others keep their order, and each has at the
  -- end of its TCP queue, in this order, the departures of the closed clients that stood before it,
  -- the packet once, and the departures of those that stood behind it. Nothing else changes.
  pub broadcast-informed :
      (p : Packet) (s : Server Conn) (w : World)
      → Apart s.clients
      → broadcast api tcp p s w
        ≡ (record s { clients = informed api [] p s.clients }, let_go api s.clients w)
  unfolding broadcast
  broadcast-informed p s w apart =
      loop-informed (length s.clients) p s w [] [] s.clients (omega arith) (NoneAt-nil s.clients)
        apart (sym (map-push-nil s.clients))
