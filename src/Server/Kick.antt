-- ===== src/Server/Kick.antt =====
-- What Server::KickClient leaves of the list of clients (server/Server.cpp).
use legendofstealth.Protocol.Packet.{Packet, serialize}
use legendofstealth.Server.Api.{SocketApi}
use legendofstealth.Server.State.{erased, Server, player_did_leave, kick_client, kick_loop}
use legendofstealth.Server.Client.{delete_client, add_packet_to_queue, Client}
use legendofstealth.Prelude.{
  map-append, sym, erase_at-append, length-map, erase_at, arith, ◌∙◌, none, ==_of_eq, length, ◌+◌,
  some, ==_ne, ap₂, append-nil, append_assoc, ◌∷◌, ap, ◌≢◌, Option, map, [], ◌≡◌, All, ◌++◌, List,
  ℕ, refl,
}

-- Bytes put at the end of a client's TCP queue.
abbrev pub push : {C : Type 0} → List ℕ → Client C → Client C
push bytes c = record c { tcp_queue = c.tcp_queue ++ bytes }

-- What the others are sent when a client leaves.
abbrev pub leave_bytes : {C : Type 0} → Client C → List ℕ
leave_bytes c = serialize (player_did_leave c.player_id)

-- No client of the list stands at the address.
abbrev pub NoneAt : {C : Type 0} → ℕ → List (Client C) → Type 0
NoneAt ptr cs = All (λ c. c.ptr ≢ ptr) cs

pub push-push : {C : Type 0} (a b : List ℕ) (c : Client C) → push b (push a c) ≡ push (a ++ b) c
push-push a b c = ap (λ q. record c { tcp_queue = q }) (append_assoc c.tcp_queue a b)

pub push-nil : {C : Type 0} (c : Client C) → push [] c ≡ c
push-nil c = ap (λ q. record c { tcp_queue = q }) (append-nil c.tcp_queue)

module _ {C : Type 0} where
  pub map-push-push :
      (a b : List ℕ) (cs : List (Client C))
      → map (push b) (map (push a) cs) ≡ map (push (a ++ b)) cs
  map-push-push a b [] = refl
  map-push-push a b (c ∷ cs) = ap₂ ◌∷◌ (push-push a b c) (map-push-push a b cs)

  pub map-push-nil : (cs : List (Client C)) → map (push []) cs ≡ cs
  map-push-nil [] = refl
  map-push-nil (c ∷ cs) = ap₂ ◌∷◌ (push-nil c) (map-push-nil cs)

  pub NoneAt-push :
      (p : ℕ) (a : List ℕ) (cs : List (Client C)) → NoneAt p cs → NoneAt p (map (push a) cs)
  NoneAt-push p a [] h = tt
  NoneAt-push p a (c ∷ cs) h = (h.0, NoneAt-push p a cs h.1)

  abbrev kick_cons : Client C → List (Client C) × Option ℕ → List (Client C) × Option ℕ
  kick_cons c r = (c ∷ r.0, r.1)

  kick_loop_none :
      (t : ℕ) (leave : Packet) (i : ℕ) (cs : List (Client C)) (k : Option ℕ)
      → NoneAt t cs
      → kick_loop t leave i cs k ≡ (map (push (serialize leave)) cs, k)
  unfolding kick_loop add_packet_to_queue
  kick_loop_none t leave i [] k h = refl
  kick_loop_none t leave i (c ∷ cs) k h =
      rw (==_ne c.ptr t h.0)
        (ap (kick_cons (push (serialize leave) c)) (kick_loop_none t leave (i + 1) cs k h.1))

  kick_loop_at :
      (t : ℕ) (leave : Packet) (i : ℕ) (front : List (Client C)) (c : Client C)
      (back : List (Client C)) (k : Option ℕ)
      → NoneAt t front
      → c.ptr ≡ t
      → NoneAt t back
      → kick_loop t leave i (front ++ c ∷ back) k ≡ (
        map (push (serialize leave)) front ++ c ∷ map (push (serialize leave)) back,
        some (i + length front),
      )
  unfolding kick_loop add_packet_to_queue
  kick_loop_at t leave i [] c back k hf e hb = rw (==_of_eq c.ptr t e) (
      ap (kick_cons c) (kick_loop_none t leave (i + 1) back (some i) hb)
      ∙ ap (λ n. (c ∷ map (push (serialize leave)) back, some n)) (omega arith))
  kick_loop_at t leave i (d ∷ front) c back k hf e hb = rw (==_ne d.ptr t hf.0) (
      ap (kick_cons (push (serialize leave) d))
        (kick_loop_at t leave (i + 1) front c back k hf.1 e hb)
      ∙ ap
          (λ n. (
            push (serialize leave) d
                ∷ (map (push (serialize leave)) front ++ c ∷ map (push (serialize leave)) back),
            some n,
          ))
          (omega arith))

module _ (api : SocketApi) where
  open api use {World, Conn}

  -- KickClient of a client, where exactly one client of the list stands at its address: the others
  -- keep their order, each gets the packet that tells of the departure at the end of its TCP
  -- queue, that client is gone from the list, and the sockets of the kicked client are deleted.
  -- Nothing else changes.
  pub kick_client-middle :
      (s : Server Conn) (front back : List (Client Conn)) (c d : Client Conn) (w : World)
      → s.clients ≡ front ++ d ∷ back
      → d.ptr ≡ c.ptr
      → NoneAt c.ptr front
      → NoneAt c.ptr back
      → kick_client api (some c) s w
        ≡ (record s { clients = map (push (leave_bytes c)) (front ++ back) }, delete_client api c w)
  unfolding kick_client
  kick_client-middle s front back c d w e at hf hb =
      ap (λ l. (record s { clients = l }, delete_client api c w))
        (ap (λ l. erased (kick_loop c.ptr (player_did_leave c.player_id) 0 l none)) e
          ∙ ap erased
              (kick_loop_at c.ptr (player_did_leave c.player_id) 0 front d back none hf at hb)
          ∙ ap (erase_at (pushed front ++ d ∷ pushed back))
              (omega (arith, length-map (push (leave_bytes c)) front))
          ∙ erase_at-append (pushed front) (pushed back) d
          ∙ sym (map-append (push (leave_bytes c)) front back))
    where
      pushed : List (Client Conn) → List (Client Conn)
      pushed = map (push (leave_bytes c))
