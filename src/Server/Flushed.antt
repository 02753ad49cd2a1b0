-- ===== src/Server/Flushed.antt =====
-- The loop of Server::FlushClientPacketQueues to its end (server/Server.cpp).
use legendofstealth.Server.Informed.{let_go, departures, past_end, set_here, Apart}
use legendofstealth.Server.Kick.{
  map-push-nil, kick_client-middle, leave_bytes, NoneAt-push, push, NoneAt,
}
use legendofstealth.Server.Flush.{
  connected_of, can_flush, send_queues-idle, flushed-kick, is_idle, flushed,
}
use legendofstealth.Server.Broadcast.{NoneAt-passed, NoneAt-nil}
use legendofstealth.Server.Client.{is_connected, delete_client, Client}
use legendofstealth.Server.Loop.{
  send_queues, flush_sent, flush_at, flush_client_packet_queues, flush_loop,
}
use legendofstealth.Server.State.{kick_client, Server, Result}
use legendofstealth.Server.Api.{SocketApi}
use legendofstealth.Prelude.{
  faults, not, done, if◌then◌else◌, ◌>>=◌, Outcome, inr, zero, false, get_elem?-append,
  append_assoc, map-append, inl, length-map, get_elem?, length-append, ap, Bool-cases, set, suc,
  some, true, arith, ◌∙◌, ◌≡◌, ◌++◌, [], sym, ◌≤◌, length, ◌∷◌, map, All, List, ℕ, refl,
}

module _ (api : SocketApi) where
  open api use {World, Conn}

  -- The part of the list that the loop has still to serve, behind the part that it has served.
  record Halfway (passed todo : List (Client Conn)) : Type 0 where
    others : All (λ c. NoneAt c.ptr passed) todo
    apart : Apart todo

  Apart-push : (b : List ℕ) (cs : List (Client Conn)) → Apart cs → Apart (map (push b) cs)
  Apart-push b [] h = tt
  Apart-push b (c ∷ cs) h = (NoneAt-push c.ptr b cs h.0, Apart-push b cs h.1)

  NoneAt-todo :
      (b : List ℕ) (passed todo : List (Client Conn))
      → All (λ c. NoneAt c.ptr passed) todo
      → All (λ c. NoneAt c.ptr (map (push b) passed)) (map (push b) todo)
  NoneAt-todo b passed [] h = tt
  NoneAt-todo b passed (c ∷ todo) h =
      (NoneAt-push c.ptr b passed h.0, NoneAt-todo b passed todo h.1)

  Halfway-kick :
      (passed todo : List (Client Conn)) (c : Client Conn)
      → Halfway passed (c ∷ todo)
      → Halfway (map (push (leave_bytes c)) passed) (map (push (leave_bytes c)) todo)
  Halfway-kick passed todo c h = record {
    others = NoneAt-todo (leave_bytes c) passed todo h.others.1;
    apart = Apart-push (leave_bytes c) todo h.apart.1;
  }

  Halfway-next :
      (passed todo : List (Client Conn)) (c : Client Conn)
      → Halfway passed (c ∷ todo)
      → Halfway (passed ++ c ∷ []) todo
  Halfway-next passed todo c h = record {
    others = NoneAt-passed api passed c todo h.others.1 h.apart.0;
    apart = h.apart.1;
  }

  abbrev Again : Type 0
  Again = ℕ → Server Conn → World → Outcome (Result api)

  -- What the rest of the loop does, wherever it starts.
  abbrev Finishes : Again → ℕ → Type 0
  Finishes again n =
      (passed todo : List (Client Conn)) (t : Server Conn) (w : World)
      → length todo ≤ n
      → Halfway passed todo
      → t.clients ≡ passed ++ todo
      → again (length passed) t w ≡ flushed api t passed todo w

  -- The loop goes on after a kick of the client at hand.
  after_kick :
      (again : Again) (n : ℕ) (passed todo : List (Client Conn)) (c : Client Conn) (t : Server Conn)
      (w : World)
      → Finishes again n
      → length todo ≤ n
      → Halfway passed (c ∷ todo)
      → t.clients ≡ passed ++ c ∷ todo
      → is_connected api c ≡ false
      → again (length passed) (kick_client api (some c) t w).0 (kick_client api (some c) t w).1
        ≡ flushed api t passed (c ∷ todo) w
  after_kick again n passed todo c t w finish h half e off =
      ap (λ (r : Result api). again (length passed) r.0 r.1)
        (kick_client-middle api t passed todo c c w e refl half.others.0 half.apart.0)
      ∙ ap (λ i. again i t' (delete_client api c w))
          (sym (length-map (push (leave_bytes c)) passed))
      ∙ finish (map (push (leave_bytes c)) passed) (map (push (leave_bytes c)) todo) t'
          (delete_client api c w) (omega (arith, length-map (push (leave_bytes c)) todo))
          (Halfway-kick passed todo c half) (map-append (push (leave_bytes c)) passed todo)
      ∙ flushed-kick api t passed todo c w off
    where
      t' : Server Conn
      t' = record t { clients = map (push (leave_bytes c)) (passed ++ todo) }

  -- The loop goes on after sending to a connected client, or has faulted.
  after_send :
      (again : Again) (n : ℕ) (passed todo : List (Client Conn)) (c : Client Conn) (t : Server Conn)
      (w : World)
      → Finishes again n
      → length todo ≤ n
      → Halfway passed (c ∷ todo)
      → t.clients ≡ passed ++ c ∷ todo
      → is_connected api c ≡ true
      → (send_queues api c w >>= flush_sent api again (length passed) t)
        ≡ flushed api t passed (c ∷ todo) w
  after_send again n passed todo c t w finish h half e on = elim (Bool-cases (is_idle c)) [
    | inl idle ↦
        rw (send_queues-idle api c w, idle, on)
          (ap (λ i. again i t' w) (omega (arith, length-append passed (c ∷ [])))
            ∙ finish (passed ++ c ∷ []) todo t' w h (Halfway-next passed todo c half)
                (ap (λ l. set l (length passed) c) e ∙ set_here api passed c c todo)
            ∙ ap
                (λ l.
                  if can_flush api false todo
                  then done
                      (record t { clients = map (push (departures api todo)) l }, let_go api todo w)
                  else faults)
                (append_assoc passed (c ∷ []) (connected_of api todo)))
    | inr busy ↦ rw (send_queues-idle api c w, busy, on) refl
  ]
    where
      t' : Server Conn
      t' = record t { clients = set t.clients (length passed) c }

  flush_step :
      (again : Again) (n : ℕ) (passed todo : List (Client Conn)) (c : Client Conn) (t : Server Conn)
      (w : World)
      → Finishes again n
      → length todo ≤ n
      → Halfway passed (c ∷ todo)
      → t.clients ≡ passed ++ c ∷ todo
      → flush_at api again (length passed) t w (some c) ≡ flushed api t passed (c ∷ todo) w
  flush_step again n passed todo c t w finish h half e = elim (Bool-cases (is_connected api c)) [
    | inl on ↦
        ap
          (λ b.
            if not b
            then again (length passed) (kick_client api (some c) t w).0
                (kick_client api (some c) t w).1
            else send_queues api c w >>= flush_sent api again (length passed) t)
          on
        ∙ after_send again n passed todo c t w finish h half e on
    | inr off ↦
        ap
          (λ b.
            if not b
            then again (length passed) (kick_client api (some c) t w).0
                (kick_client api (some c) t w).1
            else send_queues api c w >>= flush_sent api again (length passed) t)
          off
        ∙ after_kick again n passed todo c t w finish h half e off
  ]

  all_passed :
      (passed : List (Client Conn)) (t : Server Conn) (w : World)
      → t.clients ≡ passed ++ []
      → done (t, w) ≡ flushed api t passed [] w
  all_passed passed t w e =
      ap (λ l. done (record t { clients = l }, w)) (e ∙ sym (map-push-nil (passed ++ [])))

  flush_loop-flushed : (fuel : ℕ) → Finishes (λ i t w. flush_loop api fuel i t w) fuel
  unfolding flush_loop
  flush_loop-flushed zero passed [] t w h half e = all_passed passed t w e
  flush_loop-flushed zero passed (c ∷ todo) t w h half e = absurd (omega arith)
  flush_loop-flushed (suc fuel) passed [] t w h half e =
      ap (flush_at api (λ j s' w'. flush_loop api fuel j s' w') (length passed) t w)
        (ap (λ l. get_elem? l (length passed)) e ∙ past_end api passed)
      ∙ all_passed passed t w e
  flush_loop-flushed (suc fuel) passed (c ∷ todo) t w h half e =
      ap (flush_at api (λ j s' w'. flush_loop api fuel j s' w') (length passed) t w)
        (ap (λ l. get_elem? l (length passed)) e ∙ get_elem?-append passed todo c)
      ∙ flush_step (λ j s' w'. flush_loop api fuel j s' w') fuel passed todo c t w
          (flush_loop-flushed fuel) (omega arith) half e

  -- FlushClientPacketQueues, for clients at distinct addresses: it returns exactly where no connected
  -- client has anything in its queues or stands behind a client that is not connected. Then the
  -- clients that are not connected are gone, their sockets are deleted in order, and the others have
  -- in their order their departures in the TCP queue. Otherwise a queue is sent whose storage
  -- SendPacket deletes, which is a fault.
  pub flush-flushed :
      (s : Server Conn) (w : World)
      → Apart s.clients
      → flush_client_packet_queues api s w ≡ (
          if can_flush api false s.clients
          then done (
            record s {
              clients = map (push (departures api s.clients)) (connected_of api s.clients);
            },
            let_go api s.clients w,
          )
          else faults)
  unfolding flush_client_packet_queues
  flush-flushed s w apart =
      flush_loop-flushed (length s.clients) [] s.clients s w (omega arith)
        (record { others = NoneAt-nil api s.clients; apart = apart }) refl
