-- ===== src/Server/Shrinking.antt =====
-- Kicking, broadcasting and flushing only take clients out of the list and change queues
-- (server/Server.cpp, server/Client.cpp).
use legendofstealth.Server.Thinning.{
  erased-Thinned, kick_loop-Thinned, Same-queue, set-Thinned, Thinned-trans, Thins-trans,
  Thinned-Thins, Same-trans, Same-queues, Same-refl, Thins-refl, Same, Thins,
}
use legendofstealth.Prelude.{
  Ensures-mono, Ensures-bind, Outcome, Ensures, none, inr, ◌+◌, inl, zero, true, Bool-cases, false,
  [], ◌∷◌, suc, ◌≡◌, some, length, get_elem?, Bool, List, ℕ, Option, refl,
}
use legendofstealth.Server.Loop.{
  flush_sent, flush_at, udp_after_tcp, flush_client_packet_queues, flush_loop, send_queues,
}
use legendofstealth.Protocol.Packet.{Packet}
use legendofstealth.Socket.State.{udp, tcp, TlProtocol}
use legendofstealth.Server.Api.{SocketApi}
use legendofstealth.Server.State.{
  player_did_leave, broadcast_at, broadcast, broadcast_loop, Result, kick_client, Server, kick_loop,
}
use legendofstealth.Server.Client.{is_connected, send_packet_queue, queue_sent, Client}

module _ (api : SocketApi) where
  open api use {World, Conn}

  pub kick_client-Thins :
      (o : Option (Client Conn)) (s : Server Conn) (w : World) → Thins s (kick_client api o s w).0
  unfolding kick_client
  kick_client-Thins none s w = Thins-refl s
  kick_client-Thins (some c) s w = Thinned-Thins s _ (
      Thinned-trans (kick_loop-Thinned c.ptr (player_did_leave c.player_id) 0 s.clients none)
        (erased-Thinned (kick_loop c.ptr (player_did_leave c.player_id) 0 s.clients none)))

  broadcast_at-Thins :
      (again : ℕ → Server Conn → World → Result api) (i : ℕ) (proto : TlProtocol) (p : Packet)
      (s : Server Conn) (w : World) (o : Option (Client Conn))
      → ((j : ℕ) (t : Server Conn) (w' : World) → Thins t (again j t w').0)
      → get_elem? s.clients i ≡ o
      → Thins s (broadcast_at api again i proto p s w o).0
  broadcast_at-Thins again i proto p s w none ih e = Thins-refl s
  broadcast_at-Thins again i proto p s w (some c) ih e = elim (Bool-cases (is_connected api c)) [
    | inl on ↦ rw on (
        Thins-trans (Thinned-Thins s _ (set-Thinned s.clients i c _ e (Same-queue proto p c)))
          (ih (i + 1) _ w))
    | inr off ↦ rw off (Thins-trans (kick_client-Thins (some c) s w) (ih i _ _))
  ]

  broadcast_loop-Thins :
      (fuel i : ℕ) (proto : TlProtocol) (p : Packet) (s : Server Conn) (w : World)
      → Thins s (broadcast_loop api fuel i proto p s w).0
  unfolding broadcast_loop
  broadcast_loop-Thins zero i proto p s w = Thins-refl s
  broadcast_loop-Thins (suc fuel) i proto p s w =
      broadcast_at-Thins (λ j t w'. broadcast_loop api fuel j proto p t w') i proto p s w
        (get_elem? s.clients i) (λ j t w'. broadcast_loop-Thins fuel j proto p t w') refl

  pub broadcast-Thins :
      (proto : TlProtocol) (p : Packet) (s : Server Conn) (w : World)
      → Thins s (broadcast api proto p s w).0
  unfolding broadcast
  broadcast-Thins proto p s w = broadcast_loop-Thins (length s.clients) 0 proto p s w

  queue_sent-Same :
      (bytes : List ℕ) (socket : Conn) (c d : Client Conn) (w : World)
      → Same c d
      → Ensures (λ r. Same c r.1) (queue_sent api bytes socket c d w)
  queue_sent-Same [] socket c d w h = Same-refl c
  queue_sent-Same (b ∷ bytes) socket c d w h = rw (api.send_bytes-faults socket (b ∷ bytes) w) tt

  send_packet_queue-Same :
      (proto : TlProtocol) (c : Client Conn) (w : World)
      → Ensures (λ r. Same c r.1) (send_packet_queue api proto c w)
  unfolding send_packet_queue
  send_packet_queue-Same udp c w =
      queue_sent-Same c.udp_queue c.udp_socket c _ w (Same-queues c c.tcp_queue [])
  send_packet_queue-Same tcp c w =
      queue_sent-Same c.tcp_queue c.tcp_socket c _ w (Same-queues c [] c.udp_queue)

  udp_after_tcp-Same :
      (c : Client Conn) (r : Bool × Client Conn × World)
      → Same c r.1
      → Ensures (λ t. Same c t.1) (udp_after_tcp api r)
  udp_after_tcp-Same c (false, d, w) h = h
  udp_after_tcp-Same c (true, d, w) h =
      Ensures-mono (λ t. Same d t.1) (λ t. Same c t.1) (send_packet_queue api udp d w)
        (send_packet_queue-Same udp d w) (λ t k. Same-trans h k)

  pub send_queues-Same :
      (c : Client Conn) (w : World) → Ensures (λ r. Same c r.1) (send_queues api c w)
  unfolding send_queues
  send_queues-Same c w =
      Ensures-bind (λ r. Same c r.1) (λ r. Same c r.1) (send_packet_queue api tcp c w)
        (udp_after_tcp api) (send_packet_queue-Same tcp c w) (λ r h. udp_after_tcp-Same c r h)

  -- Where a flush returns, it has only thinned the clients.
  abbrev ThinsTo : Server Conn → Outcome (Result api) → Type 0
  ThinsTo s o = Ensures (λ r. Thins s r.0) o

  ThinsTo-trans :
      {s t : Server Conn} (o : Outcome (Result api)) → Thins s t → ThinsTo t o → ThinsTo s o
  ThinsTo-trans {s} {t} o h k =
      Ensures-mono (λ r. Thins t r.0) (λ r. Thins s r.0) o k (λ r l. Thins-trans h l)

  abbrev Again : Type 0
  Again = ℕ → Server Conn → World → Outcome (Result api)

  flush_sent-Thins :
      (again : Again) (i : ℕ) (s : Server Conn) (c : Client Conn) (r : Bool × Client Conn × World)
      → ((j : ℕ) (t : Server Conn) (w' : World) → ThinsTo t (again j t w'))
      → get_elem? s.clients i ≡ some c
      → Same c r.1
      → ThinsTo s (flush_sent api again i s r)
  flush_sent-Thins again i s c (true, d, w) ih e h =
      ThinsTo-trans _ (Thinned-Thins s _ (set-Thinned s.clients i c d e h)) (ih (i + 1) _ w)
  flush_sent-Thins again i s c (false, d, w) ih e h =
      ThinsTo-trans _ (Thinned-Thins s _ (set-Thinned s.clients i c d e h))
        (ThinsTo-trans _ (kick_client-Thins (some d) _ w) (ih i _ _))

  flush_at-Thins :
      (again : Again) (i : ℕ) (s : Server Conn) (w : World) (o : Option (Client Conn))
      → ((j : ℕ) (t : Server Conn) (w' : World) → ThinsTo t (again j t w'))
      → get_elem? s.clients i ≡ o
      → ThinsTo s (flush_at api again i s w o)
  flush_at-Thins again i s w none ih e = Thins-refl s
  flush_at-Thins again i s w (some c) ih e = elim (Bool-cases (is_connected api c)) [
    | inl on ↦ rw on (
        Ensures-bind (λ r. Same c r.1) (λ r. Thins s r.0) (send_queues api c w)
          (flush_sent api again i s) (send_queues-Same c w)
          (λ r h. flush_sent-Thins again i s c r ih e h))
    | inr off ↦ rw off (ThinsTo-trans _ (kick_client-Thins (some c) s w) (ih i _ _))
  ]

  flush_loop-Thins :
      (fuel i : ℕ) (s : Server Conn) (w : World) → ThinsTo s (flush_loop api fuel i s w)
  unfolding flush_loop
  flush_loop-Thins zero i s w = Thins-refl s
  flush_loop-Thins (suc fuel) i s w =
      flush_at-Thins (λ j t w'. flush_loop api fuel j t w') i s w (get_elem? s.clients i)
        (λ j t w'. flush_loop-Thins fuel j t w') refl

  pub flush-Thins :
      (s : Server Conn) (w : World)
      → Ensures (λ r. Thins s r.0) (flush_client_packet_queues api s w)
  unfolding flush_client_packet_queues
  flush-Thins s w = flush_loop-Thins (length s.clients) 0 s w
