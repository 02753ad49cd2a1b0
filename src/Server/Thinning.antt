-- ===== src/Server/Thinning.antt =====
-- Kicking, broadcasting and flushing remove clients and change queues, and do nothing else to the
-- server (server/Server.cpp).
use legendofstealth.Protocol.Packet.{Packet}
use legendofstealth.Socket.State.{udp, tcp, TlProtocol}
use legendofstealth.Server.State.{erased, Server, kick_loop}
use legendofstealth.Server.Client.{add_packet_to_queue, Client}
use mathlib.Core.Option.{some_inj}
use legendofstealth.Prelude.{
  sym, true, subst, ◌+◌, false, none, zero, set, ◌==◌, arith, some, suc, if◌then◌else◌, ◌≤◌, Bool,
  get_elem?, Option, erase_at, All, length, ◌∷◌, ◌∙◌, [], ◌≡◌, List, ℕ, refl,
}

-- The same client, but for its queues.
pub record Same {C : Type 0} (c d : Client C) : Type 0 where
  pub ptr : d.ptr ≡ c.ptr
  pub player_id : d.player_id ≡ c.player_id
  pub team : d.team ≡ c.team
  pub tcp_socket : d.tcp_socket ≡ c.tcp_socket
  pub udp_socket : d.udp_socket ≡ c.udp_socket
  pub udp_port : d.udp_port ≡ c.udp_port

-- The second list is the first one with clients left out and queues changed.
pub data Thinned {C : Type 0} : List (Client C) → List (Client C) → Type 0 where
  end : Thinned [] []
  keep :
      {c d : Client C} {cs ds : List (Client C)}
      → Same c d
      → Thinned cs ds
      → Thinned (c ∷ cs) (d ∷ ds)
  skip : {c : Client C} {cs ds : List (Client C)} → Thinned cs ds → Thinned (c ∷ cs) ds

module _ {C : Type 0} where
  pub Same-queues :
      (c : Client C) (t u : List ℕ) → Same c (record c { tcp_queue = t; udp_queue = u })
  Same-queues c t u = record {
    ptr = refl;
    player_id = refl;
    team = refl;
    tcp_socket = refl;
    udp_socket = refl;
    udp_port = refl;
  }

  pub Same-refl : (c : Client C) → Same c c
  Same-refl c = Same-queues c c.tcp_queue c.udp_queue

  pub Same-trans : {c d e : Client C} → Same c d → Same d e → Same c e
  Same-trans a b = record {
    ptr = b.ptr ∙ a.ptr;
    player_id = b.player_id ∙ a.player_id;
    team = b.team ∙ a.team;
    tcp_socket = b.tcp_socket ∙ a.tcp_socket;
    udp_socket = b.udp_socket ∙ a.udp_socket;
    udp_port = b.udp_port ∙ a.udp_port;
  }

  pub Same-queue :
      (proto : TlProtocol) (p : Packet) (c : Client C) → Same c (add_packet_to_queue proto p c)
  unfolding add_packet_to_queue
  Same-queue udp p c = Same-queues c _ _
  Same-queue tcp p c = Same-queues c _ _

  pub Thinned-refl : (cs : List (Client C)) → Thinned cs cs
  Thinned-refl [] = end
  Thinned-refl (c ∷ cs) = keep (Same-refl c) (Thinned-refl cs)

  pub Thinned-trans : {cs ds es : List (Client C)} → Thinned cs ds → Thinned ds es → Thinned cs es
  Thinned-trans end t = t
  Thinned-trans (skip s) t = skip (Thinned-trans s t)
  Thinned-trans (keep a s) (keep b t) = keep (Same-trans a b) (Thinned-trans s t)
  Thinned-trans (keep a s) (skip t) = skip (Thinned-trans s t)

  pub Thinned-length : {cs ds : List (Client C)} → Thinned cs ds → length ds ≤ length cs
  Thinned-length end = omega arith
  Thinned-length (keep a t) = omega (arith, Thinned-length t)
  Thinned-length (skip t) = omega (arith, Thinned-length t)

  pub Thinned-All :
      (P : Client C → Type 0)
      → ((c d : Client C) → Same c d → P c → P d)
      → {cs ds : List (Client C)} → Thinned cs ds
      → All P cs
      → All P ds
  Thinned-All P f end h = tt
  Thinned-All P f (keep {c = c} {d = d} a t) h = (f c d a h.0, Thinned-All P f t h.1)
  Thinned-All P f (skip t) h = Thinned-All P f t h.1

  pub kick_loop-Thinned :
      (t : ℕ) (p : Packet) (i : ℕ) (cs : List (Client C)) (k : Option ℕ)
      → Thinned cs (kick_loop t p i cs k).0
  unfolding kick_loop
  kick_loop-Thinned t p i [] k = end
  kick_loop-Thinned t p i (c ∷ cs) k =
      keep (either (c.ptr == t)) (kick_loop-Thinned t p (i + 1) cs _)
    where
      either : (b : Bool) → Same c (if b then c else add_packet_to_queue tcp p c)
      either true = Same-refl c
      either false = Same-queue tcp p c

  erase_at-Thinned : (cs : List (Client C)) (i : ℕ) → Thinned cs (erase_at cs i)
  erase_at-Thinned [] i = end
  erase_at-Thinned (c ∷ cs) zero = skip (Thinned-refl cs)
  erase_at-Thinned (c ∷ cs) (suc i) = keep (Same-refl c) (erase_at-Thinned cs i)

  pub erased-Thinned : (r : List (Client C) × Option ℕ) → Thinned r.0 (erased r)
  erased-Thinned (cs, none) = Thinned-refl cs
  erased-Thinned (cs, some i) = erase_at-Thinned cs i

  pub set-Thinned :
      (cs : List (Client C)) (i : ℕ) (c d : Client C)
      → get_elem? cs i ≡ some c
      → Same c d
      → Thinned cs (set cs i d)
  set-Thinned [] i c d e s = end
  set-Thinned (x ∷ cs) zero c d e s =
      keep (subst (λ y. Same y d) (sym (some_inj.0 e)) s) (Thinned-refl cs)
  set-Thinned (x ∷ cs) (suc i) c d e s = keep (Same-refl x) (set-Thinned cs i c d e s)

-- What kicking, broadcasting and flushing may do to a server.
pub record Thins {C : Type 0} (s t : Server C) : Type 0 where
  pub clients : Thinned s.clients t.clients
  pub proto_phase : t.proto_phase ≡ s.proto_phase
  pub next_player_id : t.next_player_id ≡ s.next_player_id
  pub next_ptr : t.next_ptr ≡ s.next_ptr

module _ {C : Type 0} where
  pub Thinned-Thins :
      (s : Server C) (cs : List (Client C))
      → Thinned s.clients cs
      → Thins s (record s { clients = cs })
  Thinned-Thins s cs t = record {
    clients = t;
    proto_phase = refl;
    next_player_id = refl;
    next_ptr = refl;
  }

  pub Thins-refl : (s : Server C) → Thins s s
  Thins-refl s = Thinned-Thins s s.clients (Thinned-refl s.clients)

  pub Thins-trans : {s t u : Server C} → Thins s t → Thins t u → Thins s u
  Thins-trans a b = record {
    clients = Thinned-trans a.clients b.clients;
    proto_phase = b.proto_phase ∙ a.proto_phase;
    next_player_id = b.next_player_id ∙ a.next_player_id;
    next_ptr = b.next_ptr ∙ a.next_ptr;
  }
