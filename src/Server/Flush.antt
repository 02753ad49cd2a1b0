-- ===== src/Server/Flush.antt =====
-- What Server::FlushClientPacketQueues comes to, without an index (server/Server.cpp,
-- server/Client.cpp).
use legendofstealth.Protocol.Factory.{new_player_did_leave}
use legendofstealth.Protocol.Packet.{
  field_bytes, new_packet, add_field, serialize_fields, serialize,
}
use legendofstealth.Server.Loop.{send_queues}
use legendofstealth.Server.State.{Result, Server, player_did_leave}
use legendofstealth.Server.Kick.{map-push-push, push, leave_bytes}
use legendofstealth.Server.Informed.{departures, let_go}
use legendofstealth.Server.Client.{delete_client, send_packet_queue, is_connected, Client}
use legendofstealth.Server.Api.{SocketApi}
use legendofstealth.Prelude.{
  inr, inl, faults, [], map-append, Bool-cases, ap, not, done, ◌++◌, map, Outcome, if◌then◌else◌,
  false, ◌∷◌, true, ◌≡◌, ◌&&◌, ℕ, Bool, List, refl,
}

abbrev pub no_bytes : List ℕ → Bool
no_bytes [] = true
no_bytes (b ∷ bytes) = false

-- Nothing waits to be sent to the client.
abbrev pub is_idle : {C : Type 0} → Client C → Bool
is_idle c = no_bytes c.tcp_queue && no_bytes c.udp_queue

leave_some : {C : Type 0} (c : Client C) → no_bytes (leave_bytes c) ≡ false
unfolding player_did_leave serialize serialize_fields new_player_did_leave add_field new_packet
    field_bytes
leave_some c = refl

no_bytes-append : (a b : List ℕ) → no_bytes b ≡ false → no_bytes (a ++ b) ≡ false
no_bytes-append [] b e = e
no_bytes-append (x ∷ a) b e = refl

module _ (api : SocketApi) where
  open api use {World, Conn, send_bytes}

  -- Sending both queues of a client.
  pub send_queues-idle :
      (c : Client Conn) (w : World)
      → send_queues api c w ≡ (if is_idle c then done (true, c, w) else faults)
  unfolding send_queues send_packet_queue
  send_queues-idle c w = by_queues c.tcp_queue c.udp_queue
    where
      by_queues :
          (t u : List ℕ)
          → send_queues api (record c { tcp_queue = t; udp_queue = u }) w ≡ (
              if no_bytes t && no_bytes u
              then done (true, record c { tcp_queue = t; udp_queue = u }, w)
              else faults)
      by_queues [] [] = refl
      by_queues [] (b ∷ u) = rw (api.send_bytes-faults c.udp_socket (b ∷ u) w) refl
      by_queues (b ∷ t) u = rw (api.send_bytes-faults c.tcp_socket (b ∷ t) w) refl

  -- Whether nothing faults: no connected client has anything to be sent, nor stands behind one that
  -- is not, whose departure it would have to be sent.
  abbrev pub can_flush : Bool → List (Client Conn) → Bool
  can_flush kicked [] = true
  can_flush kicked (c ∷ cs) =
      if is_connected api c
      then not kicked && (is_idle c && can_flush kicked cs)
      else can_flush true cs

  -- The clients that stay.
  abbrev pub connected_of : List (Client Conn) → List (Client Conn)
  connected_of [] = []
  connected_of (c ∷ cs) = if is_connected api c then c ∷ connected_of cs else connected_of cs

  -- What becomes of a server, of which some clients have been passed and others are to come.
  abbrev pub flushed :
      Server Conn → List (Client Conn) → List (Client Conn) → World → Outcome (Result api)
  flushed s passed todo w =
      if can_flush false todo
      then done (
        record s { clients = map (push (departures api todo)) (passed ++ connected_of todo) },
        let_go api todo w,
      )
      else faults

  can_flush-push :
      (b : List ℕ) (kicked : Bool) (cs : List (Client Conn))
      → no_bytes b ≡ false
      → can_flush kicked (map (push b) cs) ≡ can_flush true cs
  unfolding is_connected
  can_flush-push b kicked [] e = refl
  can_flush-push b kicked (c ∷ cs) e = elim (Bool-cases (is_connected api c)) [
    | inl on ↦ rw (on, no_bytes-append c.tcp_queue b e) (and_false kicked)
    | inr off ↦ rw off (can_flush-push b true cs e)
  ]
    where
      and_false : (k : Bool) → (not k && false) ≡ false
      and_false true = refl
      and_false false = refl

  departures-push :
      (b : List ℕ) (cs : List (Client Conn)) → departures api (map (push b) cs) ≡ departures api cs
  unfolding is_connected
  departures-push b [] = refl
  departures-push b (c ∷ cs) =
      ap (λ l. if is_connected api c then l else leave_bytes c ++ l) (departures-push b cs)

  connected_of-push :
      (b : List ℕ) (cs : List (Client Conn))
      → connected_of (map (push b) cs) ≡ map (push b) (connected_of cs)
  unfolding is_connected
  connected_of-push b [] = refl
  connected_of-push b (c ∷ cs) = elim (Bool-cases (is_connected api c)) [
    | inl on ↦ rw on (ap (◌∷◌ (push b c)) (connected_of-push b cs))
    | inr off ↦ rw off (connected_of-push b cs)
  ]

  let_go-push :
      (b : List ℕ) (cs : List (Client Conn)) (w : World)
      → let_go api (map (push b) cs) w ≡ let_go api cs w
  unfolding is_connected delete_client
  let_go-push b [] w = refl
  let_go-push b (c ∷ cs) w = elim (Bool-cases (is_connected api c)) [
    | inl on ↦ rw on (let_go-push b cs w)
    | inr off ↦ rw off (let_go-push b cs (delete_client api c w))
  ]

  -- After a kick: the others have been told.
  pub flushed-kick :
      (s : Server Conn) (passed todo : List (Client Conn)) (c : Client Conn) (w : World)
      → is_connected api c ≡ false
      → flushed s
          (map (push (leave_bytes c)) passed)
          (map (push (leave_bytes c)) todo)
          (delete_client api c w)
        ≡ flushed s passed (c ∷ todo) w
  flushed-kick s passed todo c w off =
      let b = leave_bytes c in
      rw
        (
          off,
          can_flush-push b false todo (leave_some c),
          departures-push b todo,
          connected_of-push b todo,
          let_go-push b todo (delete_client api c w),
          ← map-append (push b) passed (connected_of todo),
          map-push-push b (departures api todo) (passed ++ connected_of todo),
        )
        refl
