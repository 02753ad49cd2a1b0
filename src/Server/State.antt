-- ===== src/Server/State.antt =====
-- class server::Server (server/Server.h, server/Server.cpp): its state, kicking and broadcasting.
use legendofstealth.Socket.State.{tcp, TlProtocol}
use legendofstealth.Protocol.Factory.{
  new_player_did_join, new_player_did_leave, first_ptr, second_ptr, with_member,
}
use legendofstealth.Server.Api.{SocketApi}
use legendofstealth.Protocol.Packet.{Packet}
use legendofstealth.Server.Client.{
  is_connected, delete_client, add_packet_to_queue, stack_storage, team_code, merc, spy, Client,
  Team,
}
use legendofstealth.Prelude.{
  zero, set, [], get_elem?, none, erase_at, ◌==◌, suc, some, ◌^◌, ltb, ◌∷◌, length, Option, ◌%◌,
  if◌then◌else◌, leb, ◌+◌, Bool, List, ℕ,
}

-- enum ProtocolPhase (shared/Protocol.h)
pub data ProtocolPhase : Type 0 where
  proto_none proto_negot proto_lobby proto_game : ProtocolPhase

abbrev pub max_players : ℕ
max_players = 4

-- `next_player_id` is the static counter of GetNextPlayerID, and `next_ptr` the address that the
-- next client is built at: one that no client has.
pub record Server (C : Type 0) : Type 0 where
  pub udp_socket : C
  pub proto_phase : ProtocolPhase
  pub clients : List (Client C)
  pub next_player_id : ℕ
  pub next_ptr : ℕ

-- IsServerFull
unfoldable pub is_server_full : {C : Type 0} → Server C → Bool
is_server_full s = leb max_players (length s.clients)

-- TeamCounts: the mercs and the spies.
abbrev pub counted : Team → ℕ × ℕ → ℕ × ℕ
counted spy (mercs, spies) = (mercs, spies + 1)
counted merc (mercs, spies) = (mercs + 1, spies)

unfoldable pub team_counts : {C : Type 0} → List (Client C) → ℕ × ℕ → ℕ × ℕ
team_counts [] counts = counts
team_counts (c ∷ cs) counts = team_counts cs (counted c.team counts)

-- GetTeamForNextPlayer
unfoldable pub get_team_for_next_player : {C : Type 0} → Server C → Team
get_team_for_next_player s =
    let (mercs, spies) = team_counts s.clients (0, 0) in if ltb spies mercs then spy else merc

-- The counter of GetNextPlayerID after a call; it is an `unsigned`.
unfoldable pub next_id : ℕ → ℕ
next_id n = (n + 1) % 2 ^ 32

-- The packets that the server broadcasts.
unfoldable pub player_did_join : ℕ → Team → Packet
player_did_join player_id team =
    with_member second_ptr (team_code team)
      (with_member first_ptr player_id (new_player_did_join stack_storage))

unfoldable pub player_did_leave : ℕ → Packet
player_did_leave player_id = with_member first_ptr player_id (new_player_did_leave stack_storage)

-- The loop of KickClient: the clients from the index `i` on, and `kickIndex` (none is -1).
unfoldable pub kick_loop :
    {C : Type 0} → ℕ → Packet → ℕ → List (Client C) → Option ℕ → List (Client C) × Option ℕ
kick_loop target leave i [] kick_index = ([], kick_index)
kick_loop target leave i (c ∷ cs) kick_index =
    let found = c.ptr == target in
    let (rest, index) = kick_loop target leave (i + 1) cs (if found then some i else kick_index) in
    ((if found then c else add_packet_to_queue tcp leave c) ∷ rest, index)

-- `_clients.erase(_clients.begin() + kickIndex)`
abbrev pub erased : {C : Type 0} → List (Client C) × Option ℕ → List (Client C)
erased (cs, none) = cs
erased (cs, some i) = erase_at cs i

module _ (api : SocketApi) where
  open api use {World, Conn, is_connection_open}

  -- KickClient(client); NULL is only logged.
  unfoldable pub kick_client : Option (Client Conn) → Server Conn → World → Server Conn × World
  kick_client none s w = (s, w)
  kick_client (some c) s w = (
    record s { clients = erased (kick_loop c.ptr (player_did_leave c.player_id) 0 s.clients none) },
    delete_client api c w,
  )

  abbrev pub Result : Type 0
  Result = Server Conn × World

  -- The body of the loop of Broadcast at the index `i`; `again` goes on from an index. After a kick
  -- the index stays, as the next client has moved to it.
  abbrev pub broadcast_at :
      (ℕ → Server Conn → World → Result)
      → ℕ
      → TlProtocol
      → Packet
      → Server Conn
      → World
      → Option (Client Conn)
      → Result
  broadcast_at again i proto p s w none = (s, w)
  broadcast_at again i proto p s w (some c) =
      let kept =
        again (i + 1) (record s { clients = set s.clients i (add_packet_to_queue proto p c) }) w in
      let gone = kick_client (some c) s w in
      let kicked = again i gone.0 gone.1 in if is_connected api c then kept else kicked

  -- Each round leaves one client fewer to come.
  unfoldable pub broadcast_loop : ℕ → ℕ → TlProtocol → Packet → Server Conn → World → Result
  broadcast_loop zero i proto p s w = (s, w)
  broadcast_loop (suc fuel) i proto p s w =
      broadcast_at (λ j s' w'. broadcast_loop fuel j proto p s' w') i proto p s w
        (get_elem? s.clients i)

  -- Broadcast(proto, packet)
  unfoldable pub broadcast : TlProtocol → Packet → Server Conn → World → Server Conn × World
  broadcast proto p s w = broadcast_loop (length s.clients) 0 proto p s w
