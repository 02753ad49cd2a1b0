-- ===== src/Examples/Players.antt =====
-- A server with three players: the theorems on server/Server.cpp at concrete clients.
use legendofstealth.Protocol.Words.{dword_bytes}
use legendofstealth.Protocol.Factory.{new_player_did_leave}
use legendofstealth.Protocol.Packet.{
  field_bytes, new_packet, add_field, serialize_fields, serialize,
}
use legendofstealth.Server.Informed.{let_go, informed, Apart}
use legendofstealth.Server.Kick.{kick_client-middle, leave_bytes, push}
use legendofstealth.Server.Flushed.{flush-flushed}
use legendofstealth.Server.Teams.{get_team_for_next_player-IsEven, IsEven}
use legendofstealth.Server.Client.{is_connected, delete_client, merc, spy}
use legendofstealth.Server.Loop.{flush_client_packet_queues}
use legendofstealth.Socket.State.{tcp}
use legendofstealth.Server.State.{
  player_did_leave, Server, player_did_join, team_counts, get_team_for_next_player, kick_client,
  broadcast,
}
use legendofstealth.Server.Broadcast.{broadcast-informed}
use legendofstealth.Prelude.{done, map, [], ◌∷◌, length, ◌++◌, ◌≡◌, some, arith, ◌+◌, ℕ, refl}
use legendofstealth.Examples.Network.{numbered, three_players, player}

three-Apart : Apart three_players.clients
three-Apart = (((λ e. omega arith), ((λ e. omega arith), tt)), (((λ e. omega arith), tt), (tt, tt)))

broadcast-informed_example : broadcast numbered tcp (player_did_join 5 spy) three_players [] ≡ (
  record three_players {
    clients = informed numbered [] (player_did_join 5 spy) three_players.clients;
  },
  let_go numbered three_players.clients [],
)
broadcast-informed_example =
    broadcast-informed numbered (player_did_join 5 spy) three_players [] three-Apart

-- A connected client with nothing to be sent and one that is gone.
abbrev two_players : Server ℕ
two_players = record three_players { clients = player 1 merc 1 ∷ player 2 spy 0 ∷ [] }

flush-flushed_example :
    flush_client_packet_queues numbered two_players []
    ≡ done (
      record two_players { clients = push (leave_bytes (player 2 spy 0)) (player 1 merc 1) ∷ [] },
      let_go numbered two_players.clients [],
    )
unfolding is_connected serialize serialize_fields player_did_leave new_player_did_leave add_field
    new_packet field_bytes dword_bytes
flush-flushed_example = flush-flushed numbered two_players [] (((λ e. omega arith), tt), (tt, tt))

kick_client-middle_example : kick_client numbered (some (player 2 spy 0)) three_players [] ≡ (
  record three_players {
    clients = map (push (leave_bytes (player 2 spy 0))) (player 1 merc 1 ∷ player 3 merc 3 ∷ []);
  },
  delete_client numbered (player 2 spy 0) [],
)
kick_client-middle_example =
    kick_client-middle numbered three_players (player 1 merc 1 ∷ []) (player 3 merc 3 ∷ [])
      (player 2 spy 0) (player 2 spy 0) [] refl refl ((λ e. omega arith), tt)
      ((λ e. omega arith), tt)

abbrev counts : ℕ × ℕ
counts = team_counts three_players.clients (0, 0)

abbrev counts_after : ℕ × ℕ
counts_after = team_counts (three_players.clients ++ (player 4 spy 4 ∷ [])) (0, 0)

counts-IsEven : IsEven counts
unfolding team_counts
counts-IsEven = (omega arith, omega arith)

spy_is_next : (player 4 spy 4).team ≡ get_team_for_next_player three_players
unfolding get_team_for_next_player team_counts
spy_is_next = refl

get_team_for_next_player-IsEven_example :
    (counts.0 + counts.1 ≡ length three_players.clients)
    × (counts_after.0 + counts_after.1 ≡ length three_players.clients + 1)
    × IsEven counts_after
get_team_for_next_player-IsEven_example =
    get_team_for_next_player-IsEven three_players (player 4 spy 4) spy_is_next counts-IsEven
