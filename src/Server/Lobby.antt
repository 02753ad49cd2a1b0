-- ===== src/Server/Lobby.antt =====
-- What the server promises of a lobby, without sockets, queues and addresses: the contract that
-- server/Server.cpp implements.
use legendofstealth.Server.Client.{Team, spy, merc}
use legendofstealth.Server.State.{ProtocolPhase, proto_lobby, max_players}
use legendofstealth.Prelude.{
  ◌++◌, ◌<◌, length, ◌^◌, ltb, ◌≡◌, ◌%◌, if◌then◌else◌, ◌∷◌, [], ◌+◌, List, ℕ,
}

pub record Player : Type 0 where
  pub id : ℕ
  pub team : Team

-- The players in the order in which they joined, and the id that comes next.
pub record Lobby : Type 0 where
  pub phase : ProtocolPhase
  pub players : List Player
  pub next : ℕ

-- Some players leave; the others keep their order.
pub data Remain : List Player → List Player → Type 0 where
  nobody : Remain [] []
  stays : {p : Player} {ps qs : List Player} → Remain ps qs → Remain (p ∷ ps) (p ∷ qs)
  leaves : {p : Player} {ps qs : List Player} → Remain ps qs → Remain (p ∷ ps) qs

abbrev pub plays_for : Team → Player → ℕ
plays_for spy p = elim p.team [ spy ↦ 1 | merc ↦ 0 ]
plays_for merc p = elim p.team [ spy ↦ 0 | merc ↦ 1 ]

-- The players of a team.
abbrev pub team_size : Team → List Player → ℕ
team_size team [] = 0
team_size team (p ∷ ps) = plays_for team p + team_size team ps

-- The team with fewer players; the mercs where both have as many.
abbrev pub smaller_team : List Player → Team
smaller_team ps = if ltb (team_size spy ps) (team_size merc ps) then spy else merc

-- An id is an `unsigned`.
abbrev pub id_after : ℕ → ℕ
id_after n = (n + 1) % 2 ^ 32

-- What may happen to a lobby.
pub data Step : Lobby → Lobby → Type 0 where
  -- Players leave.
  departs :
      {l : Lobby} {ps : List Player} → Remain l.players ps → Step l (record l { players = ps })
  -- A player is admitted to a lobby that is open and has room, with the next id and in the smaller
  -- team, behind the others. Some of these may be found to have left.
  joins :
      {l : Lobby} {ps : List Player}
      → l.phase ≡ proto_lobby
      → length l.players < max_players
      → Remain l.players ps
      → Step l (record l {
        players = ps ++ (record { id = l.next; team = smaller_team l.players } ∷ []);
        next = id_after l.next;
      })
  -- A player who would be admitted is lost before that; the id is used up.
  lost :
      {l : Lobby}
      → l.phase ≡ proto_lobby
      → length l.players < max_players
      → Step l (record l { next = id_after l.next })

pub data Steps : Lobby → Lobby → Type 0 where
  rest : {l : Lobby} → Steps l l
  then_step : {l m n : Lobby} → Steps l m → Step m n → Steps l n

pub Steps-trans : {l m n : Lobby} → Steps l m → Steps m n → Steps l n
Steps-trans s rest = s
Steps-trans s (then_step t u) = then_step (Steps-trans s t) u

pub Steps-one : {l m : Lobby} → Step l m → Steps l m
Steps-one s = then_step rest s
