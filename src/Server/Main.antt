-- ===== src/Server/Main.antt =====
-- The whole program of the server (server/Main.cpp): Server::Server, Server::ServerLoop and the
-- thread of the listener.
use legendofstealth.Server.Invariant.{Inv}
use legendofstealth.Server.Refinement.{lobby_of}
use legendofstealth.Server.Listening.{serve, Arrivals}
use legendofstealth.Listener.{Listener, new_listener}
use legendofstealth.Server.Loop.{new_server}
use legendofstealth.Server.State.{proto_lobby, Server}
use legendofstealth.Server.Lobby.{Steps, Lobby}
use legendofstealth.Server.Api.{SocketApi}
use legendofstealth.Prelude.{◌>>=◌, ◌≡◌, Outcome, List, []}

module _ (api : SocketApi) where
  open api use {World, Conn}

  -- main, up to any round of ServerLoop.
  unfoldable pub main : List (List Arrivals) → World → Outcome (Server Conn × Listener × World)
  main rounds w = new_server api w >>= λ r. serve api rounds r.0 new_listener r.1

  -- The lobby before anybody has joined.
  abbrev pub first_lobby : Lobby
  first_lobby = record { phase = proto_lobby; players = []; next = 1 }

  -- What holds of the server at any time: it is open for players and keeps the invariant and the
  -- contract of a lobby.
  pub record IsServing (s : Server Conn) : Type 0 where
    pub in_lobby : s.proto_phase ≡ proto_lobby
    pub inv : Inv s
    pub steps : Steps first_lobby (lobby_of s)

  -- Where the server starts.
  abbrev IsNew : Server Conn × World → Type 0
  IsNew r = (lobby_of r.0 ≡ first_lobby) × Inv r.0 × (r.0.next_player_id ≡ 1)
