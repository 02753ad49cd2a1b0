-- ===== src/Server/Refinement.antt =====
-- Every round of Server::ServerLoop keeps the promises of a lobby (server/Server.cpp).
use legendofstealth.Protocol.Packet.{Packet}
use legendofstealth.Server.Client.{Client}
use legendofstealth.Server.Lobby.{
  leaves, stays, departs, nobody, Player, Lobby, Remain, Steps, Steps-one,
}
use legendofstealth.Server.State.{Server}
use legendofstealth.Server.Thinning.{end, skip, keep, Same, Thinned, Thins}
use legendofstealth.Prelude.{◌∷◌, ◌≡◌, subst, List, map, refl}

abbrev pub player_of : {C : Type 0} → Client C → Player
player_of c = record { id = c.player_id; team = c.team }

-- What a server looks like from outside.
abbrev pub lobby_of : {C : Type 0} → Server C → Lobby
lobby_of s = record {
  phase = s.proto_phase;
  players = map player_of s.clients;
  next = s.next_player_id;
}

-- The steps from a server to the result of a call.
abbrev pub StepsTo : {C W : Type 0} → Server C → Server C × W → Type 0
StepsTo s r = Steps (lobby_of s) (lobby_of r.0)

module _ {C : Type 0} where
  player_of-Same : (c d : Client C) → Same c d → player_of c ≡ player_of d
  player_of-Same c d a = rw (a.player_id, a.team) refl

  Thinned-Remain :
      {cs ds : List (Client C)} → Thinned cs ds → Remain (map player_of cs) (map player_of ds)
  Thinned-Remain end = nobody
  Thinned-Remain (keep {c = c} {d = d} {cs = cs} {ds = ds} a t) =
      subst (λ p. Remain (map player_of (c ∷ cs)) (p ∷ map player_of ds)) (player_of-Same c d a)
        (stays (Thinned-Remain t))
  Thinned-Remain (skip t) = leaves (Thinned-Remain t)

  pub Thins-Steps : {s t : Server C} → Thins s t → Steps (lobby_of s) (lobby_of t)
  Thins-Steps {s} {t} h =
      subst (λ l. Steps (lobby_of s) l) (rw (h.proto_phase, h.next_player_id) refl)
        (Steps-one (departs {l = lobby_of s} (Thinned-Remain h.clients)))
