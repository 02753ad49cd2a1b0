-- ===== src/Server/Teams.antt =====
-- Server::TeamCounts and Server::GetTeamForNextPlayer: how the teams are kept even
-- (server/Server.cpp).
use legendofstealth.Server.Client.{merc, spy, Team, Client}
use legendofstealth.Server.State.{counted, Server, get_team_for_next_player, team_counts}
use legendofstealth.Prelude.{arith, [], length, ◌∷◌, ◌≡◌, ◌++◌, List, ◌+◌, ◌≤◌, ℕ, refl}

-- No team has two players more than the other.
abbrev pub IsEven : ℕ × ℕ → Type 0
IsEven counts = (counts.0 ≤ counts.1 + 1) × (counts.1 ≤ counts.0 + 1)

module _ {C : Type 0} where
  team_counts-append :
      (cs : List (Client C)) (c : Client C) (counts : ℕ × ℕ)
      → team_counts (cs ++ c ∷ []) counts ≡ counted c.team (team_counts cs counts)
  unfolding team_counts
  team_counts-append [] c counts = refl
  team_counts-append (d ∷ cs) c counts = team_counts-append cs c (counted d.team counts)

  pub team_counts-add :
      (cs : List (Client C)) (mercs spies : ℕ)
      → (team_counts cs (mercs, spies)).0 + (team_counts cs (mercs, spies)).1
        ≡ mercs + spies + length cs
  unfolding team_counts
  team_counts-add [] mercs spies = omega arith
  team_counts-add (c ∷ cs) mercs spies = by_team (team_counts-add cs) c.team
    where
      by_team :
          ((m s : ℕ) → (team_counts cs (m, s)).0 + (team_counts cs (m, s)).1 ≡ m + s + length cs)
          → (t : Team)
          → (team_counts cs (counted t (mercs, spies))).0
              + (team_counts cs (counted t (mercs, spies))).1
            ≡ mercs + spies + length (c ∷ cs)
      by_team ih spy = omega (arith, ih mercs (spies + 1))
      by_team ih merc = omega (arith, ih (mercs + 1) spies)

  -- Where the teams differ by at most one player and a client gets the team for the next player:
  -- TeamCounts counts every client in one of the teams, before and after the client is put at the
  -- end, and the teams still differ by at most one player.
  pub get_team_for_next_player-IsEven :
      (s : Server C) (c : Client C)
      → c.team ≡ get_team_for_next_player s
      → IsEven (team_counts s.clients (0, 0))
      → let old = team_counts s.clients (0, 0) in
        let new = team_counts (s.clients ++ c ∷ []) (0, 0) in
        (old.0 + old.1 ≡ length s.clients) × (new.0 + new.1 ≡ length s.clients + 1) × IsEven new
  unfolding get_team_for_next_player
  get_team_for_next_player-IsEven s c e even =
      ground (arith, team_counts-append s.clients c (0, 0), team_counts-add s.clients 0 0)
