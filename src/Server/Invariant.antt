-- ===== src/Server/Invariant.antt =====
-- What holds of the server's clients after any handler (server/Server.cpp).
use legendofstealth.Server.Informed.{Apart}
use legendofstealth.Server.Shrinking.{broadcast-Thins}
use legendofstealth.Socket.State.{tcp, udp}
use legendofstealth.Server.Loop.{welcomed, admit}
use legendofstealth.Server.Thinning.{
  end, skip, Thinned-length, Thinned-All, keep, Thins, Same, Thinned,
}
use legendofstealth.Server.Api.{SocketApi}
use legendofstealth.Server.State.{
  broadcast, get_team_for_next_player, player_did_join, max_players, next_id, Server,
}
use legendofstealth.Server.Client.{Team, new_client, Client}
use legendofstealth.Prelude.{
  true, false, out_of_fuel, throws, faults, done, ◌∙◌, Ensures-bind, All-mono, Outcome,
  length-append, All-append, sym, [], ◌^◌, Ensures, ◌≡◌, ◌++◌, Bool, ◌+◌, arith, ◌≢◌, ◌≤◌, All,
  length, ◌<◌, ◌∷◌, List, ℕ, refl,
}

-- The ids of the clients are distinct.
abbrev pub IdsApart : {C : Type 0} → List (Client C) → Type 0
IdsApart [] = Unit
IdsApart (c ∷ cs) = All (λ d. d.player_id ≢ c.player_id) cs × IdsApart cs

-- A client that was admitted before the counters came to `id` and `ptr`.
abbrev pub Admitted : {C : Type 0} → ℕ → ℕ → Client C → Type 0
Admitted id ptr c = (0 < c.player_id) × (c.player_id < id) × (c.ptr < ptr)

pub record Inv {C : Type 0} (s : Server C) : Type 0 where
  pub few : length s.clients ≤ max_players
  pub counter : 0 < s.next_player_id
  pub admitted : All (Admitted s.next_player_id s.next_ptr) s.clients
  pub ids : IdsApart s.clients
  pub apart : Apart s.clients

module _ {C : Type 0} where
  Thinned-IdsApart : {cs ds : List (Client C)} → Thinned cs ds → IdsApart cs → IdsApart ds
  Thinned-IdsApart end h = tt
  Thinned-IdsApart (keep {c = c} {d = d} a t) h = (
    Thinned-All (λ x. x.player_id ≢ d.player_id) (λ x y s n e. n (sym s.player_id ∙ e)) t
        (rw a.player_id h.0),
    Thinned-IdsApart t h.1,
  )
  Thinned-IdsApart (skip t) h = Thinned-IdsApart t h.1

  Thinned-Apart : {cs ds : List (Client C)} → Thinned cs ds → Apart cs → Apart ds
  Thinned-Apart end h = tt
  Thinned-Apart (keep {c = c} {d = d} a t) h = (
    Thinned-All (λ x. x.ptr ≢ d.ptr) (λ x y s n e. n (sym s.ptr ∙ e)) t (rw a.ptr h.0),
    Thinned-Apart t h.1,
  )
  Thinned-Apart (skip t) h = Thinned-Apart t h.1

  Admitted-Same : (id ptr : ℕ) (c d : Client C) → Same c d → Admitted id ptr c → Admitted id ptr d
  Admitted-Same id ptr c d a h = rw (a.player_id, a.ptr) h

  -- Removing clients and changing queues keeps the invariant.
  pub Thins-Inv : {s t : Server C} → Thins s t → Inv s → Inv t
  Thins-Inv {s} {t} h v = record {
    few = omega (arith, Thinned-length h.clients, v.few);
    counter = rw h.next_player_id v.counter;
    admitted =
        rw (h.next_player_id, h.next_ptr)
          (Thinned-All (Admitted s.next_player_id s.next_ptr)
            (Admitted-Same s.next_player_id s.next_ptr) h.clients v.admitted);
    ids = Thinned-IdsApart h.clients v.ids;
    apart = Thinned-Apart h.clients v.apart;
  }

  IdsApart-append :
      (cs : List (Client C)) (c : Client C)
      → IdsApart cs
      → All (λ d. c.player_id ≢ d.player_id) cs
      → IdsApart (cs ++ c ∷ [])
  IdsApart-append [] c h n = (tt, tt)
  IdsApart-append (d ∷ cs) c h n = (
    All-append (λ x. x.player_id ≢ d.player_id) cs (c ∷ []) h.0 (n.0, tt),
    IdsApart-append cs c h.1 n.1,
  )

  Apart-append :
      (cs : List (Client C)) (c : Client C)
      → Apart cs
      → All (λ d. c.ptr ≢ d.ptr) cs
      → Apart (cs ++ c ∷ [])
  Apart-append [] c h n = (tt, tt)
  Apart-append (d ∷ cs) c h n =
      (All-append (λ x. x.ptr ≢ d.ptr) cs (c ∷ []) h.0 (n.0, tt), Apart-append cs c h.1 n.1)

  -- A new client at the end, whose id and address are those that the counters have just left.
  pub append-Inv :
      (s : Server C) (c : Client C) (id ptr : ℕ)
      → Inv s
      → length s.clients < max_players
      → All (Admitted id ptr) s.clients
      → 0 < id
      → c.player_id ≡ id
      → c.ptr ≡ ptr
      → s.next_player_id ≡ id + 1
      → s.next_ptr ≡ ptr + 1
      → Inv (record s { clients = s.clients ++ (c ∷ []) })
  append-Inv s c id ptr v room old started e e' n n' = record {
    few = omega (arith, length-append s.clients (c ∷ []), room);
    counter = v.counter;
    admitted =
        All-append (Admitted s.next_player_id s.next_ptr) s.clients (c ∷ []) v.admitted
          (omega arith);
    ids = IdsApart-append s.clients c v.ids (
        All-mono (Admitted id ptr) (λ d. c.player_id ≢ d.player_id) (λ d h. omega arith) s.clients
          old);
    apart =
        Apart-append s.clients c v.apart
          (All-mono (Admitted id ptr) (λ d. c.ptr ≢ d.ptr) (λ d h. omega arith) s.clients old);
  }

-- The invariant, with the counter of ids at most at a bound.
abbrev pub Holds : {C W : Type 0} → ℕ → Server C × W → Type 0
Holds bound r = Inv r.0 × (r.0.next_player_id ≤ bound)

module _ (api : SocketApi) where
  open api use {World, Conn}

  pub new_client_ids :
      (ptr id : ℕ) (team : Team) (port : ℕ) (socket : Conn) (w : World)
      → Ensures
          (λ r. (r.0.player_id ≡ id) × (r.0.ptr ≡ ptr) × (r.0.team ≡ team))
          (new_client api ptr id team port socket w)
  unfolding new_client
  new_client_ids ptr id team port socket w =
      Ensures-bind (λ _. Unit {0}) _ (SocketApi.open_address api udp _ 0 w) _ (anything _)
        (λ r _. (refl, refl, refl))
    where
      anything : {A : Type 0} (o : Outcome A) → Ensures (λ _. Unit {0}) o
      anything (done a) = tt
      anything faults = tt
      anything throws = tt
      anything out_of_fuel = tt

  -- The server between the counting of a new client and its entry.
  abbrev counted_up : Server Conn → Server Conn
  counted_up s = record s { next_player_id = next_id s.next_player_id; next_ptr = s.next_ptr + 1 }

  counted_up-Inv : (s : Server Conn) → Inv s → s.next_player_id + 1 < 2 ^ 32 → Inv (counted_up s)
  unfolding next_id
  counted_up-Inv s v h = record {
    few = v.few;
    counter = omega arith;
    admitted =
        All-mono (Admitted s.next_player_id s.next_ptr) _ (λ c a. omega arith) s.clients v.admitted;
    ids = v.ids;
    apart = v.apart;
  }

  welcomed-Inv :
      (s : Server Conn) (c : Client Conn) (r : Bool × World)
      → Inv s
      → length s.clients < max_players
      → s.next_player_id + 1 < 2 ^ 32
      → c.player_id ≡ s.next_player_id
      → c.ptr ≡ s.next_ptr
      → Holds (s.next_player_id + 1) (welcomed api (counted_up s) c r)
  unfolding next_id
  welcomed-Inv s c (false, w) v room small e e' = (counted_up-Inv s v small, omega arith)
  welcomed-Inv s c (true, w) v room small e e' =
      let p = player_did_join c.player_id c.team in
      let t = (broadcast api tcp p (counted_up s) w).0 in
      let thins = broadcast-Thins api tcp p (counted_up s) w in
      (
        append-Inv t c s.next_player_id s.next_ptr (Thins-Inv thins (counted_up-Inv s v small))
            (omega (arith, Thinned-length thins.clients))
            (Thinned-All (Admitted s.next_player_id s.next_ptr)
              (Admitted-Same s.next_player_id s.next_ptr) thins.clients v.admitted)
            v.counter e e' (omega (arith, thins.next_player_id)) thins.next_ptr,
        omega (arith, thins.next_player_id),
      )

  pub admit-Inv :
      (s : Server Conn) (socket : Conn) (port : ℕ) (w : World)
      → Inv s
      → length s.clients < max_players
      → s.next_player_id + 1 < 2 ^ 32
      → Ensures (Holds (s.next_player_id + 1)) (admit api s socket port w)
  unfolding admit
  admit-Inv s socket port w v room small =
      Ensures-bind _ (Holds (s.next_player_id + 1))
        (new_client api s.next_ptr s.next_player_id (get_team_for_next_player s) port socket w) _
        (new_client_ids s.next_ptr s.next_player_id (get_team_for_next_player s) port socket w)
        (λ r h. welcomed-Inv s r.0 _ v room small h.0 h.1)
