-- ===== src/Server/Informed.antt =====
-- What a broadcast of the server comes to: the clients that stay, with what they are told
-- (server/Server.cpp).
use legendofstealth.Server.Kick.{map-push-push, leave_bytes, push, NoneAt}
use legendofstealth.Protocol.Packet.{serialize, Packet}
use legendofstealth.Server.Client.{delete_client, is_connected, Client}
use legendofstealth.Server.Api.{SocketApi}
use legendofstealth.Prelude.{
  get_elem?-append, none, some, set, get_elem?, append_assoc, ◌∙◌, map-append, ap, [], ◌≡◌, length,
  if◌then◌else◌, map, ◌++◌, ◌∷◌, List, ℕ, refl,
}

-- The addresses of the clients are distinct.
abbrev pub Apart : {C : Type 0} → List (Client C) → Type 0
Apart [] = Unit
Apart (c ∷ cs) = NoneAt c.ptr cs × Apart cs

module _ (api : SocketApi) where
  open api use {World, Conn}

  -- The departures that the clients of a list cause, as bytes, in their order.
  abbrev pub departures : List (Client Conn) → List ℕ
  departures [] = []
  departures (c ∷ cs) = if is_connected api c then departures cs else leave_bytes c ++ departures cs

  -- The clients that stay: each gets the departures of the clients before it, the packet, and the
  -- departures of those behind it. `before` is the departures of those already passed.
  abbrev pub informed : List ℕ → Packet → List (Client Conn) → List (Client Conn)
  informed before p [] = []
  informed before p (c ∷ cs) =
      if is_connected api c
      then push (before ++ (serialize p ++ departures cs)) c ∷ informed before p cs
      else informed (before ++ leave_bytes c) p cs

  -- The sockets of the clients that are not connected are deleted, in order.
  abbrev pub let_go : List (Client Conn) → World → World
  let_go [] w = w
  let_go (c ∷ cs) w = if is_connected api c then let_go cs w else let_go cs (delete_client api c w)

  -- The list in the middle of the loop.
  abbrev pub midway : List (Client Conn) → List ℕ → List (Client Conn) → List (Client Conn)
  midway passed before todo = passed ++ map (push before) todo

  -- Two departures in a row.
  pub push_after :
      (a b : List ℕ) (cs ds : List (Client Conn))
      → map (push b) (map (push a) cs) ++ ds ≡ map (push (a ++ b)) cs ++ ds
  push_after a b cs ds = ap (λ l. l ++ ds) (map-push-push a b cs)

  pub open_step :
      (passed : List (Client Conn)) (x : Client Conn) (b : List ℕ) (ds : List (Client Conn))
      → map (push b) (passed ++ x ∷ []) ++ ds ≡ map (push b) passed ++ (push b x ∷ ds)
  open_step passed x b ds =
      ap (λ l. l ++ ds) (map-append (push b) passed (x ∷ []))
      ∙ append_assoc (map (push b) passed) (push b x ∷ []) ds

  -- Where the loop stands, it sees the first client that is still to come.
  pub here :
      (passed : List (Client Conn)) (before : List ℕ) (c : Client Conn) (todo : List (Client Conn))
      → get_elem? (midway passed before (c ∷ todo)) (length passed) ≡ some (push before c)
  here passed before c todo = get_elem?-append passed (map (push before) todo) (push before c)

  pub past_end : (cs : List (Client Conn)) → get_elem? (cs ++ []) (length cs) ≡ none
  past_end [] = refl
  past_end (c ∷ cs) = past_end cs

  pub set_here :
      (passed : List (Client Conn)) (x y : Client Conn) (rest : List (Client Conn))
      → set (passed ++ x ∷ rest) (length passed) y ≡ (passed ++ y ∷ []) ++ rest
  set_here [] x y rest = refl
  set_here (d ∷ passed) x y rest = ap (◌∷◌ d) (set_here passed x y rest)
