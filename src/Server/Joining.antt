-- ===== src/Server/Joining.antt =====
-- How a player joins: Server::AcceptNewClient over any sockets, and over those of the program
-- (server/Server.cpp, shared/Socket.cpp).
use legendofstealth.Server.Informed.{let_go, informed, Apart}
use legendofstealth.Socket.Delivery.{get_packet-none}
use legendofstealth.Protocol.Factory.{first_ptr, packet_join_request}
use legendofstealth.Server.Broadcast.{broadcast-informed}
use legendofstealth.Socket.State.{Socket}
use legendofstealth.Protocol.Packet.{get_packet_type, Packet}
use legendofstealth.Server.Client.{delete_client, send_join_response_packet, new_client, Client}
use legendofstealth.Server.Loop.{
  respond, received, with_activity, welcomed, admit, accept_new_client,
}
use legendofstealth.Server.State.{
  get_team_for_next_player, Result, player_did_join, next_id, Server,
}
use legendofstealth.Net.{SdlNet}
use legendofstealth.Server.Api.{sdl_sockets, SocketApi}
use legendofstealth.Socket.Receive
use mathlib.Core.Option.{none-ne-some}
use legendofstealth.Prelude.{
  out_of_fuel, throws, faults, subst, ==_of_eq, ==_ne, Bool, if◌then◌else◌, sym, ◌∙◌, ◌>>=◌, ap,
  Option, ◌≢◌, ◌∷◌, Ensures, ◌++◌, Outcome, none, some, done, [], false, true, ◌≡◌, ◌+◌, ℕ, refl,
}

module _ (api : SocketApi) where
  open api use {World, Conn, get_packet, has_activity, delete, send_packet}

  -- The server that AcceptNewClient has counted the new client in.
  abbrev pub with_counters : Server Conn → Server Conn
  with_counters s = record s {
    next_player_id = next_id s.next_player_id;
    next_ptr = s.next_ptr + 1;
  }

  welcomed_sent :
      (s : Server Conn) (c : Client Conn) (w : World)
      → Apart s.clients
      → welcomed api s c (true, w) ≡ (
        record s {
          clients = informed api [] (player_did_join c.player_id c.team) s.clients ++ (c ∷ []);
        },
        let_go api s.clients w,
      )
  welcomed_sent s c w apart =
      ap (λ (r : Result api). (record r.0 { clients = r.0.clients ++ (c ∷ []) }, r.1))
        (broadcast-informed api (player_did_join c.player_id c.team) s w apart)

  module _ (s : Server Conn) (socket socket' : Conn) (w w1 w2 w3 : World) (p : Packet)
      (c : Client Conn) (active : has_activity socket w ≡ (true, w1))
      (came : get_packet socket w1 ≡ done (some p, socket', w2))
      (join : get_packet_type p ≡ packet_join_request)
      (built : new_client api s.next_ptr s.next_player_id
          (get_team_for_next_player s)
          (p.members first_ptr)
          socket'
          w2
        ≡ done (c, w3)) where
    reached :
        accept_new_client api s socket w
        ≡ done (welcomed api (with_counters s) c (send_join_response_packet api c w3))
    unfolding accept_new_client admit
    reached =
        ap (with_activity api s socket) active
        ∙ ap (λ o. o >>= received api s) came
        ∙ ap
            (λ b.
              if b
              then admit api s socket' (p.members first_ptr) w2
              else done (s, delete socket' w2))
            (==_of_eq (get_packet_type p) packet_join_request join)
        ∙ ap (λ o. o >>= respond api (with_counters s)) built

    -- AcceptNewClient, where the socket has activity, GetPacket returns a join request, the client's UDP
    -- socket is opened, and the response is sent, for clients at distinct addresses. The new client
    -- has the id, the team and the address that come next; it is put at the end of the others, who are
    -- told of it by a broadcast that drops those whose connection is closed.
    pub accept_new_client-join :
        (w4 : World)
        → Apart s.clients
        → send_join_response_packet api c w3 ≡ (true, w4)
        → accept_new_client api s socket w
          ≡ done (
            record (with_counters s) {
              clients = informed api [] (player_did_join c.player_id c.team) s.clients ++ (c ∷ []);
            },
            let_go api s.clients w4,
          )
    accept_new_client-join w4 apart e =
        reached
        ∙ ap (λ r. done (welcomed api (with_counters s) c r)) e
        ∙ ap done (welcomed_sent (with_counters s) c w4 apart)

    -- AcceptNewClient, where the socket has activity, GetPacket returns a join request, the
    -- client's UDP socket is opened, but sending the response fails: the sockets of the client are
    -- deleted and the list of clients is as it was, but the id is used up.
    pub accept_new_client-unanswered :
        (w4 : World)
        → send_join_response_packet api c w3 ≡ (false, w4)
        → accept_new_client api s socket w ≡ done (with_counters s, delete_client api c w4)
    accept_new_client-unanswered w4 e =
        reached ∙ ap (λ r. done (welcomed api (with_counters s) c r)) e

  -- A packet with which nobody joins: NULL, or of another type.
  abbrev pub NoRequest : Option Packet → Type 0
  NoRequest none = Unit
  NoRequest (some p) = get_packet_type p ≢ packet_join_request

  -- AcceptNewClient, where the socket has activity, and GetPacket returns NULL or a packet of another
  -- type than a join request: the socket is deleted and the server is as it was.
  pub accept_new_client-refused :
      (s : Server Conn) (socket socket' : Conn) (w w1 w2 : World) (o : Option Packet)
      → has_activity socket w ≡ (true, w1)
      → get_packet socket w1 ≡ done (o, socket', w2)
      → NoRequest o
      → accept_new_client api s socket w ≡ done (s, delete socket' w2)
  unfolding accept_new_client
  accept_new_client-refused s socket socket' w w1 w2 none active came n =
      ap (with_activity api s socket) active ∙ ap (λ o. o >>= received api s) came
  accept_new_client-refused s socket socket' w w1 w2 (some p) active came n =
      ap (with_activity api s socket) active
      ∙ ap (λ o. o >>= received api s) came
      ∙ ap
          (λ b.
            if b then admit api s socket' (p.members first_ptr) w2 else done (s, delete socket' w2))
          (==_ne (get_packet_type p) packet_join_request n)

module _ (net : SdlNet) where
  open net use {World}

  -- AcceptNewClient over the program's own sockets, on a socket whose queue is empty: whatever the
  -- client sends and however long GetPacket runs, if the call returns then the server is as it
  -- was, and so nobody has joined.
  pub accept_new_client-nobody :
      (fuel : ℕ) (s s' : Server Socket) (socket : Socket) (w w' : World)
      → socket.pqueue ≡ []
      → accept_new_client (sdl_sockets net fuel) s socket w ≡ done (s', w')
      → s' ≡ s
  unfolding accept_new_client
  accept_new_client-nobody fuel s s' socket w w' empty h =
      subst Unchanged h (started (Receive.has_activity net socket w))
    where
      Unchanged : Outcome (Server Socket × World) → Type 0
      Unchanged o = Ensures (λ r. r.0 ≡ s) o

      fetched_none :
          (o : Outcome (Option Packet × Socket × World))
          → ((q : Option Packet) (t : Socket) (w2 : World) → o ≡ done (q, t, w2) → q ≡ none)
          → Unchanged (o >>= received (sdl_sockets net fuel) s)
      fetched_none (done (none, t, w2)) never = refl
      fetched_none (done (some p, t, w2)) never =
          absurd (none-ne-some p (sym (never (some p) t w2 refl)))
      fetched_none faults never = tt
      fetched_none throws never = tt
      fetched_none out_of_fuel never = tt

      started : (a : Bool × World) → Unchanged (with_activity (sdl_sockets net fuel) s socket a)
      started (false, w1) = refl
      started (true, w1) =
          fetched_none (Receive.get_packet net fuel socket w1)
            (λ q t w2 e. (get_packet-none net fuel socket t w1 w2 q empty e).0)
