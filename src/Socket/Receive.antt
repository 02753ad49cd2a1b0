-- ===== src/Socket/Receive.antt =====
-- Socket::HasActivity and Socket::GetPacket (shared/Socket.cpp). Log lines are left out, with the
-- loop over the packets just received that writes them.
use legendofstealth.Protocol.Factory.{read_packet}
use legendofstealth.Socket.Transfer.{get_data, is_zero, Fetched}
use legendofstealth.Protocol.Packet.{set_udp_packet, Packet}
use legendofstealth.Socket.State.{TlProtocol, udp, tcp, Socket}
use legendofstealth.Net.{SdlNet}
use legendofstealth.Prelude.Int.{sub_ℕ, negsuc, pos, ℤ}
use legendofstealth.Prelude.{
  zero, ◌++◌, drop, ◌>>=◌, suc, true, false, none, done, out_of_fuel, ◌∷◌, ◌+◌, Outcome, some, [],
  if◌then◌else◌, List, Option, Bool, ℕ,
}

abbrev pub is_positive : ℤ → Bool
is_positive (pos zero) = false
is_positive (pos (suc n)) = true
is_positive (negsuc n) = false

abbrev pub to_ℕ : ℤ → ℕ
to_ℕ (pos n) = n
to_ℕ (negsuc n) = 0

-- `len -= plen`
abbrev pub minus : ℤ → ℕ → ℤ
minus (pos n) k = sub_ℕ n k
minus (negsuc n) k = negsuc (n + k)

module _ (net : SdlNet) where
  open net use {World, check_sockets, socket_ready, free_packet, new_storage}

  abbrev pub ready : TlProtocol → Socket → World → Bool
  ready udp s w = socket_ready s.udp_handle w
  ready tcp s w = socket_ready s.tcp_handle w

  abbrev pub checked : Socket → ℤ × World → Bool × World
  checked s (numready, w) = (if is_zero numready then false else ready s.protocol s w, w)

  abbrev pub queue_activity : List Packet → Socket → World → Bool × World
  queue_activity [] s w = checked s (check_sockets s.socket_set w)
  queue_activity (p ∷ rest) s w = (true, w)

  -- HasActivity
  unfoldable pub has_activity : Socket → World → Bool × World
  has_activity s w = queue_activity s.pqueue s w

  abbrev pub discard : Option ℕ → World → World
  discard none w = w
  discard (some packet) w = free_packet packet w

  abbrev pub Parsed : Type 0
  Parsed = Outcome (List Packet × World)

  -- A packet goes to the end of the queue, and the loop goes on (`again`); NULL ends it.
  abbrev pub handled :
      Option ℕ
      → List Packet
      → (ℕ → List Packet → World → Parsed)
      → World
      → Option Packet × ℕ
      → Parsed
  handled u pqueue again w (none, plen) = done (pqueue, discard u w)
  handled u pqueue again w (some p, plen) = again plen (pqueue ++ (set_udp_packet u p ∷ [])) w

  -- The body of the loop, with fresh storage for the packet; `plen` starts as 0.
  abbrev pub round :
      List ℕ
      → ℤ
      → ℕ
      → Option ℕ
      → List Packet
      → (ℕ → List Packet → World → Parsed)
      → (ℕ → ℕ) × World
      → Parsed
  round buf len read u pqueue again (storage, w) =
      read_packet storage (drop read buf) (to_ℕ len) 0 >>= handled u pqueue again w

  -- `while (len > 0)`: `buf` is the block, `read` the offset in it.
  unfoldable pub parse_loop : ℕ → List ℕ → ℤ → ℕ → Option ℕ → List Packet → World → Parsed
  parse_loop zero buf len read u pqueue w =
      if is_positive len then out_of_fuel else done (pqueue, w)
  parse_loop (suc fuel) buf len read u pqueue w =
      let again = λ (plen : ℕ) (q : List Packet) (w' : World).
        parse_loop fuel buf (minus len plen) (read + plen) u q w' in
      let body = round buf len read u pqueue again (new_storage w) in
      if is_positive len then body else done (pqueue, w)

  abbrev pub Got : Type 0
  Got = Outcome (Option Packet × Socket × World)

  -- `_pqueue[0]`, taken off the queue; NULL where the queue is empty.
  abbrev pub pop_packet : Socket → List Packet × World → Got
  pop_packet s ([], w) = done (none, record s { pqueue = [] }, w)
  pop_packet s (p ∷ rest, w) = done (some p, record s { pqueue = rest }, w)

  abbrev pub is_tcp : TlProtocol → Bool
  is_tcp tcp = true
  is_tcp udp = false

  abbrev pub disconnected : Socket → World → Got
  disconnected s w = done (none, record s { tcp_disconnect = is_tcp s.protocol }, w)

  -- What GetPacket does with the data that GetData returned: `if (!buf || !len)`, then the loop.
  abbrev pub parse_buffer : ℕ → Socket → Option (List ℕ) → ℤ → Option ℕ → World → Got
  parse_buffer fuel s none len u w = disconnected s w
  parse_buffer fuel s (some buf) len u w =
      let parsed = parse_loop fuel buf len 0 u s.pqueue w >>= pop_packet s in
      if is_zero len then disconnected s w else parsed

  abbrev pub parse : ℕ → Socket → Fetched × World → Got
  parse fuel s (f, w) = parse_buffer fuel s f.buf f.len f.udp_packet w

  abbrev pub fetch : ℕ → Socket → Bool × World → Got
  fetch fuel s (false, w) = done (none, s, w)
  fetch fuel s (true, w) = get_data net s w >>= parse fuel s

  abbrev pub queued : ℕ → List Packet → Socket → World → Got
  queued fuel [] s w = fetch fuel s (has_activity s w)
  queued fuel (p ∷ rest) s w = pop_packet s (p ∷ rest, w)

  -- GetPacket: the packet, or NULL. The fuel is the number of rounds of the loop that are allowed.
  unfoldable pub get_packet : ℕ → Socket → World → Got
  get_packet fuel s w = queued fuel s.pqueue s w
