-- ===== src/Socket/Transfer.antt =====
-- Socket::SendPacket and Socket::GetData (shared/Socket.cpp).
use legendofstealth.Protocol.Packet.{serialize, Packet}
use legendofstealth.Socket.State.{TlProtocol, udp, tcp, Socket}
use legendofstealth.Net.{failed, got, Received, SdlNet}
use legendofstealth.Prelude.Int.{negsuc, pos, ℤ}
use legendofstealth.Prelude.{
  refl, ◌≡◌, true, zero, ◌>>=◌, faults, none, drop, take, suc, length, false, done, ◌*◌, ◌+◌, ◌==◌,
  out_of_fuel, ◌++◌, some, not, leb, Outcome, if◌then◌else◌, Bool, List, Option, ℕ,
}

abbrev pub is_zero : ℤ → Bool
is_zero (pos zero) = true
is_zero (pos (suc n)) = false
is_zero (negsuc n) = false

-- Where the bytes of a buffer are that SendPacket is given: in a block of `new[]`, or in the storage
-- of a vector, which its allocator has made and which the vector goes on to use and to free.
pub data Buffer : Type 0 where
  new_array vector_storage : Buffer

-- What GetData hands back: the block (or NULL), `len`, and the UDP packet.
pub record Fetched : Type 0 where
  pub buf : Option (List ℕ)
  pub len : ℤ
  pub udp_packet : Option ℕ

-- `memcpy(block + offset, bytes, length)`; beyond the block it is a fault.
unfoldable pub write_at : List ℕ → ℕ → List ℕ → Option (List ℕ)
write_at block offset bytes =
    if leb (offset + length bytes) (length block)
    then some (take offset block ++ (bytes ++ drop (offset + length bytes) block))
    else none

module _ (net : SdlNet) where
  open net use {World, tcp_send, udp_send, tcp_recv, udp_recv, alloc_packet, new_block}

  sent : ℤ × World → Bool × World
  sent (count, w) = (not (is_zero count), w)

  -- What SendPacket(buf, len) sends: `false` where the call of SDL_net returned 0.
  unfoldable pub transmit : Socket → List ℕ → World → Bool × World
  unfolding sent
  transmit s buf w = elim s.protocol [
    | tcp ↦ sent (tcp_send s.tcp_handle buf w)
    | udp ↦ sent (udp_send s.udp_handle s.ip buf w)
  ]

  -- `delete[] buf` of SendPacket(buf, len). Memory that is not of `new[]` is not its to delete.
  abbrev pub deleted : Buffer → Bool × World → Outcome (Bool × World)
  deleted new_array r = done r
  deleted vector_storage r = faults

  -- SendPacket(buf, len)
  unfoldable pub send_bytes : Socket → Buffer → List ℕ → World → Outcome (Bool × World)
  unfolding transmit
  send_bytes s buffer buf w = deleted buffer (transmit s buf w)

  -- SendPacket(packet): the block is one that Serialize makes by `new[]`, and nothing else holds it.
  unfoldable pub send_packet : Socket → Packet → World → Bool × World
  unfolding transmit
  send_packet s p w = transmit s (serialize p) w

  -- So it is SendPacket(buf, len) on that block.
  pub send_packet-send_bytes :
      (s : Socket) (p : Packet) (w : World)
      → send_bytes s new_array (serialize p) w ≡ done (send_packet s p w)
  unfolding send_bytes send_packet
  send_packet-send_bytes s p w = refl

  -- `num = SDLNet_TCP_Recv(_tcp, buf + offset, maxlen)`, with the block that it leaves.
  abbrev pub placed : ℤ → World → Option (List ℕ) → Outcome (ℤ × List ℕ × World)
  placed num w none = faults
  placed num w (some block) = done (num, block, w)

  abbrev pub stored : List ℕ → ℕ → Received × World → Outcome (ℤ × List ℕ × World)
  stored block offset (failed, w) = done (negsuc 0, block, w)
  stored block offset (got bytes, w) = placed (pos (length bytes)) w (write_at block offset bytes)

  unfoldable pub receive_at : ℕ → List ℕ → ℕ → ℕ → World → Outcome (ℤ × List ℕ × World)
  receive_at handle block offset maxlen w = stored block offset (tcp_recv handle maxlen w)

  abbrev pub is_full : ℤ → ℕ → Bool
  is_full (pos n) maxlen = n == maxlen
  is_full (negsuc n) maxlen = false

  -- One round: `totread += num` (here `num` is `maxlen`), a block of twice the size, and a read
  -- behind `totread`. What realloc adds to the block is fresh memory.
  abbrev pub read_more : ℕ → List ℕ → ℕ → ℕ → List ℕ × World → Outcome (ℤ × List ℕ × World)
  read_more handle block maxlen totread (more, w) =
      receive_at handle (block ++ more) totread (maxlen * 2) w

  unfoldable pub grow : ℕ → List ℕ → ℕ → ℕ → World → Outcome (ℤ × List ℕ × World)
  grow handle block maxlen totread w = read_more handle block maxlen totread (new_block maxlen w)

  -- `while (num == maxlen)`: `num`, the block, `totread`.
  unfoldable pub tcp_loop : ℕ → ℕ → ℤ → List ℕ → ℕ → ℕ → World → Outcome (List ℕ × ℕ × World)
  unfolding grow
  tcp_loop zero handle num block maxlen totread w =
      if is_full num maxlen then out_of_fuel else done (block, totread, w)
  tcp_loop (suc fuel) handle num block maxlen totread w =
      let rest = (do
        (num', block', w') ← grow handle block maxlen (totread + maxlen) w
        tcp_loop fuel handle num' block' (maxlen * 2) (totread + maxlen) w') in
      if is_full num maxlen then rest else done (block, totread, w)

  -- The rounds that are allowed for the loop: see `Socket.Stream`.
  abbrev pub rounds : ℕ
  rounds = 2

  abbrev pub looped : List ℕ × ℕ × World → Outcome (Fetched × World)
  looped (block, totread, w) =
      done (record { buf = some block; len = pos totread; udp_packet = none }, w)

  abbrev pub tcp_fetched : ℕ → ℤ × List ℕ × World → Outcome (Fetched × World)
  tcp_fetched handle (negsuc n, block, w) =
      done (record { buf = some block; len = negsuc n; udp_packet = none }, w)
  tcp_fetched handle (pos n, block, w) = tcp_loop rounds handle (pos n) block 128 n w >>= looped

  abbrev pub tcp_data : ℕ → List ℕ × World → Outcome (Fetched × World)
  tcp_data handle (block, w) = receive_at handle block 0 128 w >>= tcp_fetched handle

  abbrev pub udp_fetched : ℕ → Option (List ℕ) × World → Outcome (Fetched × World)
  udp_fetched packet (none, w) =
      done (record { buf = none; len = pos 0; udp_packet = some packet }, w)
  udp_fetched packet (some bytes, w) =
      done (record { buf = some bytes; len = pos (length bytes); udp_packet = some packet }, w)

  abbrev pub udp_data : ℕ → ℕ × World → Outcome (Fetched × World)
  udp_data handle (packet, w) = udp_fetched packet (udp_recv handle w)

  abbrev pub protocol_data : TlProtocol → Socket → World → Outcome (Fetched × World)
  protocol_data udp s w = udp_data s.udp_handle (alloc_packet w)
  protocol_data tcp s w = tcp_data s.tcp_handle (new_block 128 w)

  -- GetData
  unfoldable pub get_data : Socket → World → Outcome (Fetched × World)
  get_data s w = protocol_data s.protocol s w
