-- ===== src/Socket/Delivery.antt =====
-- What Socket::GetPacket delivers of what comes over a connection (shared/Socket.cpp).
use legendofstealth.Protocol.Dispatch.{factory_map-IsClass}
use legendofstealth.Protocol.Factory.{factory_map}
use legendofstealth.Socket.Stream.{get_data-failed, get_data-short}
use legendofstealth.Socket.Parsing.{
  parse_loop_end, parse_loop_unknown, parse_loop_hangs, parse_loop-Ends, never, beyond, kept, Ends,
}
use legendofstealth.Socket.Transfer.{is_zero, get_data, Fetched}
use legendofstealth.Prelude.Int.{negsuc, pos, ℤ}
use legendofstealth.Protocol.Packet.{Members, Packet}
use legendofstealth.Socket.State.{is_connection_open, tcp, Socket}
use legendofstealth.Socket.Receive.{
  is_tcp, parse_loop, queued, has_activity, parse, pop_packet, fetch, parse_buffer, get_packet, Got,
}
use legendofstealth.Net.{failed, got, Received, IsNet, SdlNet}
use legendofstealth.Prelude.{
  length-drop, length-append, arith, suc, drop, ◌++◌, ◌<◌, inr, length, inl, ◌∙◌, sym, ◌∷◌, false,
  true, Bool-cases, out_of_fuel, throws, ap, some, faults, subst, ◌>>=◌, [], none, ◌≡◌, Bool,
  Outcome, Option, List, done, ℕ, refl,
}

module _ (net : SdlNet) where
  open net use {World, tcp_recv, new_block, new_storage}

  -- If the call returned, it returned NULL and left the queue empty.
  abbrev Quiet : Got net → Type 0
  Quiet (done (o, s, w)) = (o ≡ none) × (s.pqueue ≡ [])
  Quiet faults = Unit
  Quiet throws = Unit
  Quiet out_of_fuel = Unit

  pop-Quiet :
      (s : Socket) (q : List Packet) (o : Outcome (List Packet × World))
      → q ≡ []
      → Ends net q o
      → Quiet (o >>= pop_packet net s)
  pop-Quiet s [] _ e (kept w) = (refl, refl)
  pop-Quiet s (p ∷ q) _ e (kept w) = absurd (cc)
  pop-Quiet s q _ e beyond = tt
  pop-Quiet s q _ e never = tt

  parse-Quiet :
      (fuel : ℕ) (s : Socket) (buf : Option (List ℕ)) (len : ℤ) (u : Option ℕ) (w : World)
      → s.pqueue ≡ []
      → Quiet (parse_buffer net fuel s buf len u w)
  parse-Quiet fuel s none len u w e = (refl, e)
  parse-Quiet fuel s (some buf) len u w e = elim (Bool-cases (is_zero len)) [
    | inl zero_len ↦ rw zero_len (refl, e)
    | inr other ↦
        rw other (pop-Quiet s s.pqueue _ e (parse_loop-Ends net fuel buf len 0 u s.pqueue w))
  ]

  data_Quiet :
      (fuel : ℕ) (s : Socket) (o : Outcome (Fetched × World))
      → s.pqueue ≡ []
      → Quiet (o >>= parse net fuel s)
  data_Quiet fuel s (done (f, w)) e = parse-Quiet fuel s f.buf f.len f.udp_packet w e
  data_Quiet fuel s faults e = tt
  data_Quiet fuel s throws e = tt
  data_Quiet fuel s out_of_fuel e = tt

  fetch-Quiet :
      (fuel : ℕ) (s : Socket) (a : Bool × World) → s.pqueue ≡ [] → Quiet (fetch net fuel s a)
  fetch-Quiet fuel s (false, w) e = (refl, e)
  fetch-Quiet fuel s (true, w) e = data_Quiet fuel s (get_data net s w) e

  -- GetPacket on a socket whose queue is empty, as it is in a new one: whatever the network sends
  -- and however long the call runs, if it returns then it returns NULL, and the queue is still empty.
  pub get_packet-none :
      (fuel : ℕ) (s s' : Socket) (w w' : World) (o : Option Packet)
      → s.pqueue ≡ []
      → get_packet net fuel s w ≡ done (o, s', w')
      → (o ≡ none) × (s'.pqueue ≡ [])
  unfolding get_packet
  get_packet-none fuel s s' w w' o e h =
      subst Quiet (ap (λ q. queued net fuel q s w) (sym e) ∙ h)
        (fetch-Quiet fuel s (has_activity net s w) e)

module _ (net : SdlNet) (v : IsNet net) (s : Socket) (w w0 w1 : SdlNet.World net)
    (empty : s.pqueue ≡ []) (over_tcp : s.protocol ≡ tcp)
    (active : has_activity net s w ≡ (true, w0)) where
  open net use {World, tcp_recv, new_block, new_storage}

  abbrev arrived : Received × World
  arrived = tcp_recv s.tcp_handle 128 (new_block 128 w0).1

  start : (fuel : ℕ) → get_packet net fuel s w ≡ (get_data net s w0 >>= parse net fuel s)
  unfolding get_packet
  start fuel = ap (λ q. queued net fuel q s w) empty ∙ ap (fetch net fuel s) active

  parse_short :
      (fuel : ℕ) (b : ℕ) (bytes : List ℕ)
      → arrived ≡ (got (b ∷ bytes), w1)
      → length (b ∷ bytes) < 128
      → get_packet net fuel s w ≡ (
          parse_loop net fuel
            (b ∷ (bytes ++ drop (length (b ∷ bytes)) (new_block 128 w0).0))
            (pos (length (b ∷ bytes)))
            0
            none
            s.pqueue
            w1
          >>= pop_packet net s)
  parse_short fuel b bytes e h =
      start fuel
      ∙ ap (λ o. o >>= parse net fuel s) (get_data-short net v s w0 w1 (b ∷ bytes) over_tcp e h)

  length-block :
      (b : ℕ) (bytes : List ℕ)
      → length (b ∷ bytes) < 128
      → length (b ∷ (bytes ++ drop (length (b ∷ bytes)) (new_block 128 w0).0)) ≡ 128
  length-block b bytes h = omega (
    arith,
    length-append bytes (drop (length (b ∷ bytes)) (new_block 128 w0).0),
    length-drop (length (b ∷ bytes)) (new_block 128 w0).0,
    v.length-new_block 128 w0,
  )

  nothing_popped : (w2 : World) → pop_packet net s (s.pqueue, w2) ≡ done (none, s, w2)
  nothing_popped w2 =
      ap (λ q. pop_packet net s (q, w2)) empty
      ∙ ap (λ q. done (none, record s { pqueue = q }, w2)) (sym empty)

  -- GetPacket over TCP on a socket with activity and an empty queue, where a new block has the
  -- length that was asked for and the read gives fewer than 128 bytes that start with a type that
  -- the factory knows: no number of rounds is enough for the call to return.
  pub get_packet-hangs :
      (fuel type : ℕ) (bytes : List ℕ) (newfunc : Members → Packet)
      → arrived ≡ (got (type ∷ bytes), w1)
      → length (type ∷ bytes) < 128
      → factory_map type ≡ some newfunc
      → get_packet net fuel s w ≡ out_of_fuel
  get_packet-hangs fuel type bytes newfunc e h known =
      let c = factory_map-IsClass type newfunc known in
      let block = bytes ++ drop (length (type ∷ bytes)) (new_block 128 w0).0 in
      parse_short fuel type bytes e h
      ∙ ap (λ o. o >>= pop_packet net s)
          (parse_loop_hangs net fuel (type ∷ block) (pos (length (type ∷ bytes))) 0 none s.pqueue w1
            type block newfunc c refl refl known
            (omega (arith, c.short, length-block type bytes h)))

  -- GetPacket over TCP on a socket with activity and an empty queue, where a new block has the
  -- length that was asked for and the read gives fewer than 128 bytes that start with no known
  -- type: the call returns NULL, and the socket is left as it was.
  pub get_packet-unknown :
      (fuel type : ℕ) (bytes : List ℕ)
      → arrived ≡ (got (type ∷ bytes), w1)
      → length (type ∷ bytes) < 128
      → factory_map type ≡ none
      → get_packet net (suc fuel) s w ≡ done (none, s, (new_storage w1).1)
  get_packet-unknown fuel type bytes e h unknown =
      let block = bytes ++ drop (length (type ∷ bytes)) (new_block 128 w0).0 in
      parse_short (suc fuel) type bytes e h
      ∙ ap (λ o. o >>= pop_packet net s)
          (parse_loop_unknown net fuel (type ∷ block) (pos (length (type ∷ bytes))) 0 none s.pqueue
            w1 type block refl refl unknown)
      ∙ nothing_popped (new_storage w1).1

  -- GetPacket over TCP on a socket with activity and an empty queue, where a new block has the
  -- length that was asked for and the peer has closed the connection: the call returns NULL, and
  -- the connection counts as closed from then on.
  pub get_packet-closed :
      (fuel : ℕ)
      → arrived ≡ (got [], w1)
      → (s' : Socket) × (get_packet net fuel s w ≡ done (none, s', w1))
        × (is_connection_open s' ≡ false)
  unfolding is_connection_open
  get_packet-closed fuel e = (
    record s { tcp_disconnect = true },
    start fuel
        ∙ ap (λ o. o >>= parse net fuel s)
            (get_data-short net v s w0 w1 [] over_tcp e (omega arith))
        ∙ ap (λ p. done (none, record s { tcp_disconnect = is_tcp net p }, w1)) over_tcp,
    refl,
  )

  -- GetPacket over TCP on a socket with activity and an empty queue, where a new block has the
  -- length that was asked for and the read fails: the call returns NULL, but the socket is left as
  -- it was.
  pub get_packet-lost :
      (fuel : ℕ) → arrived ≡ (failed, w1) → get_packet net fuel s w ≡ done (none, s, w1)
  get_packet-lost fuel e =
      start fuel
      ∙ ap (λ o. o >>= parse net fuel s) (get_data-failed net v s w0 w1 over_tcp e)
      ∙ ap (λ o. o >>= pop_packet net s)
          (parse_loop_end net fuel (new_block 128 w0).0 (negsuc 0) 0 none s.pqueue w1 refl)
      ∙ nothing_popped w1
