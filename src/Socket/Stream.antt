-- ===== src/Socket/Stream.antt =====
-- What GetData makes of the data of a TCP connection (shared/Socket.cpp).
use native.Mathlib.Nat.{zero-add}
use legendofstealth.Prelude.Int.{negsuc, ℤ, pos}
use legendofstealth.Socket.State.{tcp, Socket}
use legendofstealth.Net.{failed, IsNet, got, Received, SdlNet}
use legendofstealth.Socket.Transfer.{
  protocol_data, looped, tcp_fetched, Fetched, placed, is_full, stored, grow, tcp_loop, get_data,
  receive_at, write_at,
}
use legendofstealth.Prelude.{
  inr, Outcome, inl, take, ◌⊎◌, length-drop, [], faults, length-append, zero, suc, ◌∙◌, ◌>>=◌, ap,
  drop, done, none, ◌++◌, arith, ◌+◌, some, false, true, length, ◌≡◌, List, leb, ◌<◌, ◌≤◌, ℕ, refl,
}

leb_of_le : (a b : ℕ) → a ≤ b → leb a b ≡ true
leb_of_le a b h = ground arith

leb_of_lt : (a b : ℕ) → b < a → leb a b ≡ false
leb_of_lt a b h = ground arith

pub write_at_front :
    (block bytes : List ℕ)
    → length bytes ≤ length block
    → write_at block 0 bytes ≡ some (bytes ++ drop (length bytes) block)
unfolding write_at
write_at_front block bytes h =
    rw (zero-add (length bytes), leb_of_le (length bytes) (length block) h)

pub write_at_within :
    (block : List ℕ) (offset : ℕ) (bytes : List ℕ)
    → offset + length bytes ≤ length block
    → write_at block offset bytes
      ≡ some (take offset block ++ (bytes ++ drop (offset + length bytes) block))
unfolding write_at
write_at_within block offset bytes h = rw (leb_of_le (offset + length bytes) (length block) h)

pub write_at_beyond :
    (block : List ℕ) (offset : ℕ) (bytes : List ℕ)
    → length block < offset + length bytes
    → write_at block offset bytes ≡ none
unfolding write_at
write_at_beyond block offset bytes h = rw (leb_of_lt (offset + length bytes) (length block) h)

module _ (net : SdlNet) where
  open net use {World, tcp_recv, new_block}

  pub receive_at_front :
      (handle : ℕ) (block bytes : List ℕ) (maxlen : ℕ) (w w' : World)
      → tcp_recv handle maxlen w ≡ (got bytes, w')
      → length bytes ≤ length block
      → receive_at net handle block 0 maxlen w
        ≡ done (pos (length bytes), bytes ++ drop (length bytes) block, w')
  unfolding receive_at
  receive_at_front handle block bytes maxlen w w' e h =
      ap (stored net block 0) e
      ∙ ap (placed net (pos (length bytes)) w') (write_at_front block bytes h)

  tcp_loop_stop :
      (fuel handle : ℕ) (num : ℤ) (block : List ℕ) (maxlen totread : ℕ) (w : World)
      → is_full net num maxlen ≡ false
      → tcp_loop net fuel handle num block maxlen totread w ≡ done (block, totread, w)
  unfolding tcp_loop
  tcp_loop_stop zero handle num block maxlen totread w e = rw e
  tcp_loop_stop (suc fuel) handle num block maxlen totread w e = rw e

  -- The first round of the loop, after a read that filled the block of 128 bytes.
  tcp_loop_full :
      (handle : ℕ) (block : List ℕ) (w : World)
      → tcp_loop net 2 handle (pos 128) block 128 128 w
        ≡ (grow net handle block 128 256 w >>= λ r. tcp_loop net 1 handle r.0 r.1 256 256 r.2)
  unfolding tcp_loop
  tcp_loop_full handle block w = refl

  -- What GetData hands back where nothing is left to read.
  abbrev pub fetched : List ℕ → ℤ → Fetched
  fetched block len = record { buf = some block; len = len; udp_packet = none }

module _ (net : SdlNet) (v : IsNet net) (s : Socket) (w w' : SdlNet.World net) where
  open net use {World, tcp_recv, new_block}

  abbrev first_block : List ℕ
  first_block = (new_block 128 w).0

  abbrev first_recv : Received × World
  first_recv = tcp_recv s.tcp_handle 128 (new_block 128 w).1

  -- The second block, where the first read fills the first one, and the read behind it.
  abbrev second_recv : Received × World
  second_recv = tcp_recv s.tcp_handle 256 (new_block 128 w').1

  first_read :
      (bytes : List ℕ)
      → s.protocol ≡ tcp
      → first_recv ≡ (got bytes, w')
      → length bytes ≤ 128
      → get_data net s w
        ≡ tcp_fetched net s.tcp_handle
            (pos (length bytes), bytes ++ drop (length bytes) first_block, w')
  unfolding get_data
  first_read bytes is_tcp e h =
      ap (λ p. protocol_data net p s w) is_tcp
      ∙ ap (λ r. r >>= tcp_fetched net s.tcp_handle)
          (receive_at_front net s.tcp_handle first_block bytes 128 (new_block 128 w).1 w' e
            (omega (arith, v.length-new_block 128 w)))

  -- GetData over TCP, where a new block has the length that was asked for and the first read gives
  -- fewer than 128 bytes: `len` is their number, and the block starts with them.
  pub get_data-short :
      (bytes : List ℕ)
      → s.protocol ≡ tcp
      → first_recv ≡ (got bytes, w')
      → length bytes < 128
      → get_data net s w
        ≡ done (fetched net (bytes ++ drop (length bytes) first_block) (pos (length bytes)), w')
  get_data-short bytes is_tcp e h =
      first_read bytes is_tcp e (omega arith)
      ∙ ap (λ r. r >>= looped net)
          (tcp_loop_stop net 2 s.tcp_handle (pos (length bytes)) _ 128 (length bytes) w'
            (ground arith))

  -- The state of the loop after a first read that filled the block.
  second_read :
      (bytes : List ℕ)
      → s.protocol ≡ tcp
      → first_recv ≡ (got bytes, w')
      → length bytes ≡ 128
      → get_data net s w ≡ (
          grow net s.tcp_handle (bytes ++ drop (length bytes) first_block) 128 256 w'
          >>= (λ r. tcp_loop net 1 s.tcp_handle r.0 r.1 256 256 r.2)
          >>= looped net)
  second_read bytes is_tcp e h =
      first_read bytes is_tcp e (omega arith)
      ∙ ap
          (λ n.
            tcp_loop net 2 s.tcp_handle (pos n) (bytes ++ drop (length bytes) first_block) 128 n w'
            >>= looped net)
          h
      ∙ ap (λ r. r >>= looped net)
          (tcp_loop_full net s.tcp_handle (bytes ++ drop (length bytes) first_block) w')

  -- The block that the second read writes into, at offset 256.
  abbrev grown : List ℕ → List ℕ
  grown bytes = (bytes ++ drop (length bytes) first_block) ++ (new_block 128 w').0

  length-grown : (bytes : List ℕ) → length bytes ≡ 128 → length (grown bytes) ≡ 256
  length-grown bytes h = omega (
    arith,
    length-append (bytes ++ drop (length bytes) first_block) (new_block 128 w').0,
    length-append bytes (drop (length bytes) first_block),
    length-drop (length bytes) first_block,
    v.length-new_block 128 w,
    v.length-new_block 128 w',
  )

  -- GetData over TCP, where a new block has the length that was asked for, the first read gives
  -- exactly 128 bytes, and the second gives at least one: the loop reads behind an offset that
  -- counts the first bytes twice, and writes beyond the end of the block.
  pub get_data-overflow :
      (bytes more : List ℕ) (w'' : World)
      → s.protocol ≡ tcp
      → first_recv ≡ (got bytes, w')
      → length bytes ≡ 128
      → second_recv ≡ (got more, w'')
      → 0 < length more
      → get_data net s w ≡ faults
  unfolding grow receive_at
  get_data-overflow bytes more w'' is_tcp e h e' h' =
      second_read bytes is_tcp e h
      ∙ ap
          (λ r.
            stored net (grown bytes) 256 r
            >>= (λ r. tcp_loop net 1 s.tcp_handle r.0 r.1 256 256 r.2)
            >>= looped net)
          e'
      ∙ ap
          (λ b.
            placed net (pos (length more)) w'' b
            >>= (λ r. tcp_loop net 1 s.tcp_handle r.0 r.1 256 256 r.2)
            >>= looped net)
          (write_at_beyond (grown bytes) 256 more (omega (arith, length-grown bytes h)))

  -- GetData over TCP, where a new block has the length that was asked for, the first read gives
  -- exactly 128 bytes, and the second gives none or fails: it returns a block, and `len` is 256,
  -- though 128 bytes came.
  pub get_data-exact :
      (bytes : List ℕ) (w'' : World)
      → s.protocol ≡ tcp
      → first_recv ≡ (got bytes, w')
      → length bytes ≡ 128
      → (second_recv ≡ (got [], w'')) ⊎ (second_recv ≡ (failed, w''))
      → (block : List ℕ) × (get_data net s w ≡ done (fetched net block (pos 256), w''))
  unfolding grow receive_at
  get_data-exact bytes w'' is_tcp e h (inl e') = (
    take 256 (grown bytes) ++ ([] ++ drop (256 + 0) (grown bytes)),
    second_read bytes is_tcp e h
        ∙ ap (λ r. rest (stored net (grown bytes) 256 r)) e'
        ∙ ap (λ b. rest (placed net (pos 0) w'' b))
            (write_at_within (grown bytes) 256 [] (omega (arith, length-grown bytes h)))
        ∙ ap (λ r. r >>= looped net) (tcp_loop_stop net 1 s.tcp_handle (pos 0) _ 256 256 w'' refl),
  )
    where
      rest : Outcome (ℤ × List ℕ × World) → Outcome (Fetched × World)
      rest o = o >>= (λ r. tcp_loop net 1 s.tcp_handle r.0 r.1 256 256 r.2) >>= looped net
  get_data-exact bytes w'' is_tcp e h (inr e') = (
    grown bytes,
    second_read bytes is_tcp e h
        ∙ ap (λ r. rest (stored net (grown bytes) 256 r)) e'
        ∙ ap (λ r. r >>= looped net)
            (tcp_loop_stop net 1 s.tcp_handle (negsuc 0) _ 256 256 w'' refl),
  )
    where
      rest : Outcome (ℤ × List ℕ × World) → Outcome (Fetched × World)
      rest o = o >>= (λ r. tcp_loop net 1 s.tcp_handle r.0 r.1 256 256 r.2) >>= looped net

  -- A failed first read is handed on as a block of `len` -1.
  pub get_data-failed :
      s.protocol ≡ tcp
      → first_recv ≡ (failed, w')
      → get_data net s w ≡ done (fetched net first_block (negsuc 0), w')
  unfolding get_data receive_at
  get_data-failed is_tcp e =
      ap (λ p. protocol_data net p s w) is_tcp
      ∙ ap (λ r. stored net first_block 0 r >>= tcp_fetched net s.tcp_handle) e
