-- ===== src/Socket/Ending.antt =====
-- The loop of GetData ends (shared/Socket.cpp).
use legendofstealth.Prelude.Int.{pos}
use legendofstealth.Socket.Stream.{
  get_data-short, get_data-exact, get_data-overflow, get_data-failed, write_at_beyond,
}
use legendofstealth.Socket.Transfer.{
  get_data, udp_fetched, protocol_data, receive_at, tcp_fetched, placed, stored,
}
use legendofstealth.Socket.State.{Socket, tcp, udp, TlProtocol}
use legendofstealth.Net.{SdlNet, IsNet, Received, got, failed}
use legendofstealth.Prelude.{
  [], ◌>>=◌, ◌∷◌, out_of_fuel, none, throws, ◌∙◌, inl, faults, some, arith, ap, inr, sym, Option,
  ◌<◌, length, subst, done, ◌≡◌, List, Outcome, refl, ℕ,
}
use native.Mathlib.Decide.{dec_lt}

-- The call returns or faults: the rounds that are allowed are enough.
abbrev pub IsEnded : {A : Type 0} → Outcome A → Type 0
IsEnded (done a) = Unit
IsEnded faults = Unit
IsEnded throws = ⊥
IsEnded out_of_fuel = ⊥

IsEnded-of_eq : {A : Type 0} (o p : Outcome A) → o ≡ p → IsEnded p → IsEnded o
IsEnded-of_eq o p e h = subst IsEnded (sym e) h

module _ (net : SdlNet) (v : IsNet net) (s : Socket) (w : SdlNet.World net) where
  open net use {World, tcp_recv, new_block, udp_recv, alloc_packet}

  full-IsEnded :
      (bytes : List ℕ) (w1 : World) (second : Received × World)
      → s.protocol ≡ tcp
      → tcp_recv s.tcp_handle 128 (new_block 128 w).1 ≡ (got bytes, w1)
      → length bytes ≡ 128
      → tcp_recv s.tcp_handle 256 (new_block 128 w1).1 ≡ second
      → IsEnded (get_data net s w)
  full-IsEnded bytes w1 (failed, w2) over_tcp e h e' =
      let (block, q) = get_data-exact net v s w w1 bytes w2 over_tcp e h (inr e') in
      IsEnded-of_eq _ _ q tt
  full-IsEnded bytes w1 (got [], w2) over_tcp e h e' =
      let (block, q) = get_data-exact net v s w w1 bytes w2 over_tcp e h (inl e') in
      IsEnded-of_eq _ _ q tt
  full-IsEnded bytes w1 (got (b ∷ more), w2) over_tcp e h e' =
      IsEnded-of_eq _ _
        (get_data-overflow net v s w w1 bytes (b ∷ more) w2 over_tcp e h e' (omega arith)) tt

  long-IsEnded :
      (bytes : List ℕ) (w1 : World)
      → s.protocol ≡ tcp
      → tcp_recv s.tcp_handle 128 (new_block 128 w).1 ≡ (got bytes, w1)
      → 128 < length bytes
      → IsEnded (get_data net s w)
  unfolding get_data receive_at
  long-IsEnded bytes w1 over_tcp e h =
      IsEnded-of_eq _ _
        (ap (λ p. protocol_data net p s w) over_tcp
          ∙ ap (λ r. stored net (new_block 128 w).0 0 r >>= tcp_fetched net s.tcp_handle) e
          ∙ ap (λ b. placed net (pos (length bytes)) w1 b >>= tcp_fetched net s.tcp_handle)
              (write_at_beyond (new_block 128 w).0 0 bytes
                (omega (arith, v.length-new_block 128 w))))
        tt

  tcp-IsEnded :
      (first : Received × World)
      → s.protocol ≡ tcp
      → tcp_recv s.tcp_handle 128 (new_block 128 w).1 ≡ first
      → IsEnded (get_data net s w)
  tcp-IsEnded (failed, w1) over_tcp e =
      IsEnded-of_eq _ _ (get_data-failed net v s w w1 over_tcp e) tt
  tcp-IsEnded (got bytes, w1) over_tcp e = elim (dec_lt (length bytes) 128) [
    | yes short ↦ IsEnded-of_eq _ _ (get_data-short net v s w w1 bytes over_tcp e short) tt
    | no not_short ↦ elim (dec_lt 128 (length bytes)) [
      | yes long ↦ long-IsEnded bytes w1 over_tcp e long
      | no not_long ↦ full-IsEnded bytes w1 _ over_tcp e (omega arith) refl
    ]
  ]

  udp-IsEnded : s.protocol ≡ udp → IsEnded (get_data net s w)
  unfolding get_data
  udp-IsEnded over_udp =
      IsEnded-of_eq _ _ (ap (λ p. protocol_data net p s w) over_udp)
        (received (udp_recv s.udp_handle (alloc_packet w).1))
    where
      received : (r : Option (List ℕ) × World) → IsEnded (udp_fetched net (alloc_packet w).0 r)
      received (none, w1) = tt
      received (some bytes, w1) = tt

  -- GetData, where a new block has the length that was asked for, never runs out of the two rounds
  -- that the model allows its loop, whatever the network sends: it returns, or it faults.
  pub get_data-IsEnded : IsEnded (get_data net s w)
  get_data-IsEnded = by_protocol s.protocol refl
    where
      by_protocol : (p : TlProtocol) → s.protocol ≡ p → IsEnded (get_data net s w)
      by_protocol tcp e = tcp-IsEnded _ e refl
      by_protocol udp e = udp-IsEnded e
