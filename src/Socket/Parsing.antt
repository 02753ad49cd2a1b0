-- ===== src/Socket/Parsing.antt =====
-- The loop of GetPacket (shared/Socket.cpp): how it ends, and when it does not.
use native.Mathlib.Decide.{dec_lt}
use native.Mathlib.Nat.{add-zero}
use legendofstealth.Protocol.Factory.{make, factory_map, read_packet}
use legendofstealth.Protocol.Dispatch.{read_packet_cases, read_packet_known, IsClass}
use legendofstealth.Protocol.Packet.{set_udp_packet, Members, Packet}
use legendofstealth.Socket.Receive.{discard, handled, to_ℕ, is_positive, parse_loop, minus}
use legendofstealth.Net.{SdlNet}
use legendofstealth.Prelude.Int.{negsuc, pos, ℤ}
use legendofstealth.Prelude.{
  inr, inl, sym, Bool-cases, subst, faults, none, ap₂, ◌∙◌, [], ◌++◌, out_of_fuel, length, ap, ◌≤◌,
  ◌+◌, some, zero, ◌>>=◌, ◌∷◌, suc, drop, done, true, false, Outcome, arith, Option, List, ◌≡◌, ℕ,
  refl,
}

minus-zero : (len : ℤ) → minus len 0 ≡ len
minus-zero (pos n) = ground arith
minus-zero (negsuc n) = ground arith

module _ (net : SdlNet) where
  open net use {World, new_storage}

  -- A length that is not positive ends the loop at once.
  pub parse_loop_end :
      (fuel : ℕ) (buf : List ℕ) (len : ℤ) (read : ℕ) (u : Option ℕ) (q : List Packet) (w : World)
      → is_positive len ≡ false
      → parse_loop net fuel buf len read u q w ≡ done (q, w)
  unfolding parse_loop
  parse_loop_end zero buf len read u q w e = rw e
  parse_loop_end (suc fuel) buf len read u q w e = rw e

  -- One round, given what ReadPacket returns.
  parse_loop_round :
      (fuel : ℕ) (buf : List ℕ) (len : ℤ) (read : ℕ) (u : Option ℕ) (q : List Packet) (w : World)
      (o : Outcome (Option Packet × ℕ))
      → is_positive len ≡ true
      → read_packet (new_storage w).0 (drop read buf) (to_ℕ len) 0 ≡ o
      → parse_loop net (suc fuel) buf len read u q w ≡ (
          o
          >>= handled net u q
              (λ plen q' w'. parse_loop net fuel buf (minus len plen) (read + plen) u q' w')
              (new_storage w).1)
  unfolding parse_loop
  parse_loop_round fuel buf len read u q w o pos_len e = rw pos_len (
      ap
        (λ r.
          r
          >>= handled net u q
              (λ plen q' w'. parse_loop net fuel buf (minus len plen) (read + plen) u q' w')
              (new_storage w).1)
        e)

  -- A block that starts with a known type and is long enough: as `plen` stays 0, each round reads
  -- the same packet again, and no number of rounds is enough.
  pub parse_loop_hangs :
      (fuel : ℕ) (buf : List ℕ) (len : ℤ) (read : ℕ) (u : Option ℕ) (q : List Packet) (w : World)
      (type : ℕ) (rest : List ℕ) (newfunc : Members → Packet) (c : IsClass type newfunc)
      → is_positive len ≡ true
      → drop read buf ≡ type ∷ rest
      → factory_map type ≡ some newfunc
      → c.size ≤ length (type ∷ rest)
      → parse_loop net fuel buf len read u q w ≡ out_of_fuel
  unfolding parse_loop
  parse_loop_hangs zero buf len read u q w type rest newfunc c pos_len at known long = rw pos_len
  parse_loop_hangs (suc fuel) buf len read u q w type rest newfunc c pos_len at known long =
      let (r, e) =
        read_packet_known (new_storage w).0 type rest (to_ℕ len) 0 newfunc c known long in
      let q' = q ++ (set_udp_packet u r ∷ []) in
      parse_loop_round fuel buf len read u q w (done (some r, 0)) pos_len
        (ap (λ b. read_packet (new_storage w).0 b (to_ℕ len) 0) at ∙ e)
      ∙ ap₂ (λ l k. parse_loop net fuel buf l k u q' (new_storage w).1) (minus-zero len)
          (add-zero read)
      ∙ parse_loop_hangs fuel buf len read u q' (new_storage w).1 type rest newfunc c pos_len at
          known long

  -- An unknown type ends the loop; what was parsed before is kept.
  pub parse_loop_unknown :
      (fuel : ℕ) (buf : List ℕ) (len : ℤ) (read : ℕ) (u : Option ℕ) (q : List Packet) (w : World)
      (type : ℕ) (rest : List ℕ)
      → is_positive len ≡ true
      → drop read buf ≡ type ∷ rest
      → factory_map type ≡ none
      → parse_loop net (suc fuel) buf len read u q w ≡ done (q, discard net u (new_storage w).1)
  unfolding read_packet
  parse_loop_unknown fuel buf len read u q w type rest pos_len at unknown =
      parse_loop_round fuel buf len read u q w (done (none, 0)) pos_len (
        ap (λ b. read_packet (new_storage w).0 b (to_ℕ len) 0) at
        ∙ ap (λ f. make f (new_storage w).0 (type ∷ rest) (to_ℕ len) 0) unknown)

  parse_loop_faults :
      (fuel : ℕ) (buf : List ℕ) (len : ℤ) (read : ℕ) (u : Option ℕ) (q : List Packet) (w : World)
      (b : List ℕ)
      → is_positive len ≡ true
      → drop read buf ≡ b
      → read_packet (new_storage w).0 b (to_ℕ len) 0 ≡ faults
      → parse_loop net (suc fuel) buf len read u q w ≡ faults
  parse_loop_faults fuel buf len read u q w b pos_len at e =
      parse_loop_round fuel buf len read u q w faults pos_len
        (ap (λ b. read_packet (new_storage w).0 b (to_ℕ len) 0) at ∙ e)

  -- What the loop may come to, for a positive length.
  pub data Ends (q : List Packet) : Outcome (List Packet × World) → Type 0 where
    kept : (w : World) → Ends q (done (q, w))
    beyond : Ends q faults
    never : Ends q out_of_fuel

  loop_Ends :
      (fuel : ℕ) (buf : List ℕ) (len : ℤ) (read : ℕ) (u : Option ℕ) (q : List Packet) (w : World)
      (b : List ℕ)
      → is_positive len ≡ true
      → drop read buf ≡ b
      → Ends q (parse_loop net fuel buf len read u q w)
  unfolding parse_loop read_packet
  loop_Ends zero buf len read u q w b pos_len at = rw pos_len never
  loop_Ends (suc fuel) buf len read u q w [] pos_len at =
      subst (Ends q) (sym (parse_loop_faults fuel buf len read u q w [] pos_len at refl)) beyond
  loop_Ends (suc fuel) buf len read u q w (type ∷ rest) pos_len at =
      elim (read_packet_cases (new_storage w).0 type rest (to_ℕ len) 0) [
        | inl (unknown, _) ↦
            subst (Ends q)
              (sym (parse_loop_unknown fuel buf len read u q w type rest pos_len at unknown))
              (kept (discard net u (new_storage w).1))
        | inr (newfunc, c, known, long, short) ↦ elim (dec_lt (length (type ∷ rest)) c.size) [
          | yes few ↦
              subst (Ends q)
                (sym
                  (parse_loop_faults fuel buf len read u q w (type ∷ rest) pos_len at (short few)))
                beyond
          | no enough ↦
              subst (Ends q)
                (sym (
                  parse_loop_hangs (suc fuel) buf len read u q w type rest newfunc c pos_len at
                    known (omega arith)))
                never
        ]
      ]

  -- Whenever the loop of GetPacket ends, the queue is what it was before the loop.
  pub parse_loop-Ends :
      (fuel : ℕ) (buf : List ℕ) (len : ℤ) (read : ℕ) (u : Option ℕ) (q : List Packet) (w : World)
      → Ends q (parse_loop net fuel buf len read u q w)
  parse_loop-Ends fuel buf len read u q w = elim (Bool-cases (is_positive len)) [
    | inl pos_len ↦ loop_Ends fuel buf len read u q w (drop read buf) pos_len refl
    | inr not_pos ↦ subst (Ends q) (sym (parse_loop_end fuel buf len read u q w not_pos)) (kept w)
  ]
