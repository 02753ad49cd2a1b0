-- ===== src/Protocol/Dispatch.antt =====
-- What PacketFactory::ReadPacket does with the first byte of a block (shared/Protocol.cpp), and the
-- packet classes that the factory knows.
use legendofstealth.Protocol.Bounds.{
  deserialize_fields_other, deserialize_enough, deserialize_short,
}
use legendofstealth.Protocol.RoundTrip.{NotIn, fields_size, Distinct}
use legendofstealth.Protocol.Words.{IsByte}
use legendofstealth.Protocol.Factory.{
  made, make, read_packet, packet_player_did_join, packet_join_response, packet_join_request,
  factory_map, new_player_did_join, new_join_response, new_join_request,
}
use legendofstealth.Protocol.Packet.{
  read_field, deserialize_fields-cons, with_members, deserialize_fields, store_byte,
  get_packet_type, deserialize, byte_field, Field, type_ptr, add_field, new_packet, Packet, Members,
}
use mathlib.Core.Option.{none-ne-some, some_inj}
use mathlib.Core.Path.{subst₂}
use legendofstealth.Prelude.{
  subst, [], ◌∙◌, Option-cases, faults, ◌<◌, ap, ◌⊎◌, done, Option, none, length, ◌≤◌, ==_iff, sym,
  inr, ◌∷◌, inl, List, ◌==◌, arith, Bool-cases, some, ℕ, ◌≡◌, refl,
}

-- The classes that the factory makes: their types fit a byte, they take ten bytes at
-- most, their members have distinct addresses, and their first field is the type.
pub record IsClass (type : ℕ) (newfunc : Members → Packet) : Type 0 where
  pub size : ℕ
  pub short : size ≤ 10
  pub small : IsByte type
  pub distinct : (storage : Members) → Distinct (newfunc storage).fields
  pub sized : (storage : Members) → fields_size (newfunc storage).fields ≡ size
  pub typed : (storage : Members) → (newfunc storage).members type_ptr ≡ type
  pub first :
      (storage : Members)
      → (fs : List Field) × ((newfunc storage).fields
          ≡ record { type = byte_field; ptr = type_ptr } ∷ fs)

join_request-IsClass : IsClass packet_join_request new_join_request
unfolding new_join_request new_packet add_field
join_request-IsClass = record {
  size = 5;
  short = omega arith;
  small = omega arith;
  distinct = λ s. omega arith;
  sized = λ s. refl;
  typed = λ s. refl;
  first = λ s. (_, refl);
}

join_response-IsClass : IsClass packet_join_response new_join_response
unfolding new_join_response new_packet add_field
join_response-IsClass = record {
  size = 10;
  short = omega arith;
  small = omega arith;
  distinct = λ s. omega arith;
  sized = λ s. refl;
  typed = λ s. refl;
  first = λ s. (_, refl);
}

player_did_join-IsClass : IsClass packet_player_did_join new_player_did_join
unfolding new_player_did_join new_packet add_field
player_did_join-IsClass = record {
  size = 9;
  short = omega arith;
  small = omega arith;
  distinct = λ s. omega arith;
  sized = λ s. refl;
  typed = λ s. refl;
  first = λ s. (_, refl);
}

-- Every type that the factory knows is 1, 2 or 3, and its class is one of the three.
pub factory_map-IsClass :
    (type : ℕ) (newfunc : Members → Packet) → factory_map type ≡ some newfunc → IsClass type newfunc
unfolding factory_map
factory_map-IsClass type newfunc e = elim (Bool-cases (type == packet_join_request)) [
  | inl a ↦
      subst₂ IsClass (sym ((==_iff type packet_join_request).0 a)) (some_inj.0 (rw a at e))
        join_request-IsClass
  | inr a ↦ elim (Bool-cases (type == packet_join_response)) [
    | inl b ↦
        subst₂ IsClass (sym ((==_iff type packet_join_response).0 b)) (some_inj.0 (rw (a, b) at e))
          join_response-IsClass
    | inr b ↦ elim (Bool-cases (type == packet_player_did_join)) [
      | inl c ↦
          subst₂ IsClass (sym ((==_iff type packet_player_did_join).0 c))
            (some_inj.0 (rw (a, b, c) at e)) player_did_join-IsClass
      | inr c ↦ absurd (none-ne-some _ (rw (a, b, c) at e))
    ]
  ]
]

-- A packet whose first field is its type takes the first byte of the block for it.
get_packet_type-deserialize :
    (p r : Packet) (fs : List Field) (b : ℕ) (rest : List ℕ) (n k : ℕ)
    → p.fields ≡ record { type = byte_field; ptr = type_ptr } ∷ fs
    → NotIn type_ptr fs
    → IsByte (p.members type_ptr)
    → deserialize p (b ∷ rest) n ≡ some (r, k)
    → get_packet_type r ≡ b
unfolding deserialize get_packet_type read_field
get_packet_type-deserialize p r fs b rest n k same others small e =
    elim (Option-cases (deserialize_fields m1 fs (b ∷ rest) 1)) [
      | inl bad ↦ absurd (none-ne-some _ (sym (unfolded none bad) ∙ e))
      | inr ((m2, j), good) ↦
          let q : (record p { members = m2 }, j) ≡ (r, k) =
            some_inj.0 (sym (unfolded (some (m2, j)) good) ∙ e) in
          ap (λ (x : Packet × ℕ). x.0.members type_ptr) (sym q)
          ∙ deserialize_fields_other m1 m2 fs (b ∷ rest) 1 j type_ptr others good
          ∙ at_type
    ]
  where
    m1 : Members
    m1 = store_byte p.members type_ptr b

    at_type : m1 type_ptr ≡ b
    at_type = ground arith

    unfolded :
        (o : Option (Members × ℕ))
        → deserialize_fields m1 fs (b ∷ rest) 1 ≡ o
        → with_members p (deserialize_fields p.members p.fields (b ∷ rest) 0) ≡ with_members p o
    unfolded o h =
        ap (λ l. with_members p (deserialize_fields p.members l (b ∷ rest) 0)) same
        ∙ ap (with_members p) (
            deserialize_fields-cons p.members m1 (record { type = byte_field; ptr = type_ptr }) fs
              (b ∷ rest) 0 1 refl
            ∙ h)

-- A packet of a class, read from a block that starts with the type of the class.
class_read :
    (type : ℕ) (newfunc : Members → Packet) (c : IsClass type newfunc) (storage : Members)
    (rest : List ℕ) (n : ℕ)
    → c.size ≤ length (type ∷ rest)
    → (r : Packet) × (deserialize (newfunc storage) (type ∷ rest) n ≡ some (r, c.size))
      × (get_packet_type r ≡ type)
class_read type newfunc c storage rest n h =
    let (r, e) = deserialize_enough (newfunc storage) (type ∷ rest) n (rw (c.sized storage) h) in
    let (fs, first) = c.first storage in
    (
      r,
      e ∙ ap (λ k. some (r, k)) (c.sized storage),
      get_packet_type-deserialize (newfunc storage) r fs type rest n _ first
          (subst Distinct first (c.distinct storage)).0 (rw (c.typed storage) c.small) e,
    )

-- ReadPacket on a block with a first byte, whatever lengths it is told. A type other than those of
-- the three classes gives NULL. For the others there is a size such that a block of that size gives
-- a packet of that type, and a shorter one is read beyond its end. `packetlen` is left as it was.
pub read_packet_cases :
    (storage : Members) (type : ℕ) (rest : List ℕ) (n packetlen : ℕ)
    → ((factory_map type ≡ none)
        × (read_packet storage (type ∷ rest) n packetlen ≡ done (none, packetlen)))
      ⊎ ((newfunc : Members → Packet) × (c : IsClass type newfunc) × (factory_map type
            ≡ some newfunc)
          × (c.size ≤ length (type ∷ rest)
              → (r : Packet) × (read_packet storage (type ∷ rest) n packetlen
                  ≡ done (some r, packetlen))
                × (get_packet_type r ≡ type))
          × (length (type ∷ rest) < c.size
              → read_packet storage (type ∷ rest) n packetlen ≡ faults))
unfolding read_packet
read_packet_cases storage type rest n packetlen = elim (Option-cases (factory_map type)) [
  | inl unknown ↦ inl (unknown, ap (λ o. make o storage (type ∷ rest) n packetlen) unknown)
  | inr (newfunc, known) ↦
      let c = factory_map-IsClass type newfunc known in
      let made_by =
        λ (o : Option (Packet × ℕ)) (e : deserialize (newfunc storage) (type ∷ rest) n ≡ o).
          ap (λ f. make f storage (type ∷ rest) n packetlen) known ∙ ap (λ x. made x packetlen) e in
      inr (
        newfunc,
        c,
        known,
        λ h. let (r, e, t) = class_read type newfunc c storage rest n h in (r, made_by _ e, t),
        λ h.
            made_by none
              (deserialize_short (newfunc storage) (type ∷ rest) n (rw (c.sized storage) h)),
      )
]

-- Whatever ReadPacket returns, `packetlen` is what it was before the call.
pub read_packet-packetlen :
    (storage : Members) (buffer : List ℕ) (n packetlen : ℕ) {o : Option Packet} {k : ℕ}
    → read_packet storage buffer n packetlen ≡ done (o, k)
    → k ≡ packetlen
unfolding read_packet
read_packet-packetlen storage [] n packetlen e = cc
read_packet-packetlen storage (type ∷ rest) n packetlen e = ground arith

-- ReadPacket on a block that starts with a type that the factory knows.
pub read_packet_known :
    (storage : Members) (type : ℕ) (rest : List ℕ) (n packetlen : ℕ) (newfunc : Members → Packet)
    (c : IsClass type newfunc)
    → factory_map type ≡ some newfunc
    → c.size ≤ length (type ∷ rest)
    → (r : Packet) × (read_packet storage (type ∷ rest) n packetlen ≡ done (some r, packetlen))
unfolding read_packet
read_packet_known storage type rest n packetlen newfunc c known long =
    let (r, e, _) = class_read type newfunc c storage rest n long in
    (r, ap (λ f. make f storage (type ∷ rest) n packetlen) known ∙ ap (λ x. made x packetlen) e)
