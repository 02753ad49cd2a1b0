-- ===== src/Protocol/Delivery.antt =====
-- A packet of a class that the factory knows, sent by Serialize and received by ReadPacket
-- (shared/Protocol.cpp).
use legendofstealth.Protocol.Dispatch.{factory_map-IsClass}
use legendofstealth.Protocol.Words.{IsByte}
use legendofstealth.Protocol.RoundTrip.{
  Distinct, serialize_fields-wire, deserialize-serialize, wire, AllFit,
}
use legendofstealth.Protocol.Factory.{made, make, factory_map, read_packet}
use legendofstealth.Protocol.Packet.{
  deserialize, serialize_fields, type_ptr, byte_field, Field, Members, Packet, get_packet_type,
  field_bytes, serialize,
}
use legendofstealth.Prelude.{
  subst, arith, sym, [], ◌∙◌, ap, All, done, ◌++◌, ◌∷◌, some, ◌≡◌, List, ℕ,
}

serialize_head :
    (p : Packet) (fs : List Field)
    → p.fields ≡ record { type = byte_field; ptr = type_ptr } ∷ fs
    → IsByte (p.members type_ptr)
    → serialize p ≡ p.members type_ptr ∷ wire p.members fs
unfolding serialize field_bytes
serialize_head p fs first small =
    ap (λ l. serialize_fields p.members l []) first
    ∙ serialize_fields-wire p.members (record { type = byte_field; ptr = type_ptr } ∷ fs) []
    ∙ ap (λ b. b ∷ wire p.members fs) (omega arith)

-- ReadPacket, given what Serialize wrote of a packet whose type the factory knows, with the fields
-- of its class and with values that fit them, and anything behind it, whatever it is told of the
-- lengths and whatever the storage of the new object held: the packet that it returns has the
-- sender's type and the sender's value in every field.
pub read_packet-serialize :
    (storage : Members) (p : Packet) (newfunc : Members → Packet) (rest : List ℕ) (n packetlen : ℕ)
    → factory_map (get_packet_type p) ≡ some newfunc
    → p.fields ≡ (newfunc storage).fields
    → AllFit p.members (newfunc storage).members p.fields
    → (r : Packet) × (read_packet storage (serialize p ++ rest) n packetlen
        ≡ done (some r, packetlen))
      × (get_packet_type r ≡ get_packet_type p)
      × All (λ f. r.members f.ptr ≡ p.members f.ptr) p.fields
unfolding read_packet get_packet_type
read_packet-serialize storage p newfunc rest n packetlen known same fit =
    let c = factory_map-IsClass (p.members type_ptr) newfunc known in
    let (fs, class_first) = c.first storage in
    let first = same ∙ class_first in
    let (r, e, values, _, _) =
      deserialize-serialize p (newfunc storage) rest n (sym same)
        (subst Distinct (sym same) (c.distinct storage)) fit in
    let buffer = ap (λ l. l ++ rest) (serialize_head p fs first c.small) in
    (
      r,
      ap (λ b. read_packet storage b n packetlen) buffer
          ∙ ap (λ f. make f storage (p.members type_ptr ∷ (wire p.members fs ++ rest)) n packetlen)
              known
          ∙ ap (λ b. made (deserialize (newfunc storage) b n) packetlen) (sym buffer)
          ∙ ap (λ o. made o packetlen) e,
      (subst (λ l. All (λ f. r.members f.ptr ≡ p.members f.ptr) l) first values).0,
      values,
    )
