-- ===== src/Protocol/Bounds.antt =====
-- When Deserialize stays inside the block that it is given (shared/Protocol.cpp).
use mathlib.Core.Option.{none-ne-some}
use legendofstealth.Protocol.RoundTrip.{NotIn, fields_size, field_size}
use native.Mathlib.Decide.{dec_lt}
use legendofstealth.Protocol.Words.{
  swapped, load_dword_enough, load_dword_short, read_uint, read_int, read_float,
}
use legendofstealth.Protocol.Packet.{
  with_members, deserialize_fields-none, deserialize_fields-cons, load_word, Field, FieldType,
  Packet, Members, deserialize, deserialize_fields, read_field, uint32, int32, float32, byte_field,
}
use legendofstealth.Prelude.{
  inr, sym, inl, Option-cases, ◌≢◌, refl, ℕ, ◌+◌, ◌≤◌, ◌<◌, ◌≡◌, ap, ◌∙◌, List, [], ◌∷◌, none, some,
  drop, length, length-drop, arith,
}

read_field_enough :
    (m : Members) (t : FieldType) (a : ℕ) (buf : List ℕ)
    → field_size t ≤ length buf
    → (m' : Members) × (read_field m t a buf ≡ some (m', field_size t))
unfolding read_field read_uint read_int read_float
read_field_enough m uint32 a buf h =
    let (w, e) = load_dword_enough buf h in (_, ap (λ o. load_word m a (swapped o)) e)
read_field_enough m int32 a buf h =
    let (w, e) = load_dword_enough buf h in (_, ap (λ o. load_word m a (swapped o)) e)
read_field_enough m float32 a buf h =
    let (w, e) = load_dword_enough buf h in (_, ap (λ o. load_word m a (swapped o)) e)
read_field_enough m byte_field a [] h = absurd (omega arith)
read_field_enough m byte_field a (b ∷ rest) h = (_, refl)

read_field_short :
    (m : Members) (t : FieldType) (a : ℕ) (buf : List ℕ)
    → length buf < field_size t
    → read_field m t a buf ≡ none
unfolding read_field read_uint read_int read_float
read_field_short m uint32 a buf h = ap (λ o. load_word m a (swapped o)) (load_dword_short buf h)
read_field_short m int32 a buf h = ap (λ o. load_word m a (swapped o)) (load_dword_short buf h)
read_field_short m float32 a buf h = ap (λ o. load_word m a (swapped o)) (load_dword_short buf h)
read_field_short m byte_field a [] h = refl
read_field_short m byte_field a (b ∷ rest) h = absurd (omega arith)

deserialize_fields_enough :
    (m : Members) (fs : List Field) (buf : List ℕ) (read : ℕ)
    → read + fields_size fs ≤ length buf
    → (m' : Members) × (deserialize_fields m fs buf read ≡ some (m', read + fields_size fs))
unfolding deserialize_fields
deserialize_fields_enough m [] buf read h = (m, ap (λ n. some (m, n)) (omega arith))
deserialize_fields_enough m (f ∷ fs) buf read h =
    let (m', e) =
      read_field_enough m f.type f.ptr (drop read buf) (omega (arith, length-drop read buf)) in
    let (m'', e') = deserialize_fields_enough m' fs buf (read + field_size f.type) (omega arith) in
    (
      m'',
      deserialize_fields-cons m m' f fs buf read (field_size f.type) e
          ∙ e'
          ∙ ap (λ n. some (m'', n)) (omega arith),
    )

deserialize_fields_short :
    (m : Members) (fs : List Field) (buf : List ℕ) (read : ℕ)
    → read ≤ length buf
    → length buf < read + fields_size fs
    → deserialize_fields m fs buf read ≡ none
unfolding deserialize_fields
deserialize_fields_short m [] buf read r h = absurd (omega arith)
deserialize_fields_short m (f ∷ fs) buf read r h =
    elim (dec_lt (length (drop read buf)) (field_size f.type)) [
      | yes short ↦
          deserialize_fields-none m f fs buf read
            (read_field_short m f.type f.ptr (drop read buf) short)
      | no long ↦
          let (m', e) = read_field_enough m f.type f.ptr (drop read buf) (omega arith) in
          deserialize_fields-cons m m' f fs buf read (field_size f.type) e
          ∙ deserialize_fields_short m' fs buf (read + field_size f.type)
              (omega (arith, length-drop read buf)) (omega arith)
    ]

-- Deserialize of any packet, whatever the length that it is told, where the block holds at least the
-- bytes that all fields take: it succeeds, having read exactly these.
pub deserialize_enough :
    (p : Packet) (buf : List ℕ) (buflen : ℕ)
    → fields_size p.fields ≤ length buf
    → (r : Packet) × (deserialize p buf buflen ≡ some (r, fields_size p.fields))
unfolding deserialize
deserialize_enough p buf buflen h =
    let (m, e) = deserialize_fields_enough p.members p.fields buf 0 (omega arith) in
    (record p { members = m }, ap (with_members p) (e ∙ ap (λ n. some (m, n)) (omega arith)))

-- Deserialize of any packet, whatever the length that it is told, where the block holds fewer bytes
-- than all fields take: it reads beyond the end of the block.
pub deserialize_short :
    (p : Packet) (buf : List ℕ) (buflen : ℕ)
    → length buf < fields_size p.fields
    → deserialize p buf buflen ≡ none
unfolding deserialize
deserialize_short p buf buflen h =
    ap (with_members p)
      (deserialize_fields_short p.members p.fields buf 0 (omega arith) (omega arith))

read_field_other :
    (m m' : Members) (t : FieldType) (a b n : ℕ) (buf : List ℕ)
    → a ≢ b
    → read_field m t a buf ≡ some (m', n)
    → m' b ≡ m b
unfolding read_field read_uint read_int read_float
read_field_other m m' uint32 a b n buf h e = ground arith
read_field_other m m' int32 a b n buf h e = ground arith
read_field_other m m' float32 a b n buf h e = ground arith
read_field_other m m' byte_field a b n [] h e = ground arith
read_field_other m m' byte_field a b n (c ∷ rest) h e = ground arith

-- A member that no field points at keeps its value.
pub deserialize_fields_other :
    (m m' : Members) (fs : List Field) (buf : List ℕ) (read n a : ℕ)
    → NotIn a fs
    → deserialize_fields m fs buf read ≡ some (m', n)
    → m' a ≡ m a
unfolding deserialize_fields
deserialize_fields_other m m' [] buf read n a h e = cc
deserialize_fields_other m m' (f ∷ fs) buf read n a h e =
    elim (Option-cases (read_field m f.type f.ptr (drop read buf))) [
      | inl bad ↦ absurd (none-ne-some _ (sym (deserialize_fields-none m f fs buf read bad) ∙ e))
      | inr ((m1, k), good) ↦
          deserialize_fields_other m1 m' fs buf (read + k) n a h.1
            (sym (deserialize_fields-cons m m1 f fs buf read k good) ∙ e)
          ∙ read_field_other m m1 f.type f.ptr a k (drop read buf) h.0 good
    ]
