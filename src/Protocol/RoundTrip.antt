-- ===== src/Protocol/RoundTrip.antt =====
-- What Deserialize makes of the bytes that Serialize wrote (shared/Protocol.cpp).
use legendofstealth.Prelude.{
  ℕ, ◌+◌, ◌%◌, ◌≡◌, ◌≢◌, refl, ap, ap₂, sym, ◌∙◌, List, [], ◌∷◌, ◌++◌, some, drop, length, All,
  length-append, drop-append, append-nil, append_assoc, arith,
}
use legendofstealth.Protocol.Words.{
  IsByte, IsWord, dword_bytes, read_uint-network_dword, read_int-network_dword,
  read_float-network_dword,
}
use legendofstealth.Protocol.Packet.{
  Packet, deserialize, serialize, deserialize_fields-cons, load_word, with_members, FieldType,
  uint32, int32, float32, byte_field, Field, Members, store, store_byte, field_bytes,
  serialize_fields, read_field, deserialize_fields,
}

-- The bytes that a field takes.
abbrev pub field_size : FieldType → ℕ
field_size uint32 = 4
field_size int32 = 4
field_size float32 = 4
field_size byte_field = 1

abbrev pub fields_size : List Field → ℕ
fields_size [] = 0
fields_size (f ∷ fs) = field_size f.type + fields_size fs

-- No field of the list has the member at this address.
abbrev pub NotIn : ℕ → List Field → Type 0
NotIn a fs = All (λ f. f.ptr ≢ a) fs

abbrev pub Distinct : List Field → Type 0
Distinct [] = Unit {0}
Distinct (f ∷ fs) = NotIn f.ptr fs × Distinct fs

-- A member holds a value of its field's type: in the sender `v`, in the receiver `w`.
abbrev pub Fits : FieldType → ℕ → ℕ → Type 0
Fits uint32 v w = IsWord v
Fits int32 v w = IsWord v
Fits float32 v w = IsWord v
Fits byte_field v w = IsByte v × IsByte w

abbrev pub AllFit : Members → Members → List Field → Type 0
AllFit m q fs = All (λ f. Fits f.type (m f.ptr) (q f.ptr)) fs

-- The wire format: the fields one after the other.
abbrev pub wire : Members → List Field → List ℕ
wire m [] = []
wire m (f ∷ fs) = field_bytes m f.type f.ptr ++ wire m fs

abbrev copy_field : Members → Members → FieldType → ℕ → Members
copy_field m q byte_field a = store_byte q a (m a % 256)
copy_field m q _ a = store q a (m a)

abbrev copy : Members → Members → List Field → Members
copy m q [] = q
copy m q (f ∷ fs) = copy m (copy_field m q f.type f.ptr) fs

pub serialize_fields-wire :
    (m : Members) (fs : List Field) (buffer : List ℕ)
    → serialize_fields m fs buffer ≡ buffer ++ wire m fs
unfolding serialize_fields
serialize_fields-wire m [] buffer = sym (append-nil buffer)
serialize_fields-wire m (f ∷ fs) buffer =
    serialize_fields-wire m fs (buffer ++ field_bytes m f.type f.ptr)
    ∙ append_assoc buffer (field_bytes m f.type f.ptr) (wire m fs)

length-field_bytes :
    (m : Members) (t : FieldType) (a : ℕ) → length (field_bytes m t a) ≡ field_size t
unfolding field_bytes dword_bytes
length-field_bytes m uint32 a = refl
length-field_bytes m int32 a = refl
length-field_bytes m float32 a = refl
length-field_bytes m byte_field a = refl

length-wire : (m : Members) (fs : List Field) → length (wire m fs) ≡ fields_size fs
length-wire m [] = refl
length-wire m (f ∷ fs) = omega (
  arith,
  length-append (field_bytes m f.type f.ptr) (wire m fs),
  length-field_bytes m f.type f.ptr,
  length-wire m fs,
)

read_field-field_bytes :
    (m q : Members) (t : FieldType) (a : ℕ) (rest : List ℕ)
    → Fits t (m a) (q a)
    → read_field q t a (field_bytes m t a ++ rest) ≡ some (copy_field m q t a, field_size t)
unfolding read_field field_bytes
read_field-field_bytes m q uint32 a rest h =
    ap (load_word q a) (read_uint-network_dword (m a) rest h)
read_field-field_bytes m q int32 a rest h = ap (load_word q a) (read_int-network_dword (m a) rest h)
read_field-field_bytes m q float32 a rest h =
    ap (load_word q a) (read_float-network_dword (m a) rest h)
read_field-field_bytes m q byte_field a rest h = refl

copy_field_other : (m q : Members) (t : FieldType) (a b : ℕ) → a ≢ b → copy_field m q t a b ≡ q b
copy_field_other m q uint32 a b h = ground arith
copy_field_other m q int32 a b h = ground arith
copy_field_other m q float32 a b h = ground arith
copy_field_other m q byte_field a b h = ground arith

copy_field_self :
    (m q : Members) (t : FieldType) (a : ℕ) → Fits t (m a) (q a) → copy_field m q t a a ≡ m a
copy_field_self m q uint32 a h = ground arith
copy_field_self m q int32 a h = ground arith
copy_field_self m q float32 a h = ground arith
copy_field_self m q byte_field a h = ground arith

AllFit-copy_field :
    (m q : Members) (t : FieldType) (a : ℕ) (fs : List Field)
    → NotIn a fs
    → AllFit m q fs
    → AllFit m (copy_field m q t a) fs
AllFit-copy_field m q t a [] n h = tt
AllFit-copy_field m q t a (f ∷ fs) n h = (
  rw (copy_field_other m q t a f.ptr (λ e. n.0 (sym e))) h.0,
  AllFit-copy_field m q t a fs n.1 h.1,
)

deserialize_fields-wire :
    (m q : Members) (fs : List Field) (before rest : List ℕ)
    → Distinct fs
    → AllFit m q fs
    → deserialize_fields q fs (before ++ (wire m fs ++ rest)) (length before)
      ≡ some (copy m q fs, length before + fields_size fs)
unfolding deserialize_fields
deserialize_fields-wire m q [] before rest d h = ap (λ n. some (q, n)) (omega arith)
deserialize_fields-wire m q (f ∷ fs) before rest d h =
    let fb = field_bytes m f.type f.ptr in
    let q' = copy_field m q f.type f.ptr in
    let tail = wire m fs ++ rest in
    let split : before ++ ((fb ++ wire m fs) ++ rest) ≡ (before ++ fb) ++ tail =
      ap (◌++◌ before) (append_assoc fb (wire m fs) rest) ∙ sym (append_assoc before fb tail) in
    let len : length before + field_size f.type ≡ length (before ++ fb) =
      omega (arith, length-append before fb, length-field_bytes m f.type f.ptr) in
    let head : read_field q f.type f.ptr
          (drop (length before) (before ++ ((fb ++ wire m fs) ++ rest)))
        ≡ some (q', field_size f.type) =
      rw (drop-append before ((fb ++ wire m fs) ++ rest), append_assoc fb (wire m fs) rest)
        (read_field-field_bytes m q f.type f.ptr tail h.0) in
    deserialize_fields-cons q q' f fs (before ++ ((fb ++ wire m fs) ++ rest)) (length before)
      (field_size f.type) head
    ∙ ap₂ (deserialize_fields q' fs) split len
    ∙ deserialize_fields-wire m q' fs (before ++ fb) rest d.1
        (AllFit-copy_field m q f.type f.ptr fs d.0 h.1)
    ∙ ap (λ n. some (copy m q' fs, n)) (omega (arith, len))

copy_other : (m q : Members) (fs : List Field) (a : ℕ) → NotIn a fs → copy m q fs a ≡ q a
copy_other m q [] a n = refl
copy_other m q (f ∷ fs) a n =
    copy_other m (copy_field m q f.type f.ptr) fs a n.1 ∙ copy_field_other m q f.type f.ptr a n.0

copy_self :
    (m q : Members) (fs : List Field)
    → Distinct fs
    → AllFit m q fs
    → All (λ f. copy m q fs f.ptr ≡ m f.ptr) fs
copy_self m q [] d h = tt
copy_self m q (f ∷ fs) d h = (
  copy_other m (copy_field m q f.type f.ptr) fs f.ptr d.0 ∙ copy_field_self m q f.type f.ptr h.0,
  copy_self m (copy_field m q f.type f.ptr) fs d.1 (AllFit-copy_field m q f.type f.ptr fs d.0 h.1),
)

-- Serialize writes as many bytes as its fields take.
pub length-serialize : (p : Packet) → length (serialize p) ≡ fields_size p.fields
unfolding serialize
length-serialize p =
    ap length (serialize_fields-wire p.members p.fields []) ∙ length-wire p.members p.fields

-- A packet that Deserialize reads from what Serialize wrote, with anything behind it: for packets
-- with the same fields at distinct addresses, whose members hold values of their field's type,
-- it reads exactly the bytes that were written, gives every field the sender's value, and leaves
-- the other members and the fields alone.
pub deserialize-serialize :
    (p q : Packet) (rest : List ℕ) (buflen : ℕ)
    → q.fields ≡ p.fields
    → Distinct p.fields
    → AllFit p.members q.members p.fields
    → (r : Packet) × (deserialize q (serialize p ++ rest) buflen ≡ some (r, length (serialize p)))
      × All (λ f. r.members f.ptr ≡ p.members f.ptr) p.fields
      × ((a : ℕ) → NotIn a p.fields → r.members a ≡ q.members a)
      × (r.fields ≡ q.fields)
unfolding deserialize serialize
deserialize-serialize p q rest buflen same d h = (
  record q { members = copy p.members q.members p.fields },
  ap (λ fs. with_members q (deserialize_fields q.members fs (serialize p ++ rest) 0)) same
      ∙ ap (λ b. with_members q (deserialize_fields q.members p.fields (b ++ rest) 0))
          (serialize_fields-wire p.members p.fields [])
      ∙ ap (with_members q) (deserialize_fields-wire p.members q.members p.fields [] rest d h)
      ∙ ap (λ n. some (record q { members = copy p.members q.members p.fields }, n))
          (omega (arith, length-serialize p)),
  copy_self p.members q.members p.fields d h,
  copy_other p.members q.members p.fields,
  refl,
)
