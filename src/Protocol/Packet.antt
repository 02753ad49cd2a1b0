-- ===== src/Protocol/Packet.antt =====
-- class Packet: the field list, Serialize and Deserialize (shared/Protocol.cpp, shared/Protocol.h).
-- The members of a packet lie at addresses; `_fields` pairs the type of a field with the address
-- of the member. Each member has one address, and the word there is its bit pattern.
use legendofstealth.Prelude.{
  ℕ, ◌+◌, ◌-◌, ◌%◌, ◌≡◌, ap, List, [], ◌∷◌, ◌++◌, Option, none, some, ◌==◌, drop, if◌then◌else◌,
}
use legendofstealth.Protocol.Words.{dword_bytes, network_dword, read_uint, read_int, read_float}

-- enum FieldType; `byte_field` is its `BYTE`.
pub data FieldType : Type 0 where
  uint32 int32 float32 byte_field : FieldType

pub record Field : Type 0 where
  pub type : FieldType
  pub ptr : ℕ

pub record Packet : Type 0 where
  pub members : ℕ → ℕ
  pub fields : List Field
  pub udp_packet : Option ℕ

abbrev pub Members : Type 0
Members = ℕ → ℕ

-- `*ptr = v` for a member of four bytes.
abbrev pub store : Members → ℕ → ℕ → Members
store m a v b = if a == b then v else m b

-- `*(byte*)ptr = v`: the lowest byte of the member, which is the first in memory.
abbrev pub store_byte : Members → ℕ → ℕ → Members
store_byte m a v b = if a == b then m b - m b % 256 + v else m b

-- The address of `_type`.
abbrev pub type_ptr : ℕ
type_ptr = 0

unfoldable pub add_field : FieldType → ℕ → Packet → Packet
add_field ft ptr p = record p { fields = p.fields ++ (record { type = ft; ptr = ptr } ∷ []) }

-- Packet::Packet(type); `members` is what the storage of the new object holds.
unfoldable pub new_packet : ℕ → Members → Packet
unfolding add_field
new_packet type members =
    add_field byte_field type_ptr
      (record { members = store members type_ptr type; fields = []; udp_packet = none })

unfoldable pub get_packet_type : Packet → ℕ
get_packet_type p = p.members type_ptr

unfoldable pub set_udp_packet : Option ℕ → Packet → Packet
set_udp_packet u p = record p { udp_packet = u }

-- What one round of the loop of Serialize pushes.
unfoldable pub field_bytes : Members → FieldType → ℕ → List ℕ
field_bytes m uint32 a = dword_bytes (network_dword (m a))
field_bytes m int32 a = dword_bytes (network_dword (m a))
field_bytes m float32 a = dword_bytes (network_dword (m a))
field_bytes m byte_field a = m a % 256 ∷ []

unfoldable pub serialize_fields : Members → List Field → List ℕ → List ℕ
serialize_fields m [] buffer = buffer
serialize_fields m (f ∷ fs) buffer = serialize_fields m fs (buffer ++ field_bytes m f.type f.ptr)

-- The block that Serialize returns; `pktlen` is its length.
unfoldable pub serialize : Packet → List ℕ
serialize p = serialize_fields p.members p.fields []

-- One round of the loop of Deserialize: the members, and by how much `read` grows. The list is
-- what the block holds from `buf + read` on; a read beyond its end has no result.
abbrev pub load_word : Members → ℕ → Option ℕ → Option (Members × ℕ)
load_word m a none = none
load_word m a (some w) = some (store m a w, 4)

unfoldable pub read_field : Members → FieldType → ℕ → List ℕ → Option (Members × ℕ)
read_field m uint32 a buf = load_word m a (read_uint buf)
read_field m int32 a buf = load_word m a (read_int buf)
read_field m float32 a buf = load_word m a (read_float buf)
read_field m byte_field a [] = none
read_field m byte_field a (b ∷ rest) = some (store_byte m a b, 1)

infixl 5 ◌>>=◌
abbrev ◌>>=◌ : {A B : Type 0} → Option A → (A → Option B) → Option B
none >>= f = none
some a >>= f = f a

unfoldable pub deserialize_fields : Members → List Field → List ℕ → ℕ → Option (Members × ℕ)
deserialize_fields m [] buf read = some (m, read)
deserialize_fields m (f ∷ fs) buf read =
    read_field m f.type f.ptr (drop read buf) >>= λ r. deserialize_fields r.0 fs buf (read + r.1)

-- One round, where the read succeeds.
pub deserialize_fields-cons :
    (m m' : Members) (f : Field) (fs : List Field) (buf : List ℕ) (read n : ℕ)
    → read_field m f.type f.ptr (drop read buf) ≡ some (m', n)
    → deserialize_fields m (f ∷ fs) buf read ≡ deserialize_fields m' fs buf (read + n)
unfolding deserialize_fields
deserialize_fields-cons m m' f fs buf read n e =
    ap (λ o. o >>= λ r. deserialize_fields r.0 fs buf (read + r.1)) e

-- One round, where it does not.
pub deserialize_fields-none :
    (m : Members) (f : Field) (fs : List Field) (buf : List ℕ) (read : ℕ)
    → read_field m f.type f.ptr (drop read buf) ≡ none
    → deserialize_fields m (f ∷ fs) buf read ≡ none
unfolding deserialize_fields
deserialize_fields-none m f fs buf read e =
    ap (λ o. o >>= λ r. deserialize_fields r.0 fs buf (read + r.1)) e

abbrev pub with_members : Packet → Option (Members × ℕ) → Option (Packet × ℕ)
with_members p none = none
with_members p (some (m, read)) = some (record p { members = m }, read)

-- Deserialize(buf, buflen): the packet, and the number of bytes read. `buf` is what the block
-- holds from the pointer on; `buflen` is not looked at.
unfoldable pub deserialize : Packet → List ℕ → ℕ → Option (Packet × ℕ)
deserialize p buf buflen = with_members p (deserialize_fields p.members p.fields buf 0)
