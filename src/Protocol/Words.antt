-- ===== src/Protocol/Words.antt =====
-- `ntohl`, `htonl` and the reading and writing of 32-bit words in shared/Protocol.cpp.
-- The host is little-endian, as the machines that the program is built for are: the first byte
-- in memory is the lowest one, and `ntohl` and `htonl` swap the bytes.
use legendofstealth.Prelude.{
  ℕ, ◌+◌, ◌*◌, ◌/◌, ◌%◌, ◌^◌, ◌≤◌, ◌<◌, ◌≡◌, refl, ap, ◌∙◌, List, [], ◌∷◌, ◌++◌, Option, none, some,
  length, arith,
}

abbrev pub IsByte : ℕ → Type 0
IsByte b = b < 256

abbrev pub IsWord : ℕ → Type 0
IsWord w = w < 2 ^ 32

-- The word whose bytes are these, the lowest first.
unfoldable pub of_bytes : ℕ → ℕ → ℕ → ℕ → ℕ
of_bytes b c d e = b + 256 * c + 65536 * d + 16777216 * e

-- The bytes of a word as they lie in memory, `(byte*) &w`.
unfoldable pub dword_bytes : ℕ → List ℕ
dword_bytes w = w % 256 ∷ (w / 256 % 256) ∷ (w / 65536 % 256) ∷ (w / 16777216 % 256) ∷ []

-- `ntohl` and `htonl`: the same bytes in the other order.
unfoldable pub swap_bytes : ℕ → ℕ
swap_bytes w = of_bytes (w / 16777216 % 256) (w / 65536 % 256) (w / 256 % 256) (w % 256)

-- `*((unsigned*) buf)`: a read beyond the block has no result.
unfoldable pub load_dword : List ℕ → Option ℕ
load_dword (b ∷ c ∷ d ∷ e ∷ rest) = some (of_bytes b c d e)
load_dword _ = none

-- `ntohl` of a loaded word.
abbrev pub swapped : Option ℕ → Option ℕ
swapped none = none
swapped (some w) = some (swap_bytes w)

-- The pattern of a 32-bit word is an `unsigned`, an `int` or a `float`; `memcpy` keeps it.
unfoldable pub read_uint : List ℕ → Option ℕ
read_uint buf = swapped (load_dword buf)

unfoldable pub read_int : List ℕ → Option ℕ
read_int buf = swapped (load_dword buf)

unfoldable pub read_float : List ℕ → Option ℕ
read_float buf = swapped (load_dword buf)

unfoldable pub network_dword : ℕ → ℕ
network_dword w = swap_bytes w

of_bytes_digits :
    (b c d e : ℕ)
    → IsByte b
    → IsByte c
    → IsByte d
    → IsByte e
    → (of_bytes b c d e % 256 ≡ b)
      × (of_bytes b c d e / 256 % 256 ≡ c)
      × (of_bytes b c d e / 65536 % 256 ≡ d)
      × (of_bytes b c d e / 16777216 % 256 ≡ e)
unfolding of_bytes
of_bytes_digits b c d e hb hc hd he = omega arith

of_bytes_self :
    (w : ℕ)
    → IsWord w
    → of_bytes (w % 256) (w / 256 % 256) (w / 65536 % 256) (w / 16777216 % 256) ≡ w
unfolding of_bytes
of_bytes_self w h = omega arith

pub swap_bytes-IsWord : (w : ℕ) → IsWord (swap_bytes w)
unfolding swap_bytes of_bytes
swap_bytes-IsWord w = omega arith

swap_bytes-of_bytes :
    (b c d e : ℕ)
    → IsByte b
    → IsByte c
    → IsByte d
    → IsByte e
    → swap_bytes (of_bytes b c d e) ≡ of_bytes e d c b
unfolding swap_bytes
swap_bytes-of_bytes b c d e hb hc hd he =
    let (p, q, r, s) = of_bytes_digits b c d e hb hc hd he in rw (p, q, r, s)

-- Swapping twice changes nothing.
pub swap_bytes-swap_bytes : (w : ℕ) → IsWord w → swap_bytes (swap_bytes w) ≡ w
unfolding swap_bytes
swap_bytes-swap_bytes w h =
    swap_bytes-of_bytes _ _ _ _ (omega arith) (omega arith) (omega arith) (omega arith)
    ∙ of_bytes_self w h

pub load_dword-dword_bytes :
    (w : ℕ) (rest : List ℕ) → IsWord w → load_dword (dword_bytes w ++ rest) ≡ some w
unfolding load_dword dword_bytes
load_dword-dword_bytes w rest h = ap some (of_bytes_self w h)

-- A word of 32 bits that NetworkDword put into a block, with anything behind it, comes back from
-- ReadUInt.
pub read_uint-network_dword :
    (w : ℕ) (rest : List ℕ) → IsWord w → read_uint (dword_bytes (network_dword w) ++ rest) ≡ some w
unfolding read_uint network_dword
read_uint-network_dword w rest h =
    ap swapped (load_dword-dword_bytes (swap_bytes w) rest (swap_bytes-IsWord w))
    ∙ ap some (swap_bytes-swap_bytes w h)

pub read_int-network_dword :
    (w : ℕ) (rest : List ℕ) → IsWord w → read_int (dword_bytes (network_dword w) ++ rest) ≡ some w
unfolding read_int read_uint
read_int-network_dword = read_uint-network_dword

pub read_float-network_dword :
    (w : ℕ) (rest : List ℕ) → IsWord w → read_float (dword_bytes (network_dword w) ++ rest) ≡ some w
unfolding read_float read_uint
read_float-network_dword = read_uint-network_dword

-- A read of a word needs four bytes, and no more.
pub load_dword_enough : (buf : List ℕ) → 4 ≤ length buf → (w : ℕ) × (load_dword buf ≡ some w)
unfolding load_dword
load_dword_enough (b ∷ c ∷ d ∷ e ∷ rest) h = (_, refl)
load_dword_enough [] h = absurd (omega arith)
load_dword_enough (b ∷ []) h = absurd (omega arith)
load_dword_enough (b ∷ c ∷ []) h = absurd (omega arith)
load_dword_enough (b ∷ c ∷ d ∷ []) h = absurd (omega arith)

pub load_dword_short : (buf : List ℕ) → length buf < 4 → load_dword buf ≡ none
unfolding load_dword
load_dword_short [] h = refl
load_dword_short (b ∷ []) h = refl
load_dword_short (b ∷ c ∷ []) h = refl
load_dword_short (b ∷ c ∷ d ∷ []) h = refl
load_dword_short (b ∷ c ∷ d ∷ e ∷ rest) h = absurd (omega arith)
