-- ===== src/Signal/Frame.antt =====
-- The bytes of a CAN frame in memory, 8-byte loads on either kind of machine, and the byte order
-- conversions of src/helper.h.
pub mod Digits
use dbccpp_tiny.Common.{
  ℕ, zero, suc, ◌+◌, ◌-◌, ◌*◌, ◌/◌, ◌%◌, ◌^◌, ◌<◌, List, [], ◌∷◌, Option, none, some, All, leb, ltb,
  if◌then◌else◌, length, get_or,
}
use dbccpp_tiny.Common.Bits.{bit}
use dbccpp_tiny.Signal.Types.{EByteOrder, big_endian, little_endian}

pub data Endian : Type 0 where
  little big : Endian

-- Every element is a byte.
abbrev pub IsBytes : List ℕ → Type 0
IsBytes = All (λ b. b < 256)

-- The byte at an offset, 0 where there is none.
abbrev pub byte_at : List ℕ → ℕ → ℕ
byte_at bytes i = get_or bytes i 0

-- The list g 0, …, g (n - 1).
unfoldable pub tabulate : ℕ → (ℕ → ℕ) → List ℕ
tabulate zero g = []
tabulate (suc n) g = g 0 ∷ tabulate n (λ i. g (suc i))

-- The number with these base 256 digits, the lowest first.
unfoldable pub le_value : List ℕ → ℕ
le_value [] = 0
le_value (b ∷ bs) = b + 256 * le_value bs

-- The `uint64_t` at offset `p`; `none` is a read past the end of the buffer.
unfoldable pub load64 : Endian → List ℕ → ℕ → Option ℕ
unfolding tabulate le_value
load64 little bytes p =
    if leb (p + 8) (length bytes)
    then some (le_value (tabulate 8 (λ i. byte_at bytes (p + i))))
    else none
load64 big bytes p =
    if leb (p + 8) (length bytes)
    then some (le_value (tabulate 8 (λ i. byte_at bytes (p + (7 - i)))))
    else none

-- The `uint8_t` at offset `p`.
unfoldable pub load8 : List ℕ → ℕ → Option ℕ
load8 bytes p = if ltb p (length bytes) then some (byte_at bytes p) else none

-- `bswap_64` of <byteswap.h>: the eight bytes in the opposite order.
unfoldable pub bswap_64 : ℕ → ℕ
unfolding tabulate le_value
bswap_64 x = le_value (tabulate 8 (λ i. x / 2 ^ (8 * (7 - i)) % 256))

unfoldable pub native_to_big_inplace : Endian → ℕ → ℕ
native_to_big_inplace little value = bswap_64 value
native_to_big_inplace big value = value

unfoldable pub native_to_little_inplace : Endian → ℕ → ℕ
native_to_little_inplace little value = value
native_to_little_inplace big value = bswap_64 value

-- The conversion that a decoder for this byte order makes.
abbrev pub native_to : EByteOrder → Endian → ℕ → ℕ
native_to big_endian = native_to_big_inplace
native_to little_endian = native_to_little_inplace
