-- ===== src/Package/Common.antt =====
-- tools/zenpkg/common.hpp: texts, identifiers, and numbers in little-endian bytes. The functions that
-- read and write files are left out.
pub mod Trim
use zenov_os.Prelude.{
  ℕ, zero, suc, ◌+◌, ◌-◌, ◌*◌, ◌/◌, ◌%◌, List, [], ◌∷◌, ◌++◌, Bool, true, false, not, ◌&&◌, ◌||◌,
  Option, none, some, length, take, drop, get_or, bit_or, u8, u32, u64, ltb, leb, ◌==◌,
  if◌then◌else◌,
}
use mathlib.Core.List.{reverse}
use zenov_os.Prelude.Bits.{two_to}
use zenov_os.Prelude.Bytes.{Bytes, codes, is_alnum, all_bytes, front, back, skip_spaces, str_eq}
use zenov_os.Prelude.Result.{Result, ok, err, ◌>>=◌, ◌>>◌, require}

-- The bytes from the first that is no space to the last that is none.
unfoldable pub trim : Bytes → Bytes
unfolding skip_spaces
trim value = reverse (skip_spaces (reverse (skip_spaces value)))

abbrev pub hex_digit : ℕ → ℕ
hex_digit n = if ltb n 10 then b'0' + n else b'a' + (n - 10)

unfoldable pub hex_encode : Bytes → Bytes
hex_encode [] = []
hex_encode (b ∷ bs) = hex_digit (b / 16) ∷ hex_digit (b % 16) ∷ hex_encode bs

-- `value.find("..") != npos`.
unfoldable pub has_two_dots : Bytes → Bool
has_two_dots [] = false
has_two_dots (x ∷ []) = false
has_two_dots (x ∷ y ∷ rest) = x == b'.' && y == b'.' || has_two_dots (y ∷ rest)

abbrev pub identifier_byte : ℕ → Bool
identifier_byte c = is_alnum c || c == b'.' || c == b'-' || c == b'_'

unfoldable pub is_safe_identifier : Bytes → Bool
unfolding all_bytes has_two_dots back
is_safe_identifier value =
    not (length value == 0)
    && leb (length value) 64
    && is_alnum (front value)
    && is_alnum (back value)
    && not (has_two_dots value)
    && all_bytes identifier_byte value

-- No control character.
abbrev pub printable_byte : ℕ → Bool
printable_byte c = leb 0x20 c && not (c == 0x7f)

unfoldable pub is_printable_text : Bytes → ℕ → Bool
unfolding all_bytes
is_printable_text value maximum =
    not (length value == 0) && leb (length value) maximum && all_bytes printable_byte value

abbrev pub version_byte : ℕ → Bool
version_byte c = is_alnum c || c == b'.' || c == b'-' || c == b'+' || c == b'_'

unfoldable pub is_safe_version : Bytes → Bool
unfolding all_bytes
is_safe_version value =
    not (length value == 0) && leb (length value) 64 && all_bytes version_byte value

-- The loop of `append_u32_le` and `append_u64_le` over the shifts.
unfoldable pub le_bytes : ℕ → ℕ → Bytes
le_bytes zero value = []
le_bytes (suc n) value = u8 value ∷ le_bytes n (value / 256)

unfoldable pub append_u32_le : Bytes → ℕ → Bytes
unfolding le_bytes
append_u32_le output value = output ++ le_bytes 4 value

unfoldable pub append_u64_le : Bytes → ℕ → Bytes
unfolding le_bytes
append_u64_le output value = output ++ le_bytes 8 value

-- The loop of `read_u32_le` and `read_u64_le`: byte `i` is shifted by `i * 8`.
unfoldable pub read_le : ℕ → ℕ → Bytes → ℕ → ℕ → ℕ
unfolding two_to
read_le zero i input offset value = value
read_le (suc n) i input offset value =
    read_le n (i + 1) input offset (bit_or value (get_or input (offset + i) 0 * two_to (i * 8)))

unfoldable pub read_u32_le : Bytes → ℕ → Result ℕ
read_u32_le input offset = do
  require (leb offset (length input) && leb 4 (length input - offset)) "truncated package header"
  ok (read_le 4 0 input offset 0)

unfoldable pub read_u64_le : Bytes → ℕ → Result ℕ
read_u64_le input offset = do
  require (leb offset (length input) && leb 8 (length input - offset)) "truncated package header"
  ok (read_le 8 0 input offset 0)
