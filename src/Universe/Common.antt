-- ===== src/Universe/Common.antt =====
-- tools/zenuniverse/common.hpp: the tests on texts. The functions that read and write files are left out.
use zenov_os.Prelude.{
  ℕ, [], ◌∷◌, Bool, true, false, not, ◌&&◌, ◌||◌, none, some, length, take, drop, ltb, leb, ◌==◌,
  if◌then◌else◌,
}
use mathlib.Core.List.{reverse}
use zenov_os.Prelude.Bytes.{
  Bytes, codes, str_eq, find_byte, is_digit, is_alnum, all_bytes, front, back,
}
use zenov_os.Package.Common.{has_two_dots}

-- `lexicographical_compare` on the bytes.
unfoldable pub string_less : Bytes → Bytes → Bool
string_less left [] = false
string_less [] (b ∷ bs) = true
string_less (a ∷ as_) (b ∷ bs) =
    if ltb a b then true else if ltb b a then false else string_less as_ bs

abbrev pub is_blank : ℕ → Bool
is_blank c = c == 32 || c == 9 || c == 13 || c == 10

-- The text from `find_first_not_of` on.
unfoldable pub skip_blank : Bytes → Bytes
skip_blank [] = []
skip_blank (c ∷ cs) = if is_blank c then skip_blank cs else c ∷ cs

unfoldable pub trim : Bytes → Bytes
trim value = reverse (skip_blank (reverse (skip_blank value)))

abbrev pub id_byte : ℕ → Bool
id_byte c = is_alnum c || c == b'.' || c == b'-' || c == b'_' || c == b'+'

unfoldable pub safe_id : Bytes → Bool
safe_id value =
    not (length value == 0 || ltb 96 (length value))
    && all_bytes id_byte value
    && not (front value == b'.')
    && not (back value == b'.')
    && not (has_two_dots value)

unfoldable pub printable : Bytes → ℕ → Bool
printable value maximum =
    not (length value == 0 || ltb maximum (length value))
    && all_bytes (λ c. not (ltb c 0x20 || c == 0x7f)) value

abbrev pub small_hex : ℕ → Bool
small_hex c = is_digit c || leb b'a' c && leb c b'f'

unfoldable pub hex64 : Bytes → Bool
hex64 value = length value == 64 && all_bytes small_hex value

-- The host: the text before the first `/` behind "https://".
unfoldable pub host_of : Bytes → Bytes
host_of value = elim (find_byte b'/' (drop 8 value)) [
  | none ↦ drop 8 value
  | some i ↦ take i (drop 8 value)
]

abbrev pub has_byte : ℕ → Bytes → Bool
has_byte c value = elim (find_byte c value) [ none ↦ false | some i ↦ true ]

unfoldable pub https_url : Bytes → Bool
https_url value =
    let host = host_of value in
    not (
      ltb (length value) 12
      || ltb 512 (length value)
      || not (str_eq (take 8 value) (codes "https://")))
    && all_bytes (λ c. not (is_blank c)) value
    && not (length host == 0)
    && has_byte b'.' host
    && not (front host == b'.')
    && not (back host == b'.')
