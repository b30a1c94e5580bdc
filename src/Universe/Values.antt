-- ===== src/Universe/Values.antt =====
-- tools/zenuniverse/descriptor.hpp: numbers, entry points of runtimes and arguments of launches.
use zenov_os.Prelude.{
  ℕ, ◌+◌, ◌-◌, ◌*◌, ◌/◌, List, [], ◌∷◌, Bool, not, ◌&&◌, ◌||◌, length, take, drop, ltb, ◌==◌,
  if◌then◌else◌,
}
use Prim.Native.String.{String}
use zenov_os.Prelude.Bytes.{
  Bytes, codes, str_eq, is_digit, all_bytes, front, back, member, starts_with,
}
use zenov_os.Prelude.Result.{Result, ok, ◌>>◌, require}
use zenov_os.Universe.Common.{printable, has_byte}

-- The digits of a number, read behind `result`.
unfoldable pub digits_u64 : String → ℕ → Bytes → Result ℕ
digits_u64 field result [] = ok result
digits_u64 field result (c ∷ cs) = do
  require (is_digit c) field
  let digit = c - b'0'
  require (not (ltb ((18446744073709551615 - digit) / 10) result)) field
  digits_u64 field (result * 10 + digit) cs

-- The exception is only the name of the field.
unfoldable pub parse_u64 : Bytes → String → Result ℕ
unfolding digits_u64
parse_u64 value field = do
  require (not (length value == 0)) field
  require (not (ltb 1 (length value) && front value == b'0')) field
  digits_u64 field 0 value

-- `value.find(pattern) != npos`.
unfoldable pub contains : Bytes → Bytes → Bool
unfolding starts_with
contains pattern_ [] = length pattern_ == 0
contains pattern_ (c ∷ cs) = starts_with (c ∷ cs) pattern_ || contains pattern_ cs

abbrev pub entrypoint_byte : ℕ → Bool
entrypoint_byte c = not (ltb c 0x21 || ltb 0x7e c || c == b'\\')

unfoldable pub safe_runtime_entrypoint : Bytes → Bool
unfolding contains str_eq back all_bytes
safe_runtime_entrypoint value =
    str_eq value (codes "@kernel-loader")
    || not (ltb (length value) 2 || ltb 192 (length value) || not (front value == b'/'))
      && not (
          contains (codes "//") value
          || contains (codes "/../") value
          || contains (codes "/./") value
          || back value == b'/')
      && all_bytes entrypoint_byte value

unfoldable pub valid_launch_argument : Bytes → List Bytes → Bool
unfolding str_eq back member starts_with printable
valid_launch_argument value assets =
    printable value 192
    && (str_eq value (codes "%artifact%")
        || (if starts_with value (codes "%asset:") && ltb 8 (length value) && back value == b'%'
            then member (take (length value - 8) (drop 7 value)) assets
            else not (has_byte b'%' value)))
