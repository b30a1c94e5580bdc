-- ===== src/Package/Archive/Layout.antt =====
-- The fields of a package that is built are read where they were written.
use native.Mathlib.Nat.{mul_assoc, add-mul}
use zenov_os.Prelude.{
  ℕ, zero, suc, ◌+◌, ◌-◌, ◌*◌, ◌/◌, ◌%◌, ◌<◌, ◌≤◌, ◌≡◌, refl, sym, ap, ◌∙◌, arith, [], ◌∷◌, ◌++◌,
  true, not, ◌&&◌, length, get_or, length-append, bit_or, u8, u64, ltb, leb, ◌==◌,
}
use zenov_os.Prelude.Bits.{two_to, bit_or-low}
use zenov_os.Prelude.Bytes.{Bytes, str_eq, starts_with}
use zenov_os.Prelude.Bytes.Laws.{append_assoc}
use zenov_os.Prelude.Result.{ok, require_lem}
use zenov_os.Package.Common.{le_bytes, read_le, read_u32_le, read_u64_le}
use zenov_os.Package.Archive.{package_magic, parse_header}

-- The numbers of some bytes.
abbrev pub byte_bound : ℕ → ℕ
byte_bound zero = 1
byte_bound (suc n) = byte_bound n * 256

get_or-append : (pre post : Bytes) (x : ℕ) → get_or (pre ++ x ∷ post) (length pre) 0 ≡ x
get_or-append [] post x = refl
get_or-append (y ∷ pre) post x = get_or-append pre post x

two_to_byte : (i : ℕ) → two_to ((i + 1) * 8) ≡ two_to (i * 8) * 256
unfolding two_to
two_to_byte i =
    let e : (i + 1) * 8 ≡ suc (suc (suc (suc (suc (suc (suc (suc (i * 8)))))))) = omega arith in
    ap two_to e ∙ omega arith

length-le_bytes : (n v : ℕ) → length (le_bytes n v) ≡ n
unfolding le_bytes
length-le_bytes zero v = refl
length-le_bytes (suc n) v = ap suc (length-le_bytes n (v / 256))

below_byte : (r t : ℕ) → r < 256 → r * t ≤ 255 * t
below_byte r t h =
    let e : 255 - r + r ≡ 255 = omega arith in
    let parts : 255 * t ≡ (255 - r) * t + r * t = ap (λ x. x * t) (sym e) ∙ add-mul (255 - r) r t in
    omega (arith, parts)

-- The value of a number from its lowest byte and the others, at a place.
place_lem : (v t : ℕ) → v % 256 * t + v / 256 * (t * 256) ≡ v * t
place_lem v t =
    let e : v ≡ v % 256 + v / 256 * 256 = omega arith in
    let parts = add-mul (v % 256) (v / 256 * 256) t in
    let moved : v / 256 * 256 * t ≡ v / 256 * (t * 256) =
      mul_assoc (v / 256) 256 t ∙ ap (λ x. v / 256 * x) (omega arith) in
    sym (ap (λ x. x * t) e ∙ parts ∙ ap (λ x. v % 256 * t + x) moved)

-- The bytes of a number are read as that number.
read_le-le_bytes :
    (n i v value offset : ℕ) (pre post : Bytes)
    → length pre ≡ offset + i
    → value < two_to (i * 8)
    → v < byte_bound n
    → read_le n i (pre ++ (le_bytes n v ++ post)) offset value ≡ value + v * two_to (i * 8)
unfolding read_le le_bytes
read_le-le_bytes zero i v value offset pre post at low small =
    let none_left : v ≡ 0 = omega arith in rw none_left (omega arith)
read_le-le_bytes (suc n) i v value offset pre post at low small =
    let t = two_to (i * 8) in
    let rest = le_bytes n (v / 256) ++ post in
    let input = pre ++ u8 v ∷ rest in
    let here : get_or input (offset + i) 0 ≡ u8 v =
      ap (λ k. get_or input k 0) (sym at) ∙ get_or-append pre rest (u8 v) in
    let next : bit_or value (get_or input (offset + i) 0 * t) ≡ value + u8 v * t =
      ap (λ x. bit_or value (x * t)) here ∙ bit_or-low (i * 8) value (u8 v * t) (u8 v) low refl in
    let shape : input ≡ (pre ++ (u8 v ∷ [])) ++ rest = sym (append_assoc pre (u8 v ∷ []) rest) in
    let more = below_byte (u8 v) t (omega arith) in
    let ih =
      read_le-le_bytes n (i + 1) (v / 256) (value + u8 v * t) offset (pre ++ (u8 v ∷ [])) post
        (omega (arith, length-append pre (u8 v ∷ []), at)) (omega (arith, two_to_byte i, more, low))
        (omega (arith, small)) in
    ap (λ x. read_le n (i + 1) input offset x) next
    ∙ ap (λ x. read_le n (i + 1) x offset (value + u8 v * t)) shape
    ∙ ih
    ∙ ap (λ x. value + u8 v * t + v / 256 * x) (two_to_byte i)
    ∙ omega (arith, place_lem v t)

read_u32_le-append :
    (v offset : ℕ) (pre post : Bytes)
    → length pre ≡ offset
    → v < 4294967296
    → read_u32_le (pre ++ (le_bytes 4 v ++ post)) offset ≡ ok v
unfolding read_u32_le two_to
read_u32_le-append v offset pre post at small =
    let whole = length-append pre (le_bytes 4 v ++ post) in
    let tail = length-append (le_bytes 4 v) post in
    let size = length-le_bytes 4 v in
    let input = pre ++ (le_bytes 4 v ++ post) in
    let fits : (leb offset (length input) && leb 4 (length input - offset)) ≡ true =
      ground (arith, whole, tail, size, at) in
    require_lem _ _ _ fits
    ∙ ap ok (
        read_le-le_bytes 4 0 v 0 offset pre post (omega (arith, at)) (omega arith) small
        ∙ omega arith)

read_u64_le-append :
    (v offset : ℕ) (pre post : Bytes)
    → length pre ≡ offset
    → v < 18446744073709551616
    → read_u64_le (pre ++ (le_bytes 8 v ++ post)) offset ≡ ok v
unfolding read_u64_le two_to
read_u64_le-append v offset pre post at small =
    let whole = length-append pre (le_bytes 8 v ++ post) in
    let tail = length-append (le_bytes 8 v) post in
    let size = length-le_bytes 8 v in
    let input = pre ++ (le_bytes 8 v ++ post) in
    let fits : (leb offset (length input) && leb 8 (length input - offset)) ≡ true =
      ground (arith, whole, tail, size, at) in
    require_lem _ _ _ fits
    ∙ ap ok (
        read_le-le_bytes 8 0 v 0 offset pre post (omega (arith, at)) (omega arith) small
        ∙ omega arith)

-- A header with what follows it.
unfoldable pub with_header : ℕ → ℕ → Bytes → Bytes
with_header manifest_size payload_size tail =
    package_magic
    ++ (le_bytes 4 1
        ++ (le_bytes 4 0 ++ (le_bytes 8 manifest_size ++ (le_bytes 8 payload_size ++ tail))))

pub length-with_header :
    (manifest_size payload_size : ℕ) (tail : Bytes)
    → length (with_header manifest_size payload_size tail) ≡ 32 + length tail
unfolding with_header le_bytes
length-with_header manifest_size payload_size tail = omega arith

starts_magic :
    (manifest_size payload_size : ℕ) (tail : Bytes)
    → starts_with (with_header manifest_size payload_size tail) package_magic ≡ true
unfolding starts_with str_eq
starts_magic manifest_size payload_size tail =
    let size = length-with_header manifest_size payload_size tail in
    let long : leb 8 (length (with_header manifest_size payload_size tail)) ≡ true =
      ground (arith, size) in
    rw long (unfold with_header in refl)

read_version :
    (manifest_size payload_size : ℕ) (tail : Bytes)
    → read_u32_le (with_header manifest_size payload_size tail) 8 ≡ ok 1
unfolding with_header
read_version manifest_size payload_size tail =
    read_u32_le-append 1 8 package_magic _ refl (omega arith)

read_flags :
    (manifest_size payload_size : ℕ) (tail : Bytes)
    → read_u32_le (with_header manifest_size payload_size tail) 12 ≡ ok 0
unfolding with_header le_bytes
read_flags manifest_size payload_size tail =
    read_u32_le-append 0 12 (package_magic ++ le_bytes 4 1)
      (le_bytes 8 manifest_size ++ (le_bytes 8 payload_size ++ tail)) refl (omega arith)

read_manifest_size :
    (manifest_size payload_size : ℕ) (tail : Bytes)
    → manifest_size < 18446744073709551616
    → read_u64_le (with_header manifest_size payload_size tail) 16 ≡ ok manifest_size
unfolding with_header le_bytes
read_manifest_size manifest_size payload_size tail h =
    read_u64_le-append manifest_size 16 ((package_magic ++ le_bytes 4 1) ++ le_bytes 4 0)
      (le_bytes 8 payload_size ++ tail) refl h

read_payload_size :
    (manifest_size payload_size : ℕ) (tail : Bytes)
    → payload_size < 18446744073709551616
    → read_u64_le (with_header manifest_size payload_size tail) 24 ≡ ok payload_size
unfolding with_header le_bytes
read_payload_size manifest_size payload_size tail h =
    read_u64_le-append payload_size 24
      (((package_magic ++ le_bytes 4 1) ++ le_bytes 4 0) ++ le_bytes 8 manifest_size) tail refl h

-- The sizes are read back from a header that is written, when they are the sizes of what follows.
pub parse_header-with_header :
    (manifest_size payload_size : ℕ) (tail : Bytes)
    → manifest_size ≤ 65536
    → payload_size ≤ 4294967296
    → length tail ≡ 96 + manifest_size + payload_size
    → parse_header (with_header manifest_size payload_size tail) ≡ ok (manifest_size, payload_size)
unfolding parse_header
parse_header-with_header manifest_size payload_size tail few small e =
    let bytes = with_header manifest_size payload_size tail in
    let size = length-with_header manifest_size payload_size tail in
    let long : not (ltb (length bytes) 128) ≡ true = ground (arith, size, e) in
    let magic : starts_with bytes package_magic ≡ true =
      starts_magic manifest_size payload_size tail in
    let first = read_version manifest_size payload_size tail in
    let second = read_flags manifest_size payload_size tail in
    let third = read_manifest_size manifest_size payload_size tail (omega (arith, few)) in
    let fourth = read_payload_size manifest_size payload_size tail (omega (arith, small)) in
    let few' : leb manifest_size 65536 ≡ true = ground arith in
    let small' : leb payload_size 4294967296 ≡ true = ground arith in
    let total : (u64 (128 + manifest_size + payload_size) == length bytes) ≡ true =
      ground (arith, size, e) in
    rw (long, magic, first, second, third, fourth) (rw (few', small', total) refl)
