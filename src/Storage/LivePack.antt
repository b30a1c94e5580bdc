-- ===== src/Storage/LivePack.antt =====
-- kernel/parts/storage_live_image.inc, the packed base image: its decompression, the check of its
-- tables, and the reading of a sector. The build generates the image, so its sizes, its checksum and
-- its compressed bytes are an argument; `sector_size` is that of storage_block_device_state.inc.
pub mod Decoding
use zenov_os.Prelude.{
  ℕ, zero, suc, ◌+◌, ◌-◌, ◌*◌, ◌/◌, ◌%◌, ◌<◌, ◌≤◌, ◌≡◌, ◌≢◌, refl, sym, ap, subst, ◌∙◌, Option,
  none, some, arith, List, [], ◌∷◌, Bool, true, false, not, ◌&&◌, ◌||◌, ◌⊎◌, inl, inr, get_or, set,
  length, length-set, get_or-set_self, get_or-set_ne, get_or-set_default, get_or-replicate,
  length-replicate, count_if, count_if-set, count_if-le, to_nat, ℕ_discrete, Option-cases,
  Bool-cases, ◌==◌, ◌/=◌, if◌then◌else◌, bit_and, bit_or, bit_xor, ◌↔◌, take, u32, u16, u8, ltb,
  leb, replicate,
}
use mathlib.Core.List.{reverse}

abbrev pub sector_size : ℕ
sector_size = 512

abbrev pub live_pack_header_bytes : ℕ
live_pack_header_bytes = 20

abbrev pub live_pack_chunk_bytes : ℕ
live_pack_chunk_bytes = 8

abbrev pub live_lz_min_match : ℕ
live_lz_min_match = 3

-- The constants of the generated header.
pub record Image : Type 0 where
  pub logical_sectors : ℕ
  pub chunk_count : ℕ
  pub pack_bytes : ℕ
  pub pack_checksum : ℕ
  pub compressed : List ℕ

abbrev pub live_image_workspace_bytes : ℕ
live_image_workspace_bytes = 65536

abbrev pub live_overlay_map_bytes : ℕ
live_overlay_map_bytes = 65536

-- The static_asserts on the generated constants, without which the kernel is not compiled.
abbrev pub MeetsAsserts : Image → Type 0
MeetsAsserts image =
    (length image.compressed < 32768)
    × (image.pack_bytes ≤ live_image_workspace_bytes)
    × (image.logical_sectors * 2 ≤ live_overlay_map_bytes)

-- A byte of an array.
abbrev pub byte_at : List ℕ → ℕ → ℕ
byte_at bytes i = get_or bytes i 0

unfoldable pub live_read_u16 : List ℕ → ℕ → ℕ
live_read_u16 bytes at = bit_or (byte_at bytes at) (u16 (byte_at bytes (at + 1) * 256))

unfoldable pub live_read_u32 : List ℕ → ℕ → ℕ
live_read_u32 bytes at =
    bit_or
      (bit_or (bit_or (byte_at bytes at) (byte_at bytes (at + 1) * 256))
        (byte_at bytes (at + 2) * 65536))
      (byte_at bytes (at + 3) * 16777216)

unfoldable pub fnv1a_from : ℕ → List ℕ → ℕ
fnv1a_from value [] = value
fnv1a_from value (b ∷ bytes) = fnv1a_from (u32 (bit_xor value b * 16777619)) bytes

unfoldable pub live_fnv1a32 : List ℕ → ℕ
unfolding fnv1a_from
live_fnv1a32 bytes = fnv1a_from 2166136261 bytes

-- The bytes written so far, the last one first: `output[written - distance]` is the entry at
-- `distance - 1`, and `written` is the length.
unfoldable pub copy_match : ℕ → ℕ → List ℕ → List ℕ
copy_match zero distance output = output
copy_match (suc length) distance output =
    copy_match length distance (get_or output (distance - 1) 0 ∷ output)

-- The positions of the decompressor: `input`, and the output. They are uint32_t in the code, and do not
-- wrap at the sizes that the static_asserts allow: `input` stays below 32768 and 3, `written` with the
-- length of a match below 65536 and 19.
pub record Cursor : Type 0 where
  pub input : ℕ
  pub output : List ℕ

-- A literal byte, or a match, as a flag bit says.
unfoldable pub decode_literal : List ℕ → Cursor → Option Cursor
decode_literal compressed c =
    if leb (length compressed) c.input
    then none
    else some (record { input = c.input + 1; output = byte_at compressed c.input ∷ c.output })

unfoldable pub decode_match : List ℕ → ℕ → Cursor → Option Cursor
unfolding copy_match
decode_match compressed capacity c =
    if leb (length compressed) (c.input + 1)
    then none
    else let code =
        bit_or (byte_at compressed c.input) (u16 (byte_at compressed (c.input + 1) * 256)) in
      let distance = code / 16 + 1 in
      let run = bit_and code 0x0f + live_lz_min_match in
      if ltb (length c.output) distance || ltb capacity (length c.output + run)
      then none
      else some (record { input = c.input + 2; output = copy_match run distance c.output })

unfoldable pub decode_token : ℕ → List ℕ → ℕ → Cursor → Option Cursor
unfolding decode_literal decode_match
decode_token flags compressed capacity c =
    if flags % 2 == 1 then decode_literal compressed c else decode_match compressed capacity c

-- The eight flag bits that are left, the lowest first.
unfoldable pub decode_bits : ℕ → ℕ → List ℕ → ℕ → Cursor → Option Cursor
decode_bits zero flags compressed capacity c = some c
decode_bits (suc bits) flags compressed capacity c =
    if leb capacity (length c.output)
    then some c
    else elim (decode_token flags compressed capacity c) [
      | none ↦ none
      | some c' ↦ decode_bits bits (flags / 2) compressed capacity c'
    ]

-- The outer loop. Each round takes a flag byte, so the fuel `length compressed + 1` is enough.
unfoldable pub decode_groups : ℕ → List ℕ → ℕ → Cursor → Option Cursor
decode_groups zero compressed capacity c = none
decode_groups (suc fuel) compressed capacity c =
    if leb capacity (length c.output)
    then some c
    else if leb (length compressed) c.input
    then none
    else elim (decode_bits 8 (byte_at compressed c.input) compressed capacity
        (record c { input = c.input + 1 })) [
          | none ↦ none
          | some c' ↦ decode_groups fuel compressed capacity c'
        ]

unfoldable pub finish_pack : List ℕ → Option Cursor → Option (List ℕ)
finish_pack compressed none = none
finish_pack compressed (some c) =
    if c.input == length compressed then some (reverse c.output) else none

-- The unpacked bytes, where the function returns true.
unfoldable pub live_decompress_pack : Image → ℕ → Option (List ℕ)
live_decompress_pack image capacity =
    if capacity /= image.pack_bytes
    then none
    else finish_pack image.compressed (
        decode_groups (length image.compressed + 1) image.compressed capacity
          (record { input = 0; output = [] }))

-- Rows of the chunk table: a word for the offset, a half word for the length, a half word of zeros.
abbrev pub live_chunk_row : ℕ → ℕ
live_chunk_row index = live_pack_header_bytes + index * live_pack_chunk_bytes

unfoldable pub live_chunk_length : List ℕ → ℕ → ℕ
live_chunk_length pack index = live_read_u16 pack (live_chunk_row index + 4)

unfoldable pub live_chunk_offset : List ℕ → ℕ → ℕ
live_chunk_offset pack index = live_read_u32 pack (live_chunk_row index)

unfoldable pub live_pack_data_start : Image → ℕ
live_pack_data_start image = live_pack_header_bytes + image.chunk_count * live_pack_chunk_bytes

-- The sum of the lengths of the chunks before `index`.
unfoldable pub live_chunk_data_offset : List ℕ → ℕ → ℕ
live_chunk_data_offset pack zero = 0
live_chunk_data_offset pack (suc index) =
    u32 (live_chunk_data_offset pack index + live_chunk_length pack index)

-- The loop over the chunk table; the result is `accumulated_data`.
unfoldable pub check_chunks : ℕ → ℕ → List ℕ → ℕ → ℕ → ℕ → ℕ → Option ℕ
check_chunks zero i pack sectors data_bytes previous_end accumulated = some accumulated
check_chunks (suc rounds) i pack sectors data_bytes previous_end accumulated =
    let offset = live_chunk_offset pack i in
    let run = live_chunk_length pack i in
    let rest =
      check_chunks rounds (i + 1) pack sectors data_bytes (u32 (offset + run))
        (u32 (accumulated + run)) in
    if run == 0
      || live_read_u16 pack (live_chunk_row i + 6) /= 0
      || ltb offset previous_end
      || ltb (sectors * sector_size) (offset + run)
      || ltb data_bytes (accumulated + run)
    then none
    else rest

-- "ZLIVE002".
abbrev pub live_magic : List ℕ
live_magic = b'Z' ∷ b'L' ∷ b'I' ∷ b'V' ∷ b'E' ∷ b'0' ∷ b'0' ∷ b'2' ∷ []

unfoldable pub bytes_equal : List ℕ → List ℕ → ℕ → Bool
bytes_equal left right zero = true
bytes_equal left right (suc n) = byte_at left n == byte_at right n && bytes_equal left right n

abbrev pub sums_to : ℕ → Option ℕ → Bool
sums_to data_bytes none = false
sums_to data_bytes (some accumulated) = accumulated == data_bytes

unfoldable pub live_pack_valid : Image → List ℕ → Bool
live_pack_valid image pack =
    let sectors = live_read_u32 pack 8 in
    let chunks = live_read_u32 pack 12 in
    let data_bytes = live_read_u32 pack 16 in
    let table_end = live_pack_header_bytes + chunks * live_pack_chunk_bytes in
    if ltb image.pack_bytes live_pack_header_bytes
    then false
    else if not (bytes_equal pack live_magic 8)
    then false
    else if live_fnv1a32 (take image.pack_bytes pack) /= image.pack_checksum
    then false
    else if sectors /= image.logical_sectors
        || chunks /= image.chunk_count
        || sectors == 0
        || chunks == 0
    then false
    else if ltb image.pack_bytes table_end || table_end + data_bytes /= image.pack_bytes
    then false
    else sums_to data_bytes (check_chunks chunks 0 pack sectors data_bytes 0 0)

-- The search for the first chunk that ends behind the sector's begin. The interval shrinks in each
-- round, so `high - low` rounds are enough.
unfoldable pub find_chunk : ℕ → List ℕ → ℕ → ℕ → ℕ → ℕ
find_chunk zero pack sector_begin low high = low
find_chunk (suc fuel) pack sector_begin low high =
    let middle = low + (high - low) / 2 in
    let end = u32 (live_chunk_offset pack middle + live_chunk_length pack middle) in
    let right = find_chunk fuel pack sector_begin (middle + 1) high in
    let left = find_chunk fuel pack sector_begin low middle in
    if not (ltb low high) then low else if leb end sector_begin then right else left

-- `memcpy(output + to, source + from, n)`.
unfoldable pub blit : ℕ → List ℕ → ℕ → List ℕ → ℕ → List ℕ
blit zero output to source from = output
blit (suc n) output to source from =
    blit n (set output to (byte_at source from)) (to + 1) source (from + 1)

-- The loop over the chunks that meet the sector.
unfoldable pub copy_chunks : ℕ → ℕ → Image → List ℕ → ℕ → ℕ → List ℕ → List ℕ
copy_chunks zero i image pack sector_begin data_offset output = output
copy_chunks (suc rounds) i image pack sector_begin data_offset output =
    let sector_end = u32 (sector_begin + sector_size) in
    let offset = live_chunk_offset pack i in
    let run = live_chunk_length pack i in
    let copy_begin = if ltb sector_begin offset then offset else sector_begin in
    let chunk_end = u32 (offset + run) in
    let copy_end = if ltb chunk_end sector_end then chunk_end else sector_end in
    let copied =
      if ltb copy_begin copy_end
      then blit (copy_end - copy_begin) output (copy_begin - sector_begin) pack
          (live_pack_data_start image + data_offset + copy_begin - offset)
      else output in
    let rest =
      copy_chunks rounds (i + 1) image pack sector_begin (u32 (data_offset + run)) copied in
    if leb sector_end offset then output else rest

unfoldable pub live_read_base_sector : Image → List ℕ → ℕ → List ℕ
live_read_base_sector image pack lba =
    let sector_begin = u32 (lba * sector_size) in
    let low = find_chunk image.chunk_count pack sector_begin 0 image.chunk_count in
    copy_chunks (image.chunk_count - low) low image pack sector_begin
      (live_chunk_data_offset pack low) (replicate sector_size 0)
