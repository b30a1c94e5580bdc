-- ===== src/Storage/LivePacker/Chunks.antt =====
-- tools/live_image_pack.cpp, main: an image is split into chunks between runs of zeros, and written as
-- a sparse pack, which is compressed.
use zenov_os.Prelude.{
  ℕ, zero, suc, ◌+◌, ◌-◌, ◌/◌, ◌%◌, List, [], ◌∷◌, ◌++◌, not, ◌&&◌, ◌||◌, length, take, drop, u8,
  u16, u32, ltb, leb, ◌==◌, if◌then◌else◌,
}
use zenov_os.Prelude.Bytes.{Bytes, codes}
use zenov_os.Prelude.Result.{Result, ok, ◌>>=◌, ◌>>◌, require}
use zenov_os.Storage.LivePack.{Image, fnv1a_from}
use zenov_os.Storage.LivePacker.{lzss_compress}

abbrev pub zero_gap : ℕ
zero_gap = 8

abbrev pub max_chunk_bytes : ℕ
max_chunk_bytes = 0xffff

pub record Chunk : Type 0 where
  pub offset : ℕ
  pub bytes : Bytes

abbrev pub append_u16 : Bytes → ℕ → Bytes
append_u16 output value = output ++ (u8 value ∷ u8 (value / 256) ∷ [])

abbrev pub append_u32 : Bytes → ℕ → Bytes
append_u32 output value =
    output ++ (u8 value ∷ u8 (value / 256) ∷ u8 (value / 65536) ∷ u8 (value / 16777216) ∷ [])

unfoldable pub fnv1a32 : Bytes → ℕ
unfolding fnv1a_from
fnv1a32 input = fnv1a_from 2166136261 input

-- `while (i < image.size() && image[i] == 0U) ++i`.
unfoldable pub leading_zeros : Bytes → ℕ
leading_zeros [] = 0
leading_zeros (x ∷ xs) = let rest = leading_zeros xs in if x == 0 then suc rest else 0

-- The scan of a chunk, from its byte `i` on; the result is the last byte that is not zero, before a
-- run of zeros longer than the gap or the end.
unfoldable pub last_nonzero : Bytes → ℕ → ℕ → ℕ
last_nonzero [] i last = last
last_nonzero (x ∷ xs) i last =
    let found = last_nonzero xs (i + 1) i in
    let rest = last_nonzero xs (i + 1) last in
    if not (x == 0) then found else if ltb zero_gap (i - last) then last else rest

abbrev pub chunk_length : Bytes → ℕ
chunk_length rest = last_nonzero (drop 1 rest) 1 0 + 1

-- The bytes from `i` on. A round takes a byte at least, so that their number is fuel enough.
unfoldable pub split_chunks : ℕ → ℕ → Bytes → Result (List Chunk)
unfolding leading_zeros last_nonzero
split_chunks zero i bytes = ok []
split_chunks (suc fuel) i bytes =
    let start = i + leading_zeros bytes in
    let rest = drop (leading_zeros bytes) bytes in
    let size = chunk_length rest in
    let after = split_chunks fuel (start + size) (drop size rest) in
    if length rest == 0
    then ok []
    else (require (leb size max_chunk_bytes) "sparse chunk exceeds ZLIVE002 uint16 length"
        >> (after >>= λ chunks.
            ok (record { offset = u32 start; bytes = take size rest } ∷ chunks)))

unfoldable pub data_size : List Chunk → ℕ
data_size [] = 0
data_size (chunk ∷ chunks) = length chunk.bytes + data_size chunks

unfoldable pub append_rows : Bytes → List Chunk → Bytes
append_rows output [] = output
append_rows output (chunk ∷ chunks) =
    append_rows
      (append_u16 (append_u16 (append_u32 output chunk.offset) (u16 (length chunk.bytes))) 0) chunks

unfoldable pub append_data : Bytes → List Chunk → Bytes
append_data output [] = output
append_data output (chunk ∷ chunks) = append_data (output ++ chunk.bytes) chunks

unfoldable pub sparse_pack : ℕ → List Chunk → Bytes
unfolding append_rows append_data data_size
sparse_pack sectors chunks =
    let first = append_u32 (codes "ZLIVE002") (u32 sectors) in
    let second = append_u32 first (u32 (length chunks)) in
    let third = append_u32 second (u32 (data_size chunks)) in
    append_data (append_rows third chunks) chunks

-- What is written to the output file.
unfoldable pub pack_image : Bytes → Result Image
pack_image image = do
  require (length image % 512 == 0 && leb (length image / 512) 4294967295)
      "input must be a sector-aligned 32-bit image"
  chunks ← split_chunks (length image) 0 image
  require (not (length chunks == 0 || ltb 4294967295 (length chunks)))
      "input produced an invalid sparse chunk set"
  require (leb (data_size chunks) 4294967295) "packed data is too large"
  let sparse = sparse_pack (length image / 512) chunks
  let compressed = lzss_compress sparse
  require (not (length compressed == 0 || leb (length sparse) (length compressed)))
      "ZLIVE003 compression did not reduce the sparse payload"
  ok (record {
    logical_sectors = length image / 512;
    chunk_count = length chunks;
    pack_bytes = length sparse;
    pack_checksum = fnv1a32 sparse;
    compressed = compressed;
  })
