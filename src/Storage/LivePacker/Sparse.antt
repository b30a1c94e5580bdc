-- ===== src/Storage/LivePacker/Sparse.antt =====
-- The chunks of an image, with zeros between them, are the image.
use zenov_os.Prelude.{
  ℕ, zero, suc, ◌+◌, ◌-◌, ◌*◌, ◌/◌, ◌%◌, ◌≡◌, ◌≤◌, ◌<◌, refl, sym, ap, subst, ◌∙◌, inl, inr, List,
  [], ◌∷◌, ◌++◌, true, not, ◌&&◌, ◌||◌, some, length, take, drop, replicate, u32, ltb, leb, ◌==◌,
  arith, Bool-cases, and_split,
}
use zenov_os.Prelude.Bytes.{Bytes}
use zenov_os.Prelude.Bytes.Laws.{append_nil}
use zenov_os.Prelude.Result.{ok, bind-eq-ok, require-eq-ok, ok_injective}
use zenov_os.Package.Sha256.Streaming.{take-drop, length-take, length-drop}
use zenov_os.Storage.LivePack.{
  Image, MeetsAsserts, live_decompress_pack, live_fnv1a32, live_read_u32, live_pack_valid,
}
use zenov_os.Storage.LivePacker.{lzss_compress}
use zenov_os.Storage.LivePacker.RoundTrip.{live_decompress_pack-lzss_compress}
use zenov_os.Storage.LivePacker.Chunks.{
  Chunk, leading_zeros, chunk_length, split_chunks, data_size, sparse_pack, pack_image, fnv1a32,
}
use zenov_os.Storage.LivePacker.Table.{chunks_from}
use zenov_os.Storage.LivePacker.Scan.{
  replicate-leading_zeros, last_nonzero_bounds, length-leading_zeros,
}
use zenov_os.Storage.LivePacker.Validity.{
  are_placed, some_bytes, split_chunks-are_placed, live_pack_valid-sparse_pack,
}
use zenov_os.Storage.LivePacker.Layout.{
  live_read_u32-sectors, live_read_u32-count, chunks_from-sparse_pack, split_chunks-are_small,
}

-- The bytes from a position to the end, where there is no chunk a zero.
unfoldable pub expand : ℕ → List Chunk → ℕ → Bytes
expand position [] size = replicate (size - position) 0
expand position (chunk ∷ chunks) size =
    replicate (chunk.offset - position) 0
    ++ (chunk.bytes ++ expand (chunk.offset + length chunk.bytes) chunks size)

empty_of_length : (xs : Bytes) → (length xs == 0) ≡ true → xs ≡ []
empty_of_length [] h = refl
empty_of_length (x ∷ xs) h = ground arith

-- Zeros up to the end.
expand_end :
    (i : ℕ) (bytes : Bytes)
    → (length (drop (leading_zeros bytes) bytes) == 0) ≡ true
    → expand i [] (i + length bytes) ≡ bytes
unfolding expand
expand_end i bytes h =
    let n = leading_zeros bytes in
    let empty = empty_of_length (drop n bytes) h in
    let count : i + length bytes - i ≡ n =
      omega (arith, length-leading_zeros bytes, ap length empty) in
    rw count (
      sym (append_nil (replicate n 0))
      ∙ ap (λ t. replicate n 0 ++ t) (sym empty)
      ∙ replicate-leading_zeros bytes)

-- A chunk and what follows, where what follows is right.
expand_chunk :
    (i n size : ℕ) (bytes : Bytes) (chunks : List Chunk)
    → size ≤ length (drop n bytes)
    → n + length (drop n bytes) ≡ length bytes
    → i + n < 4294967296
    → replicate n 0 ++ drop n bytes ≡ bytes
    → expand (i + n + size) chunks (i + n + size + length (drop size (drop n bytes)))
      ≡ drop size (drop n bytes)
    → expand i
        (record { offset = u32 (i + n); bytes = take size (drop n bytes) } ∷ chunks)
        (i + length bytes)
      ≡ bytes
unfolding expand
expand_chunk i n size bytes chunks inside whole small zeros after =
    let start : u32 (i + n) ≡ i + n = omega arith in
    let gap : i + n - i ≡ n = omega arith in
    let long = length-take size (drop n bytes) inside in
    let end_ : i + length bytes ≡ i + n + size + length (drop size (drop n bytes)) =
      omega (arith, whole, length-drop size (drop n bytes)) in
    rw (start, gap, long, end_, after) (rw (take-drop size (drop n bytes)) zeros)

split_chunks-expand :
    (fuel i : ℕ) (bytes : Bytes) (chunks : List Chunk)
    → split_chunks fuel i bytes ≡ ok chunks
    → length bytes ≤ fuel
    → i + length bytes ≤ 4294967296
    → expand i chunks (i + length bytes) ≡ bytes
unfolding split_chunks expand
split_chunks-expand zero i bytes chunks h fits small =
    subst (λ t. expand i t (i + length bytes) ≡ bytes) (ok_injective [] chunks h)
      (expand_end i bytes (ground (arith, length-leading_zeros bytes)))
split_chunks-expand (suc fuel) i bytes chunks h fits small =
    let n = leading_zeros bytes in
    let rest = drop n bytes in
    let zeros = replicate-leading_zeros bytes in
    let whole = length-leading_zeros bytes in
    elim (Bool-cases (length rest == 0)) [
      | inl e ↦
          subst (λ t. expand i t (i + length bytes) ≡ bytes) (ok_injective [] chunks (rw e at h))
            (expand_end i bytes e)
      | inr e ↦
          let size = chunk_length rest in
          let (short, h1) = require-eq-ok (leb size 65535) _ _ (rw e at h) in
          let (cs, found, h2) =
            bind-eq-ok (split_chunks fuel (i + n + size) (drop size rest)) _ h1 in
          let some_left : 0 < length rest = ground arith in
          let bound = last_nonzero_bounds (drop 1 rest) 1 0 (omega arith) in
          let inside : size ≤ length rest = omega (arith, bound, length-drop 1 rest) in
          let shorter = length-drop size rest in
          let after =
            split_chunks-expand fuel (i + n + size) (drop size rest) cs found (omega arith)
              (omega arith) in
          subst (λ t. expand i t (i + length bytes) ≡ bytes) (ok_injective _ chunks h2)
            (expand_chunk i n size bytes cs inside whole (omega arith) zeros after)
    ]

-- The chunks that the kernel finds in the pack of a split image are the image.
expand-split :
    (image : Image) (bytes : Bytes) (chunks : List Chunk) (sectors : ℕ)
    → split_chunks (length bytes) 0 bytes ≡ ok chunks
    → length bytes ≤ 16777216
    → image.chunk_count ≡ length chunks
    → data_size chunks < 4294967296
    → expand 0 (chunks_from image (sparse_pack sectors chunks) image.chunk_count 0) (length bytes)
      ≡ bytes
expand-split image bytes chunks sectors split short number little =
    let pack = sparse_pack sectors chunks in
    let from_zero : 0 + length bytes ≡ length bytes = omega arith in
    let small = split_chunks-are_small (length bytes) 0 bytes chunks split in
    let found : chunks_from image pack image.chunk_count 0 ≡ chunks =
      ap (λ n. chunks_from image pack n 0) number
      ∙ chunks_from-sparse_pack image sectors chunks number little small in
    let expanded =
      split_chunks-expand (length bytes) 0 bytes chunks split (omega arith)
        (omega (arith, short)) in
    ap (λ t. expand 0 t (length bytes)) found
    ∙ subst (λ n. expand 0 chunks n ≡ bytes) from_zero expanded

-- The kernel accepts the pack of a split image.
live_pack_valid-split :
    (image : Image) (bytes : Bytes) (chunks : List Chunk) (sectors : ℕ)
    → split_chunks (length bytes) 0 bytes ≡ ok chunks
    → sectors * 512 ≡ length bytes
    → length bytes ≤ 16777216
    → 0 < length chunks
    → image.logical_sectors ≡ sectors
    → image.chunk_count ≡ length chunks
    → image.pack_bytes ≡ length (sparse_pack sectors chunks)
    → length (sparse_pack sectors chunks) < 4294967296
    → live_fnv1a32 (sparse_pack sectors chunks) ≡ image.pack_checksum
    → live_pack_valid image (sparse_pack sectors chunks) ≡ true
live_pack_valid-split image bytes chunks sectors split exact short some_chunk logical number whole
      fits checksum =
    let from_zero : 0 + length bytes ≡ length bytes = omega arith in
    let some_byte = some_bytes bytes chunks split some_chunk in
    let placed : are_placed 0 (sectors * 512) chunks ≡ true =
      subst (λ n. are_placed 0 n chunks ≡ true) (from_zero ∙ sym exact)
        (split_chunks-are_placed (length bytes) 0 bytes chunks split (omega (arith, short))) in
    live_pack_valid-sparse_pack image sectors chunks logical number whole checksum
      (omega (arith, exact, some_byte)) (omega (arith, exact, short)) some_chunk fits
      (split_chunks-are_small (length bytes) 0 bytes chunks split) placed

-- What is packed for an image that meets the kernel's static_asserts, the kernel unpacks to a pack
-- with the checksum that is packed with it, and its check of the pack accepts it. In the header the
-- kernel reads the number of sectors, which are as many as the bytes packed fill, and the number of
-- chunks; and the chunks at the offsets, of the lengths and at the places in the pack that the kernel
-- reads in the rows of the table, with zeros between them, are the bytes that were packed.
pub live_decompress_pack-pack_image :
    (bytes : Bytes) (image : Image)
    → pack_image bytes ≡ ok image
    → MeetsAsserts image
    → (pack : Bytes) × (live_decompress_pack image image.pack_bytes ≡ some pack)
      × (live_fnv1a32 pack ≡ image.pack_checksum)
      × (live_read_u32 pack 8 ≡ image.logical_sectors)
      × (live_read_u32 pack 12 ≡ image.chunk_count)
      × (live_pack_valid image pack ≡ true)
      × (image.logical_sectors * 512 ≡ length bytes)
      × (expand 0 (chunks_from image pack image.chunk_count 0) (length bytes) ≡ bytes)
unfolding pack_image fnv1a32 live_fnv1a32
live_decompress_pack-pack_image bytes image h asserts =
    let (payload, workspace, map) = asserts in
    let (aligned, h1) =
      require-eq-ok (length bytes % 512 == 0 && leb (length bytes / 512) 4294967295) _ _ h in
    let (chunks, split, h2) = bind-eq-ok (split_chunks (length bytes) 0 bytes) _ h1 in
    let (count, h3) =
      require-eq-ok (not (length chunks == 0 || ltb 4294967295 (length chunks))) _ _ h2 in
    let (size, h4) = require-eq-ok (leb (data_size chunks) 4294967295) _ _ h3 in
    let sectors = length bytes / 512 in
    let sparse = sparse_pack sectors chunks in
    let packed = lzss_compress sparse in
    let (reduced, h5) =
      require-eq-ok (not (length packed == 0 || leb (length sparse) (length packed))) _ _ h4 in
    let written = ok_injective _ image h5 in
    let few : length chunks < 4294967296 = ground arith in
    let little : data_size chunks < 4294967296 = ground arith in
    let whole : image.pack_bytes ≡ length sparse = sym (ap (λ t. t.pack_bytes) written) in
    let number : image.chunk_count ≡ length chunks = sym (ap (λ t. t.chunk_count) written) in
    let logical : image.logical_sectors ≡ sectors = sym (ap (λ t. t.logical_sectors) written) in
    let (multiple, below) = and_split (length bytes % 512 == 0) _ aligned in
    let exact : sectors * 512 ≡ length bytes = ground arith in
    let short : length bytes ≤ 16777216 = omega (arith, map, logical, exact) in
    let unpacked =
      live_decompress_pack-lzss_compress image sparse asserts whole
        (sym (ap (λ t. t.compressed) written)) in
    let some_chunk : 0 < length chunks = ground arith in
    let checksum : live_fnv1a32 sparse ≡ image.pack_checksum = ap (λ t. t.pack_checksum) written in
    (
      sparse,
      subst (λ t. live_decompress_pack image t ≡ some sparse) (sym whole) unpacked,
      checksum,
      live_read_u32-sectors sectors chunks (omega (arith, short)) ∙ sym logical,
      live_read_u32-count sectors chunks few ∙ sym number,
      live_pack_valid-split image bytes chunks sectors split exact short some_chunk logical number
          whole (omega (arith, whole, workspace)) checksum,
      ap (λ n. n * 512) logical ∙ exact,
      expand-split image bytes chunks sectors split short number little,
    )
