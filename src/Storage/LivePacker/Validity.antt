-- ===== src/Storage/LivePacker/Validity.antt =====
-- The kernel's check of an unpacked image accepts the sparse pack that was packed.
use zenov_os.Prelude.{
  ℕ, zero, suc, ◌+◌, ◌*◌, ◌≡◌, ◌≤◌, ◌<◌, refl, sym, ap, subst, ◌∙◌, inl, inr, List, [], ◌∷◌, ◌++◌,
  Bool, true, false, not, ◌&&◌, some, length, take, drop, u32, ltb, leb, ◌==◌, ◌/=◌, arith,
  Bool-cases, and_intro, and_split, length-append, ltb→lt,
}
use zenov_os.Prelude.Bytes.{Bytes}
use zenov_os.Prelude.Bytes.Laws.{append_assoc, append_nil, take-append}
use zenov_os.Prelude.Result.{ok, bind-eq-ok, require-eq-ok, ok_injective}
use zenov_os.Storage.LivePack.{
  Image, live_read_u16, live_read_u32, live_chunk_length, live_chunk_offset, check_chunks,
  live_pack_valid, live_fnv1a32, bytes_equal, live_magic,
}
use zenov_os.Storage.LivePacker.Chunks.{
  Chunk, leading_zeros, chunk_length, split_chunks, data_size, sparse_pack,
}
use zenov_os.Storage.LivePacker.Table.{
  row, rows, datas, are_small, byte_at_place, live_chunk_length-row, live_chunk_offset-row,
  length-rows,
}
use zenov_os.Package.Sha256.Streaming.{length-take, length-drop}
use zenov_os.Storage.LivePacker.Scan.{last_nonzero_bounds, length-leading_zeros}
use zenov_os.Storage.LivePacker.Layout.{
  head, sparse_pack-rows, live_read_u32-sectors, live_read_u32-count, live_read_u32-data_size,
}

-- Chunks in order, none of them empty, between two positions.
unfoldable pub are_placed : ℕ → ℕ → List Chunk → Bool
are_placed from to [] = true
are_placed from to (c ∷ cs) =
    ((leb from c.offset && not (length c.bytes == 0)) && leb (c.offset + length c.bytes) to)
    && are_placed (c.offset + length c.bytes) to cs

live_read_u16-row :
    (pre rest : Bytes) (c : Chunk) (k : ℕ)
    → length pre ≡ 20 + k * 8
    → live_read_u16 (pre ++ row c rest) (20 + k * 8 + 6) ≡ 0
unfolding live_read_u16
live_read_u16-row pre rest c k e =
    rw
      (
        byte_at_place pre (row c rest) (20 + k * 8 + 6) 6 (omega arith),
        byte_at_place pre (row c rest) (20 + k * 8 + 6 + 1) 7 (omega arith),
      )
      refl

-- The check of the table goes through: `pre` is the pack up to row `k`.
check_chunks-rows :
    (pack pre rest : Bytes) (k sectors size from total : ℕ) (cs : List Chunk)
    → pack ≡ pre ++ rows cs rest
    → length pre ≡ 20 + k * 8
    → total + data_size cs ≡ size
    → size < 4294967296
    → sectors * 512 < 4294967296
    → are_small cs ≡ true
    → are_placed from (sectors * 512) cs ≡ true
    → check_chunks (length cs) k pack sectors size from total ≡ some size
unfolding check_chunks are_small are_placed data_size rows
check_chunks-rows pack pre rest k sectors size from total [] e place sum fits below small placed =
    ap some (omega (arith, sum))
check_chunks-rows pack pre rest k sectors size from total (c ∷ cs) e place sum fits below small
      placed =
    let after = rows cs rest in
    let (own, others) = and_split _ _ small in
    let (low, short) = and_split (ltb c.offset 4294967296) _ own in
    let (here, further) = and_split _ _ placed in
    let (start, inside) = and_split (leb from c.offset && not (length c.bytes == 0)) _ here in
    let (ordered, full) = and_split (leb from c.offset) _ start in
    let bounded : length c.bytes ≤ 65535 = ground arith in
    let offset : live_chunk_offset pack k ≡ c.offset =
      ap (λ t. live_chunk_offset t k) e
      ∙ live_chunk_offset-row pre after c k place (ltb→lt _ _ low) in
    let run : live_chunk_length pack k ≡ length c.bytes =
      ap (λ t. live_chunk_length t k) e ∙ live_chunk_length-row pre after c k place bounded in
    let padding : live_read_u16 pack (20 + k * 8 + 6) ≡ 0 =
      ap (λ t. live_read_u16 t (20 + k * 8 + 6)) e ∙ live_read_u16-row pre after c k place in
    let ending : u32 (c.offset + length c.bytes) ≡ c.offset + length c.bytes = ground arith in
    let more : u32 (total + length c.bytes) ≡ total + length c.bytes = omega (arith, sum, fits) in
    let a : (length c.bytes == 0) ≡ false = ground arith in
    let b : ltb c.offset from ≡ false = ground arith in
    let d : ltb (sectors * 512) (c.offset + length c.bytes) ≡ false = ground arith in
    let f : ltb size (total + length c.bytes) ≡ false = ground (arith, sum) in
    let next : pack ≡ (pre ++ row c []) ++ rows cs rest =
      e ∙ sym (append_assoc pre (row c []) (rows cs rest)) in
    let tail =
      check_chunks-rows pack (pre ++ row c []) rest (k + 1) sectors size (c.offset + length c.bytes)
        (total + length c.bytes) cs next (omega (arith, place, length-append pre (row c [])))
        (omega (arith, sum)) fits below others further in
    rw (offset, run, padding, ending, more, a, b, d, f) tail

pub split_chunks-are_placed :
    (fuel i : ℕ) (bytes : Bytes) (chunks : List Chunk)
    → split_chunks fuel i bytes ≡ ok chunks
    → i + length bytes < 4294967296
    → are_placed i (i + length bytes) chunks ≡ true
unfolding split_chunks are_placed
split_chunks-are_placed zero i bytes chunks h small =
    subst (λ t. are_placed i (i + length bytes) t ≡ true) (ok_injective [] chunks h) refl
split_chunks-are_placed (suc fuel) i bytes chunks h small =
    let n = leading_zeros bytes in
    let rest = drop n bytes in
    let size = chunk_length rest in
    let whole = length-leading_zeros bytes in
    elim (Bool-cases (length rest == 0)) [
      | inl e ↦
          subst (λ t. are_placed i (i + length bytes) t ≡ true) (ok_injective [] chunks (rw e at h))
            refl
      | inr e ↦
          let (fits, h1) = require-eq-ok (leb size 65535) _ _ (rw e at h) in
          let (others, found, h2) =
            bind-eq-ok (split_chunks fuel (i + n + size) (drop size rest)) _ h1 in
          let some_left : 0 < length rest = ground arith in
          let bound = last_nonzero_bounds (drop 1 rest) 1 0 (omega arith) in
          let inside : size ≤ length rest = omega (arith, bound, length-drop 1 rest) in
          let start : u32 (i + n) ≡ i + n = omega arith in
          let long = length-take size rest inside in
          let ends : i + n + size + length (drop size rest) ≡ i + length bytes =
            omega (arith, whole, length-drop size rest) in
          let tail =
            split_chunks-are_placed fuel (i + n + size) (drop size rest) others found
              (omega (arith, ends)) in
          let ordered : leb i (i + n) ≡ true = ground arith in
          let full : not (size == 0) ≡ true = ground arith in
          let below : leb (i + n + size) (i + length bytes) ≡ true = ground (arith, ends) in
          subst (λ t. are_placed i (i + length bytes) t ≡ true) (ok_injective _ chunks h2)
            (rw (start, long)
              (and_intro _ _ (and_intro _ _ (and_intro _ _ ordered full) below) (rw ends at tail)))
    ]

-- An image of which there are chunks is not empty.
pub some_bytes :
    (bytes : Bytes) (chunks : List Chunk)
    → split_chunks (length bytes) 0 bytes ≡ ok chunks
    → 0 < length chunks
    → 0 < length bytes
unfolding split_chunks
some_bytes [] chunks h some_chunk =
    absurd (omega (arith, ap length (ok_injective [] chunks h), some_chunk))
some_bytes (x ∷ bytes) chunks h some_chunk = omega arith

length-datas : (cs : List Chunk) → length (datas cs) ≡ data_size cs
unfolding datas data_size
length-datas [] = refl
length-datas (c ∷ cs) =
    length-append c.bytes (datas cs) ∙ ap (λ n. length c.bytes + n) (length-datas cs)

pub length-sparse_pack :
    (sectors : ℕ) (cs : List Chunk)
    → length (sparse_pack sectors cs) ≡ 20 + 8 * length cs + data_size cs
length-sparse_pack sectors cs =
    ap length (sparse_pack-rows sectors cs)
    ∙ length-append (head sectors cs) (rows cs (datas cs))
    ∙ omega (arith, length-rows cs (datas cs), length-datas cs)

take_all : (xs : Bytes) → take (length xs) xs ≡ xs
take_all xs = ap (take (length xs)) (sym (append_nil xs)) ∙ take-append xs []

pub live_pack_valid-sparse_pack :
    (image : Image) (sectors : ℕ) (cs : List Chunk)
    → image.logical_sectors ≡ sectors
    → image.chunk_count ≡ length cs
    → image.pack_bytes ≡ length (sparse_pack sectors cs)
    → live_fnv1a32 (sparse_pack sectors cs) ≡ image.pack_checksum
    → 0 < sectors
    → sectors * 512 < 4294967296
    → 0 < length cs
    → length (sparse_pack sectors cs) < 4294967296
    → are_small cs ≡ true
    → are_placed 0 (sectors * 512) cs ≡ true
    → live_pack_valid image (sparse_pack sectors cs) ≡ true
unfolding live_pack_valid bytes_equal
live_pack_valid-sparse_pack image sectors cs logical count whole checksum some_sector below
      some_chunk fits small placed =
    let pack = sparse_pack sectors cs in
    let size = length-sparse_pack sectors cs in
    let read_sectors : live_read_u32 pack 8 ≡ sectors =
      live_read_u32-sectors sectors cs (omega (arith, below)) in
    let read_count : live_read_u32 pack 12 ≡ length cs =
      live_read_u32-count sectors cs (omega (arith, fits, size)) in
    let read_size : live_read_u32 pack 16 ≡ data_size cs =
      live_read_u32-data_size sectors cs (omega (arith, fits, size)) in
    let magic : bytes_equal pack live_magic 8 ≡ true =
      ap (λ t. bytes_equal t live_magic 8) (sparse_pack-rows sectors cs) in
    let all : take image.pack_bytes pack ≡ pack = ap (λ n. take n pack) whole ∙ take_all pack in
    let table : check_chunks (length cs) 0 pack sectors (data_size cs) 0 0 ≡ some (data_size cs) =
      check_chunks-rows pack (head sectors cs) (datas cs) 0 sectors (data_size cs) 0 0 cs
        (sparse_pack-rows sectors cs) refl (omega arith) (omega (arith, fits, size)) below small
        placed in
    let a : ltb image.pack_bytes 20 ≡ false = ground (arith, whole, size) in
    let b : (image.pack_checksum /= image.pack_checksum) ≡ false = ground arith in
    let c : (sectors /= image.logical_sectors) ≡ false = ground (arith, logical) in
    let d : (length cs /= image.chunk_count) ≡ false = ground (arith, count) in
    let e : (sectors == 0) ≡ false = ground arith in
    let f : (length cs == 0) ≡ false = ground arith in
    let g : ltb image.pack_bytes (20 + length cs * 8) ≡ false = ground (arith, whole, size) in
    let h : (20 + length cs * 8 + data_size cs /= image.pack_bytes) ≡ false =
      ground (arith, whole, size) in
    let i : (data_size cs == data_size cs) ≡ true = ground arith in
    rw (a, magic, all, checksum, read_sectors, read_count, read_size, b, c, d, e, f, g, h, table, i)
      refl
