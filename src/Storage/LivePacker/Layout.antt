-- ===== src/Storage/LivePacker/Layout.antt =====
-- A sparse pack is its header, the rows of its chunks and their bytes, and the kernel reads them back.
use zenov_os.Prelude.{
  ℕ, zero, suc, ◌+◌, ◌≡◌, ◌≤◌, ◌<◌, refl, ap, subst, ◌∙◌, inl, inr, List, [], ◌∷◌, ◌++◌, true,
  length, take, drop, u32, ltb, leb, ◌==◌, arith, Bool-cases, and_intro,
}
use zenov_os.Prelude.Bytes.{Bytes, codes}
use zenov_os.Prelude.Result.{ok, bind-eq-ok, require-eq-ok, ok_injective}
use zenov_os.Storage.LivePack.{Image, live_read_u32, live_chunk_data_offset}
use zenov_os.Storage.LivePacker.Chunks.{
  Chunk, leading_zeros, chunk_length, split_chunks, data_size, append_rows, append_u32, sparse_pack,
}
use zenov_os.Storage.LivePacker.Table.{
  rows, datas, are_small, chunks_from, append_rows-rows, append_data-datas, live_read_u32-row,
  chunks_from-rest,
}

-- The header of a pack.
abbrev pub head : ℕ → List Chunk → Bytes
head sectors chunks =
    append_u32 (append_u32 (append_u32 (codes "ZLIVE002") (u32 sectors)) (u32 (length chunks)))
      (u32 (data_size chunks))

pub sparse_pack-rows :
    (sectors : ℕ) (chunks : List Chunk)
    → sparse_pack sectors chunks ≡ head sectors chunks ++ rows chunks (datas chunks)
unfolding sparse_pack
sparse_pack-rows sectors chunks =
    append_data-datas (append_rows (head sectors chunks) chunks) chunks
    ∙ append_rows-rows (head sectors chunks) (datas chunks) chunks

pub live_read_u32-sectors :
    (sectors : ℕ) (chunks : List Chunk)
    → sectors < 4294967296
    → live_read_u32 (sparse_pack sectors chunks) 8 ≡ sectors
live_read_u32-sectors sectors chunks small =
    let value : u32 sectors ≡ sectors = omega arith in
    ap (λ t. live_read_u32 t 8) (sparse_pack-rows sectors chunks)
    ∙ live_read_u32-row (codes "ZLIVE002") _ (u32 sectors) (omega arith)
    ∙ value

pub live_read_u32-count :
    (sectors : ℕ) (chunks : List Chunk)
    → length chunks < 4294967296
    → live_read_u32 (sparse_pack sectors chunks) 12 ≡ length chunks
live_read_u32-count sectors chunks small =
    let value : u32 (length chunks) ≡ length chunks = omega arith in
    ap (λ t. live_read_u32 t 12) (sparse_pack-rows sectors chunks)
    ∙ live_read_u32-row (append_u32 (codes "ZLIVE002") (u32 sectors)) _ (u32 (length chunks))
        (omega arith)
    ∙ value

pub live_read_u32-data_size :
    (sectors : ℕ) (chunks : List Chunk)
    → data_size chunks < 4294967296
    → live_read_u32 (sparse_pack sectors chunks) 16 ≡ data_size chunks
live_read_u32-data_size sectors chunks small =
    let value : u32 (data_size chunks) ≡ data_size chunks = omega arith in
    ap (λ t. live_read_u32 t 16) (sparse_pack-rows sectors chunks)
    ∙ live_read_u32-row
        (append_u32 (append_u32 (codes "ZLIVE002") (u32 sectors)) (u32 (length chunks)))
        (rows chunks (datas chunks)) (u32 (data_size chunks)) (omega arith)
    ∙ value

-- The kernel finds the chunks that were packed.
pub chunks_from-sparse_pack :
    (image : Image) (sectors : ℕ) (chunks : List Chunk)
    → image.chunk_count ≡ length chunks
    → data_size chunks < 4294967296
    → are_small chunks ≡ true
    → chunks_from image (sparse_pack sectors chunks) (length chunks) 0 ≡ chunks
unfolding live_chunk_data_offset
chunks_from-sparse_pack image sectors chunks count fits small =
    chunks_from-rest image (sparse_pack sectors chunks) (head sectors chunks) [] 0 chunks
      (sparse_pack-rows sectors chunks) refl (omega (arith, count)) refl (omega (arith, fits)) small

take_short : (n : ℕ) (xs : Bytes) → length (take n xs) ≤ n
take_short zero xs = omega arith
take_short (suc n) [] = omega arith
take_short (suc n) (x ∷ xs) = omega (arith, take_short n xs)

pub split_chunks-are_small :
    (fuel i : ℕ) (bytes : Bytes) (chunks : List Chunk)
    → split_chunks fuel i bytes ≡ ok chunks
    → are_small chunks ≡ true
unfolding split_chunks are_small
split_chunks-are_small zero i bytes chunks h =
    subst (λ t. are_small t ≡ true) (ok_injective [] chunks h) refl
split_chunks-are_small (suc fuel) i bytes chunks h =
    let n = leading_zeros bytes in
    let rest = drop n bytes in
    let size = chunk_length rest in
    elim (Bool-cases (length rest == 0)) [
      | inl e ↦ subst (λ t. are_small t ≡ true) (ok_injective [] chunks (rw e at h)) refl
      | inr e ↦
          let found_all = rw e at h in
          let (fits, h1) = require-eq-ok (leb size 65535) _ _ found_all in
          let (others, found, h2) =
            bind-eq-ok (split_chunks fuel (i + n + size) (drop size rest)) _ h1 in
          let low : ltb (u32 (i + n)) 4294967296 ≡ true = ground arith in
          let short : leb (length (take size rest)) 65535 ≡ true =
            ground (arith, take_short size rest) in
          subst (λ t. are_small t ≡ true) (ok_injective _ chunks h2)
            (and_intro _ _ (and_intro _ _ low short)
              (split_chunks-are_small fuel (i + n + size) (drop size rest) others found))
    ]
