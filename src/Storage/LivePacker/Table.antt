-- ===== src/Storage/LivePacker/Table.antt =====
-- The kernel reads the table of a sparse pack as the packer has written it.
use zenov_os.Prelude.{
  ℕ, zero, suc, ◌+◌, ◌*◌, ◌/◌, ◌≡◌, ◌≤◌, ◌<◌, refl, sym, ap, subst, ◌∙◌, List, [], ◌∷◌, ◌++◌, Bool,
  true, ◌&&◌, length, take, drop, get_or, bit_or, u8, u16, ltb, leb, arith, and_split, ltb→lt,
  length-append,
}
use zenov_os.Prelude.Bits.{two_to, bit_or-low}
use zenov_os.Prelude.Bytes.{Bytes}
use zenov_os.Prelude.Bytes.Laws.{append_assoc, append_nil, take-append, drop-append}
use zenov_os.Storage.LivePack.{
  Image, live_read_u16, live_read_u32, live_chunk_length, live_chunk_offset, live_pack_data_start,
  live_chunk_data_offset,
}
use zenov_os.Storage.LivePacker.Chunks.{
  Chunk, append_u16, append_u32, append_rows, append_data, data_size,
}

-- The chunk that the kernel finds in a row of the table.
abbrev chunk_at : Image → Bytes → ℕ → Chunk
chunk_at image pack k = record {
  offset = live_chunk_offset pack k;
  bytes =
      take (live_chunk_length pack k)
        (drop (live_pack_data_start image + live_chunk_data_offset pack k) pack);
}

-- The chunks of some rows from row `k` on.
unfoldable pub chunks_from : Image → Bytes → ℕ → ℕ → List Chunk
chunks_from image pack zero k = []
chunks_from image pack (suc rows) k = chunk_at image pack k ∷ chunks_from image pack rows (suc k)

-- A row in front of some bytes, and the rows of a list of chunks, and their bytes.
abbrev pub row : Chunk → Bytes → Bytes
row c rest =
    u8 c.offset
    ∷ u8 (c.offset / 256)
    ∷ u8 (c.offset / 65536)
    ∷ u8 (c.offset / 16777216)
    ∷ u8 (u16 (length c.bytes))
    ∷ u8 (u16 (length c.bytes) / 256)
    ∷ u8 0
    ∷ u8 (0 / 256)
    ∷ rest

unfoldable pub rows : List Chunk → Bytes → Bytes
rows [] rest = rest
rows (c ∷ cs) rest = row c (rows cs rest)

unfoldable pub datas : List Chunk → Bytes
datas [] = []
datas (c ∷ cs) = c.bytes ++ datas cs

pub append_rows-rows :
    (output rest : Bytes) (cs : List Chunk) → append_rows output cs ++ rest ≡ output ++ rows cs rest
unfolding append_rows rows
append_rows-rows output rest [] = refl
append_rows-rows output rest (c ∷ cs) =
    let first = append_u32 output c.offset in
    let second = append_u16 first (u16 (length c.bytes)) in
    append_rows-rows (append_u16 second 0) rest cs
    ∙ append_assoc second _ (rows cs rest)
    ∙ append_assoc first _ _
    ∙ append_assoc output _ _

pub append_data-datas :
    (output : Bytes) (cs : List Chunk) → append_data output cs ≡ output ++ datas cs
unfolding append_data datas
append_data-datas output [] = sym (append_nil output)
append_data-datas output (c ∷ cs) =
    append_data-datas (output ++ c.bytes) cs ∙ append_assoc output c.bytes (datas cs)

-- A byte behind a prefix.
pub byte_at_place :
    (pre xs : Bytes) (n k : ℕ) → n ≡ length pre + k → get_or (pre ++ xs) n 0 ≡ get_or xs k 0
byte_at_place [] xs n k e = ap (λ t. get_or xs t 0) (e ∙ omega arith)
byte_at_place (y ∷ pre) xs zero k e = absurd (omega arith)
byte_at_place (y ∷ pre) xs (suc n) k e = byte_at_place pre xs n k (omega arith)

half_word : (v : ℕ) → v < 65536 → bit_or (u8 v) (u16 (u8 (v / 256) * 256)) ≡ v
half_word v h =
    let high : u16 (u8 (v / 256) * 256) ≡ u8 (v / 256) * 256 = omega arith in
    let low : u8 v < two_to 8 = unfold two_to in (omega arith) in
    rw high (
      bit_or-low 8 (u8 v) (u8 (v / 256) * 256) (u8 (v / 256)) low (unfold two_to in refl)
      ∙ omega arith)

word :
    (v : ℕ)
    → v < 4294967296
    → bit_or
        (bit_or (bit_or (u8 v) (u8 (v / 256) * 256)) (u8 (v / 65536) * 65536))
        (u8 (v / 16777216) * 16777216)
      ≡ v
word v h =
    let a = u8 v in
    let b = u8 (v / 256) in
    let c = u8 (v / 65536) in
    let d = u8 (v / 16777216) in
    let first : bit_or a (b * 256) ≡ a + b * 256 =
      bit_or-low 8 a (b * 256) b (unfold two_to in (omega arith)) (unfold two_to in refl) in
    let second : bit_or (a + b * 256) (c * 65536) ≡ a + b * 256 + c * 65536 =
      bit_or-low 16 (a + b * 256) (c * 65536) c (unfold two_to in (omega arith))
        (unfold two_to in refl) in
    let third : bit_or (a + b * 256 + c * 65536) (d * 16777216)
        ≡ a + b * 256 + c * 65536 + d * 16777216 =
      bit_or-low 24 (a + b * 256 + c * 65536) (d * 16777216) d (unfold two_to in (omega arith))
        (unfold two_to in refl) in
    ap (λ t. bit_or (bit_or t (c * 65536)) (d * 16777216)) first
    ∙ ap (λ t. bit_or t (d * 16777216)) second
    ∙ third
    ∙ omega arith

-- Chunks that a row can hold.
unfoldable pub are_small : List Chunk → Bool
are_small [] = true
are_small (c ∷ cs) = (ltb c.offset 4294967296 && leb (length c.bytes) 65535) && are_small cs

pub live_read_u32-row :
    (pre rest : Bytes) (v : ℕ)
    → v < 4294967296
    → live_read_u32
        (pre ++ (u8 v ∷ u8 (v / 256) ∷ u8 (v / 65536) ∷ u8 (v / 16777216) ∷ rest))
        (length pre)
      ≡ v
unfolding live_read_u32
live_read_u32-row pre rest v h =
    let xs = u8 v ∷ u8 (v / 256) ∷ u8 (v / 65536) ∷ u8 (v / 16777216) ∷ rest in
    rw
      (
        byte_at_place pre xs (length pre) 0 (omega arith),
        byte_at_place pre xs (length pre + 1) 1 refl,
        byte_at_place pre xs (length pre + 2) 2 refl,
        byte_at_place pre xs (length pre + 3) 3 refl,
      )
      (word v h)

pub live_chunk_length-row :
    (pre rest : Bytes) (c : Chunk) (k : ℕ)
    → length pre ≡ 20 + k * 8
    → length c.bytes ≤ 65535
    → live_chunk_length (pre ++ row c rest) k ≡ length c.bytes
unfolding live_chunk_length live_read_u16
live_chunk_length-row pre rest c k e h =
    let size : u16 (length c.bytes) ≡ length c.bytes = omega arith in
    rw
      (
        byte_at_place pre (row c rest) (20 + k * 8 + 4) 4 (omega arith),
        byte_at_place pre (row c rest) (20 + k * 8 + 4 + 1) 5 (omega arith),
      )
      (rw size (half_word (length c.bytes) (omega arith)))

pub live_chunk_offset-row :
    (pre rest : Bytes) (c : Chunk) (k : ℕ)
    → length pre ≡ 20 + k * 8
    → c.offset < 4294967296
    → live_chunk_offset (pre ++ row c rest) k ≡ c.offset
unfolding live_chunk_offset
live_chunk_offset-row pre rest c k e h =
    subst (λ n. live_read_u32 (pre ++ row c rest) n ≡ c.offset) e
      (live_read_u32-row pre _ c.offset h)

pub length-rows :
    (cs : List Chunk) (rest : Bytes) → length (rows cs rest) ≡ 8 * length cs + length rest
unfolding rows
length-rows [] rest = omega arith
length-rows (c ∷ cs) rest = omega (arith, length-rows cs rest)

rows-append : (cs : List Chunk) (xs ys : Bytes) → rows cs (xs ++ ys) ≡ rows cs xs ++ ys
unfolding rows
rows-append [] xs ys = refl
rows-append (c ∷ cs) xs ys = ap (λ t. row c t) (rows-append cs xs ys)

-- The bytes of a chunk stand behind the table and the bytes `mid` of the chunks before.
drop-datas :
    (pre mid : Bytes) (c : Chunk) (cs : List Chunk) (n : ℕ)
    → n ≡ length pre + 8 * suc (length cs) + length mid
    → drop n (pre ++ rows (c ∷ cs) (mid ++ datas (c ∷ cs))) ≡ c.bytes ++ datas cs
unfolding datas
drop-datas pre mid c cs n e =
    let after = c.bytes ++ datas cs in
    let table = rows (c ∷ cs) [] in
    let split : pre ++ rows (c ∷ cs) (mid ++ after) ≡ (pre ++ table) ++ mid ++ after =
      ap (λ t. pre ++ t) (rows-append (c ∷ cs) [] (mid ++ after))
      ∙ sym (append_assoc pre table (mid ++ after))
      ∙ sym (append_assoc (pre ++ table) mid after) in
    let size : n ≡ length (pre ++ table ++ mid) = omega (
      arith,
      e,
      length-append (pre ++ table) mid,
      length-append pre table,
      length-rows (c ∷ cs) [],
    ) in
    ap (drop n) split
    ∙ ap (λ t. drop t (pre ++ table ++ mid ++ after)) size
    ∙ drop-append (pre ++ table ++ mid) after

-- The rest of the table and of the bytes is read as the rest of the chunks: `pre` is the pack up to
-- row `k`, and `mid` the bytes of the chunks before.
pub chunks_from-rest :
    (image : Image) (pack pre mid : Bytes) (k : ℕ) (cs : List Chunk)
    → pack ≡ pre ++ rows cs (mid ++ datas cs)
    → length pre ≡ 20 + k * 8
    → image.chunk_count ≡ k + length cs
    → live_chunk_data_offset pack k ≡ length mid
    → length mid + data_size cs < 4294967296
    → are_small cs ≡ true
    → chunks_from image pack (length cs) k ≡ cs
unfolding chunks_from live_chunk_data_offset live_pack_data_start are_small data_size rows datas
chunks_from-rest image pack pre mid k [] e place count before fits small = refl
chunks_from-rest image pack pre mid k (c ∷ cs) e place count before fits small =
    let rest = rows cs (mid ++ datas (c ∷ cs)) in
    let (own, others) = and_split _ _ small in
    let (low, short) = and_split (ltb c.offset 4294967296) _ own in
    let size : length c.bytes ≤ 65535 = ground arith in
    let offset : live_chunk_offset pack k ≡ c.offset =
      ap (λ t. live_chunk_offset t k) e
      ∙ live_chunk_offset-row pre rest c k place (ltb→lt _ _ low) in
    let run : live_chunk_length pack k ≡ length c.bytes =
      ap (λ t. live_chunk_length t k) e ∙ live_chunk_length-row pre rest c k place size in
    let start = 20 + image.chunk_count * 8 + live_chunk_data_offset pack k in
    let stored : take (live_chunk_length pack k) (drop start pack) ≡ c.bytes =
      ap (λ n. take n (drop start pack)) run
      ∙ ap (λ t. take (length c.bytes) (drop start t)) e
      ∙ ap (take (length c.bytes))
          (drop-datas pre mid c cs start (omega (arith, place, count, before)))
      ∙ take-append c.bytes (datas cs) in
    let next : pack ≡ pre ++ row c [] ++ rows cs (mid ++ c.bytes ++ datas cs) =
      e
      ∙ ap (λ t. pre ++ row c (rows cs t)) (sym (append_assoc mid c.bytes (datas cs)))
      ∙ sym (append_assoc pre (row c []) (rows cs (mid ++ c.bytes ++ datas cs))) in
    let tail =
      chunks_from-rest image pack (pre ++ row c []) (mid ++ c.bytes) (suc k) cs next
        (omega (arith, place, length-append pre (row c []))) (omega (arith, count))
        (omega (arith, before, run, fits, length-append mid c.bytes))
        (omega (arith, fits, length-append mid c.bytes)) others in
    ap
      (λ x.
        record { offset = x; bytes = take (live_chunk_length pack k) (drop start pack) }
        ∷ chunks_from image pack (length cs) (suc k))
      offset
    ∙ ap (λ y. record { offset = c.offset; bytes = y } ∷ chunks_from image pack (length cs) (suc k))
        stored
    ∙ ap (λ t. c ∷ t) tail
