-- ===== src/Storage/Tests.antt =====
-- The theorems on the block storage of the kernel at concrete inputs.
use zenov_os.Prelude.{
  ℕ, zero, suc, ◌+◌, ◌*◌, ◌<◌, ◌≤◌, ◌≡◌, ◌≢◌, refl, none, some, arith, List, [], ◌∷◌, ◌++◌, true,
  false, ◌⊎◌, inr, length, length-replicate, u32, leb, replicate,
}
use zenov_os.Storage.BlockResult.{BlockOperation, block_success}
use zenov_os.Storage.FsResult.{FsResult, FsOperation, fs_retryable, fs_from_block, fs_ok, durable}
use zenov_os.Storage.AtaPolicy.{
  Error, Result, retryable, ticks_from_ms, deadline_after, deadline_reached,
}
use zenov_os.Storage.Failures.{ata2_block_result, fs_retryable-fs_from_block}
use zenov_os.Storage.Deadlines.{ticks_from_ms_bounds, deadline_reached-deadline_after}
use zenov_os.Storage.Device.{
  BlockIoState, BlockDevice, Reader, Writer, block_device_read, block_device_write,
  block_io_state_initial, block_io_counters_valid,
}
use zenov_os.Storage.Requests.{
  IsRead, IsWritten, IsRefused, Records, Request, read_request, write_request, serve_all,
  block_device_read-cases, block_device_write-cases, serve_all-initial,
}
use zenov_os.Storage.LivePack.{
  Image, live_decompress_pack, decode_groups, decode_bits, decode_token, decode_literal,
  decode_match, copy_match, finish_pack, live_pack_valid, check_chunks, bytes_equal, live_fnv1a32,
  fnv1a_from, live_read_u16, live_read_u32, live_chunk_length, live_chunk_offset, MeetsAsserts,
}
use zenov_os.Storage.LivePack.Decoding.{live_decompress_pack_exact}
use zenov_os.Storage.LiveOverlay.{Live, live_overlay_empty, overlay_of, live_write_sector}
use zenov_os.Storage.LivePacker.{
  lzss_compress, pack_groups, pack_bits, pack_token, find_match, search_chain, match_length,
  insert_position, insert_positions, lz_hash, as_int32,
}
use zenov_os.Storage.LivePacker.RoundTrip.{live_decompress_pack-lzss_compress}
use zenov_os.Storage.LivePacker.Chunks.{
  Chunk, fnv1a32, leading_zeros, last_nonzero, split_chunks, data_size, append_rows, append_data,
  sparse_pack, pack_image,
}
use zenov_os.Storage.LivePacker.Table.{chunks_from}
use zenov_os.Storage.LivePacker.Sparse.{expand, live_decompress_pack-pack_image}
use zenov_os.Prelude.Result.{ok}
use zenov_os.Storage.LiveDevice.{live0, start, start_checked, live_image_initialize}
use zenov_os.Storage.LiveDevice.Histories.{
  write_all, disk_after, OnDisk, live_image_initialize-reads,
}
use zenov_os.Storage.LiveOverlay.Refinement.{IsValid, IsStored, live_write_sector-view}

-- "abcabca": three literal bytes and a match of four bytes at distance three.
abbrev small_image : Image
small_image = record {
  logical_sectors = 2;
  chunk_count = 1;
  pack_bytes = 7;
  pack_checksum = 0;
  compressed = 7 ∷ 97 ∷ 98 ∷ 99 ∷ 33 ∷ 0 ∷ [];
}

abbrev small_pack : List ℕ
small_pack = 97 ∷ 98 ∷ 99 ∷ 97 ∷ 98 ∷ 99 ∷ 97 ∷ []

small_image_unpacks : live_decompress_pack small_image 7 ≡ some small_pack
unfolding live_decompress_pack decode_groups decode_bits decode_token decode_literal decode_match
    copy_match finish_pack
small_image_unpacks = refl

live_decompress_pack_exact_example : (length small_pack ≡ 7) × (7 ≡ small_image.pack_bytes)
live_decompress_pack_exact_example =
    live_decompress_pack_exact small_image 7 small_pack small_image_unpacks

-- Sector 1 has been written, sector 0 has not.
abbrev live : Live
live = record {
  image = small_image;
  pack = small_pack;
  active = true;
  overlay_used = 1;
  overlay_map = 0xffff ∷ 0 ∷ [];
  overlay_sectors = replicate 1024 [];
}

live_mapped : (i : ℕ) → overlay_of live i ≢ live_overlay_empty → overlay_of live i < 1
live_mapped zero ne = absurd (ne refl)
live_mapped (suc zero) ne = omega arith
live_mapped (suc (suc i)) ne = absurd (ne refl)

live_distinct :
    (i j : ℕ)
    → overlay_of live i ≢ live_overlay_empty
    → overlay_of live i ≡ overlay_of live j
    → i ≡ j
live_distinct zero j ne e = absurd (ne refl)
live_distinct (suc zero) zero ne e = absurd (omega (arith, e))
live_distinct (suc zero) (suc zero) ne e = refl
live_distinct (suc zero) (suc (suc j)) ne e = absurd (omega (arith, e))
live_distinct (suc (suc i)) j ne e = absurd (ne refl)

live-IsValid : IsValid live
live-IsValid = record {
  running = refl;
  map_full = refl;
  memory_full = length-replicate {A = List ℕ} 1024 [];
  used_bounded = omega arith;
  mapped = live_mapped;
  distinct = live_distinct;
}

live_write_sector-view_example : IsStored live 0 (5 ∷ []) (live_write_sector live 0 (some (5 ∷ [])))
live_write_sector-view_example =
    live_write_sector-view live 0 (5 ∷ []) live-IsValid (omega arith) (inr (omega arith))

abbrev timeout : Result
timeout = record { error = Error.timeout_drq; status = 0x40; error_register = 0; attempts = 3 }

abbrev timed_out : FsResult
timed_out = fs_from_block FsOperation.write (ata2_block_result BlockOperation.write 9 timeout) 0

fs_retryable-fs_from_block_example :
    (fs_retryable timed_out ≡ true) × (fs_ok timed_out ≡ false) × (durable timed_out ≡ false)
unfolding retryable
fs_retryable-fs_from_block_example =
    fs_retryable-fs_from_block FsOperation.write BlockOperation.write 9 0 timeout

ticks_from_ms_bounds_example :
    (ticks_from_ms 25 100 ≤ 0xffff_ffff)
    × (1000 * ticks_from_ms 25 100 < 25 * 100 + 1000)
    × ((ticks_from_ms 25 100 ≡ 0xffff_ffff) ⊎ (25 * 100 ≤ 1000 * ticks_from_ms 25 100))
ticks_from_ms_bounds_example = ticks_from_ms_bounds 25 100

-- The counter wraps around after one tick.
deadline_reached-deadline_after_example :
    deadline_reached (u32 (0xffff_ffff + 2)) (deadline_after 0xffff_ffff 25 100)
    ≡ leb (ticks_from_ms 25 100) 2
unfolding ticks_from_ms
deadline_reached-deadline_after_example =
    deadline_reached-deadline_after 0xffff_ffff 25 100 2 (omega arith) (omega arith)

-- A driver that counts its calls.
abbrev counting_read : Reader ℕ
counting_read d lba buffer = (block_success BlockOperation.read lba 1, lba ∷ [], d + 1)

abbrev counting_write : Writer ℕ
counting_write d lba buffer = (block_success BlockOperation.write lba 1, d + 1)

abbrev disk : BlockDevice ℕ
disk = record {
  name = some "ata0";
  present = true;
  writable = true;
  sectors = 8;
  read_sector = some counting_read;
  write_sector = some counting_write;
}

block_device_read-cases_example :
    IsRead disk block_io_state_initial 0 7
      (some [])
      (block_device_read disk block_io_state_initial 0 7 (some []))
    ⊎ IsRefused 0 (some []) (block_device_read disk block_io_state_initial 0 7 (some []))
block_device_read-cases_example = block_device_read-cases disk block_io_state_initial 0 7 (some [])

block_device_write-cases_example :
    IsWritten disk block_io_state_initial 0 8
      (some [])
      (block_device_write disk block_io_state_initial 0 8 (some []))
    ⊎ IsRefused 0 (some []) (block_device_write disk block_io_state_initial 0 8 (some []))
block_device_write-cases_example =
    block_device_write-cases disk block_io_state_initial 0 8 (some [])

abbrev three_requests : List Request
three_requests = read_request 7 (some []) ∷ write_request 8 (some []) ∷ read_request 1 none ∷ []

serve_all-initial_example :
    Records
      (serve_all disk block_io_state_initial 0 [] three_requests).0
      (serve_all disk block_io_state_initial 0 [] three_requests).1
    × (block_io_counters_valid (serve_all disk block_io_state_initial 0 [] three_requests).0 ≡ true)
serve_all-initial_example = serve_all-initial disk 0 three_requests

-- A pack of one sector whose byte 3 is 7, all in literal bytes.
abbrev one_pack : List ℕ
one_pack =
    90 ∷ 76 ∷ 73 ∷ 86 ∷ 69 ∷ 48 ∷ 48 ∷ 50 ∷ 1 ∷ 0 ∷ 0 ∷ 0 ∷ 1 ∷ 0 ∷ 0 ∷ 0 ∷ 1 ∷ 0 ∷ 0 ∷ 0 ∷ 3 ∷ 0
    ∷ 0 ∷ 0 ∷ 1 ∷ 0 ∷ 0 ∷ 0 ∷ 7 ∷ []

abbrev one_image : Image
one_image = record {
  logical_sectors = 1;
  chunk_count = 1;
  pack_bytes = 29;
  pack_checksum = 1605007865;
  compressed =
      255 ∷ 90 ∷ 76 ∷ 73 ∷ 86 ∷ 69 ∷ 48 ∷ 48 ∷ 50 ∷ 255 ∷ 1 ∷ 0 ∷ 0 ∷ 0 ∷ 1 ∷ 0 ∷ 0 ∷ 0 ∷ 255 ∷ 1
      ∷ 0 ∷ 0 ∷ 0 ∷ 3 ∷ 0 ∷ 0 ∷ 0 ∷ 255 ∷ 1 ∷ 0 ∷ 0 ∷ 0 ∷ 7 ∷ [];
}

abbrev memory : List (List ℕ)
memory = replicate 1024 []

one_image_unpacks : live_decompress_pack one_image 29 ≡ some one_pack
unfolding live_decompress_pack decode_groups decode_bits decode_token decode_literal decode_match
    copy_match finish_pack
one_image_unpacks = refl

one_pack_valid : live_pack_valid one_image one_pack ≡ true
unfolding live_pack_valid check_chunks bytes_equal live_fnv1a32 fnv1a_from live_read_u16
    live_read_u32 live_chunk_length live_chunk_offset
one_pack_valid = refl

one_image_starts : live_image_initialize one_image memory ≡ some (start one_image memory one_pack)
unfolding live_image_initialize start_checked
one_image_starts = rw (one_image_unpacks, one_pack_valid) refl

abbrev two_writes : List (ℕ × List ℕ)
two_writes = (0, 5 ∷ []) ∷ (0, 6 ∷ []) ∷ []

two_writes-OnDisk : OnDisk 1 two_writes
unfolding OnDisk
two_writes-OnDisk = (omega arith, (omega arith, record {}))

abbrev two_written : Live × BlockIoState
two_written =
    write_all one_image block_io_state_initial (start one_image memory one_pack).live two_writes

live_image_initialize-reads_example :
    ((block_device_read (live0 one_image) two_written.1 two_written.0 0 (some [])).result
      ≡ block_success BlockOperation.read 0 1)
    × ((block_device_read (live0 one_image) two_written.1 two_written.0 0 (some [])).buffer
        ≡ some (6 ∷ []))
unfolding disk_after
live_image_initialize-reads_example =
    live_image_initialize-reads one_image memory (start one_image memory one_pack) two_writes 0 []
      one_image_starts (length-replicate {A = List ℕ} 1024 []) two_writes-OnDisk (omega arith)
      (omega arith)

-- The compression finds the match.
small_pack_packs : lzss_compress small_pack ≡ small_image.compressed
unfolding lzss_compress pack_groups pack_bits pack_token find_match search_chain match_length
    insert_position insert_positions lz_hash as_int32
small_pack_packs = refl

abbrev packed_image : Image
packed_image = record small_image { compressed = lzss_compress small_pack }

packed_image-MeetsAsserts : MeetsAsserts packed_image
unfolding lzss_compress pack_groups pack_bits pack_token find_match search_chain match_length
    insert_position insert_positions lz_hash as_int32
packed_image-MeetsAsserts = (omega arith, omega arith, omega arith)

live_decompress_pack-lzss_compress_example : live_decompress_pack packed_image 7 ≡ some small_pack
live_decompress_pack-lzss_compress_example =
    live_decompress_pack-lzss_compress packed_image small_pack packed_image-MeetsAsserts refl refl

-- A sector with eighteen bytes that are not zero, and what is packed for it.
abbrev sector_image : List ℕ
sector_image = replicate 18 7 ++ replicate 494 0

abbrev sector_chunk : Chunk
sector_chunk = record { offset = 0; bytes = replicate 18 7 }

abbrev sector_packed : Image
sector_packed = record {
  logical_sectors = 1;
  chunk_count = 1;
  pack_bytes = 46;
  pack_checksum = fnv1a32 (sparse_pack 1 (sector_chunk ∷ []));
  compressed = lzss_compress (sparse_pack 1 (sector_chunk ∷ []));
}

sector_image_packs : pack_image sector_image ≡ ok sector_packed
unfolding pack_image split_chunks leading_zeros last_nonzero sparse_pack append_rows append_data
    data_size lzss_compress pack_groups pack_bits pack_token find_match search_chain match_length
    insert_position insert_positions lz_hash as_int32
sector_image_packs = refl

sector_packed-MeetsAsserts : MeetsAsserts sector_packed
unfolding sparse_pack append_rows append_data data_size lzss_compress pack_groups pack_bits
    pack_token find_match search_chain match_length insert_position insert_positions lz_hash
    as_int32
sector_packed-MeetsAsserts = (omega arith, omega arith, omega arith)

live_decompress_pack-pack_image_example :
    (pack : List ℕ) × (live_decompress_pack sector_packed 46 ≡ some pack)
    × (live_fnv1a32 pack ≡ sector_packed.pack_checksum)
    × (live_read_u32 pack 8 ≡ 1)
    × (live_read_u32 pack 12 ≡ 1)
    × (live_pack_valid sector_packed pack ≡ true)
    × (1 * 512 ≡ 512)
    × (expand 0 (chunks_from sector_packed pack 1 0) 512 ≡ sector_image)
live_decompress_pack-pack_image_example =
    live_decompress_pack-pack_image sector_image sector_packed sector_image_packs
      sector_packed-MeetsAsserts
