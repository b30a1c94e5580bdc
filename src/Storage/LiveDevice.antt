-- ===== src/Storage/LiveDevice.antt =====
-- live_image_initialize of kernel/parts/storage_live_image.inc: the Live storage as the block device
-- of the kernel.
pub mod Histories
use Prim.Native.String.{String}
use zenov_os.Prelude.{
  ℕ, zero, suc, ◌+◌, ◌-◌, ◌*◌, ◌/◌, ◌%◌, ◌<◌, ◌≤◌, ◌≡◌, ◌≢◌, refl, sym, ap, subst, ◌∙◌, Option,
  none, some, arith, List, [], ◌∷◌, Bool, true, false, not, ◌&&◌, ◌||◌, ◌⊎◌, inl, inr, get_or, set,
  length, length-set, get_or-set_self, get_or-set_ne, get_or-set_default, get_or-replicate,
  length-replicate, count_if, count_if-set, count_if-le, to_nat, ℕ_discrete, Option-cases,
  Bool-cases, ◌==◌, ◌/=◌, if◌then◌else◌, bit_and, bit_or, bit_xor, ◌↔◌, take, drop, map, ◌++◌,
  length-append, u32, u16, u8, ltb, leb, replicate,
}
use zenov_os.Storage.BlockResult.{BlockResult, BlockOperation, block_ok, block_success}
use zenov_os.Storage.Device.{BlockDevice, BlockIoState, Reader, Writer, block_io_state_initial}
use zenov_os.Storage.LivePack.{Image, live_decompress_pack, live_pack_valid}
use zenov_os.Storage.LiveOverlay.{Live, live_overlay_empty, live_read_at, live_write_at}

-- The functions that the device is given, on the storage as the driver's state.
abbrev pub live_reader : Reader Live
live_reader live lba output =
    let (result, buffer) = live_read_at live lba output in (result, buffer, live)

abbrev pub live_writer : Writer Live
live_writer live lba input = live_write_at live lba input

abbrev pub live0 : Image → BlockDevice Live
live0 image = record {
  name = some "live0";
  present = true;
  writable = true;
  sectors = image.logical_sectors;
  read_sector = some live_reader;
  write_sector = some live_writer;
}

-- The kernel's storage globals that the initialization sets, where it succeeds.
pub record Started : Type 0 where
  pub live : Live
  pub device : BlockDevice Live
  pub io : BlockIoState
  pub ata_present : Bool
  pub ata_sector_total : ℕ

abbrev pub start : Image → List (List ℕ) → List ℕ → Started
start image memory pack = record {
  live = record {
    image = image;
    pack = pack;
    active = true;
    overlay_used = 0;
    overlay_map = replicate image.logical_sectors live_overlay_empty;
    overlay_sectors = memory;
  };
  device = live0 image;
  io = block_io_state_initial;
  ata_present = false;
  ata_sector_total = image.logical_sectors;
}

-- What follows the decompression.
unfoldable pub start_checked : Image → List (List ℕ) → Option (List ℕ) → Option Started
unfolding live_pack_valid
start_checked image memory none = none
start_checked image memory (some pack) =
    if live_pack_valid image pack then some (start image memory pack) else none

-- `none` where the function returns false: the storage is then inactive. `memory` is the overlay's
-- memory, which is left as it is.
unfoldable pub live_image_initialize : Image → List (List ℕ) → Option Started
unfolding live_decompress_pack start_checked
live_image_initialize image memory =
    start_checked image memory (live_decompress_pack image image.pack_bytes)
