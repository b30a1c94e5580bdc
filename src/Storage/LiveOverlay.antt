-- ===== src/Storage/LiveOverlay.antt =====
-- kernel/parts/storage_live_image.inc, the writable overlay: sectors that were written live in RAM and
-- hide those of the base image. The map has a half word for each sector, and the overlay's memory is
-- an array of sectors.
pub mod Refinement
use zenov_os.Prelude.{
  ℕ, zero, suc, ◌+◌, ◌-◌, ◌*◌, ◌/◌, ◌%◌, ◌<◌, ◌≤◌, ◌≡◌, ◌≢◌, refl, sym, ap, subst, ◌∙◌, Option,
  none, some, arith, List, [], ◌∷◌, Bool, true, false, not, ◌&&◌, ◌||◌, ◌⊎◌, inl, inr, get_or, set,
  length, length-set, get_or-set_self, get_or-set_ne, get_or-set_default, get_or-replicate,
  length-replicate, count_if, count_if-set, count_if-le, to_nat, ℕ_discrete, Option-cases,
  Bool-cases, ◌==◌, ◌/=◌, if◌then◌else◌, bit_and, bit_or, bit_xor, ◌↔◌, take, drop, map, ◌++◌,
  length-append, u32, u16, u8, ltb, leb, replicate,
}
use zenov_os.Storage.BlockResult.{
  BlockResult, BlockOperation, BlockStatus, block_result, block_success,
}
use zenov_os.Storage.LivePack.{Image, live_read_base_sector}

abbrev pub live_overlay_empty : ℕ
live_overlay_empty = 0xffff

abbrev pub live_overlay_capacity_sectors : ℕ
live_overlay_capacity_sectors = 1024

pub record Live : Type 0 where
  pub image : Image
  pub pack : List ℕ
  pub active : Bool
  pub overlay_used : ℕ
  pub overlay_map : List ℕ
  pub overlay_sectors : List (List ℕ)

abbrev pub overlay_of : Live → ℕ → ℕ
overlay_of live lba = get_or live.overlay_map lba live_overlay_empty

abbrev pub no_read_device : ℕ → BlockResult
no_read_device lba = block_result BlockOperation.read BlockStatus.no_device lba 0 0 0

abbrev pub live_read_at : Live → ℕ → List ℕ → BlockResult × List ℕ
live_read_at live lba output =
    if not live.active
    then (no_read_device lba, output)
    else if leb live.image.logical_sectors lba
    then (block_result BlockOperation.read BlockStatus.out_of_range lba 0 0 0, output)
    else if overlay_of live lba /= live_overlay_empty
    then (
      block_success BlockOperation.read lba 1,
      get_or live.overlay_sectors (overlay_of live lba) [],
    )
    else (block_success BlockOperation.read lba 1, live_read_base_sector live.image live.pack lba)

-- The result and the buffer; a null buffer is `none`.
unfoldable pub live_read_sector : Live → ℕ → Option (List ℕ) → BlockResult × Option (List ℕ)
live_read_sector live lba none = (no_read_device lba, none)
live_read_sector live lba (some output) =
    let (result, buffer) = live_read_at live lba output in (result, some buffer)

abbrev pub no_write_device : ℕ → BlockResult
no_write_device lba = block_result BlockOperation.write BlockStatus.no_device lba 0 0 0

-- The copy into the overlay's memory, and the success.
abbrev pub store_sector : Live → ℕ → ℕ → List ℕ → BlockResult × Live
store_sector live lba overlay input = (
  block_success BlockOperation.write lba 1,
  record live { overlay_sectors = set live.overlay_sectors overlay input },
)

abbrev pub live_write_at : Live → ℕ → List ℕ → BlockResult × Live
live_write_at live lba input =
    if not live.active
    then (no_write_device lba, live)
    else if leb live.image.logical_sectors lba
    then (block_result BlockOperation.write BlockStatus.out_of_range lba 0 0 0, live)
    else if overlay_of live lba == live_overlay_empty
    then if leb live_overlay_capacity_sectors live.overlay_used
      then (block_result BlockOperation.write BlockStatus.device_error lba 1 0 0, live)
      else store_sector
          (record live {
            overlay_used = live.overlay_used + 1;
            overlay_map = set live.overlay_map lba (u16 live.overlay_used);
          })
          lba (u16 live.overlay_used) input
    else store_sector live lba (overlay_of live lba) input

unfoldable pub live_write_sector : Live → ℕ → Option (List ℕ) → BlockResult × Live
live_write_sector live lba none = (no_write_device lba, live)
live_write_sector live lba (some input) = live_write_at live lba input
