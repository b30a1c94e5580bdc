-- ===== src/Storage/LiveDevice/Histories.antt =====
-- The Live disk of kernel/parts/storage_live_image.inc as the block device of
-- kernel/parts/storage_block_device.inc, from its initialization through a history of writes.
use zenov_os.Prelude.{
  ℕ, ◌+◌, ◌<◌, ◌≤◌, ◌≡◌, refl, sym, ap, ◌∙◌, Option, none, some, arith, List, [], ◌∷◌, false, inl,
  inr, length, get_or-replicate, length-replicate, Bool-cases, ◌==◌, if◌then◌else◌, leb,
}
use Prim.{Unit}
use zenov_os.Storage.BlockResult.{BlockResult, BlockOperation, block_success}
use zenov_os.Storage.Device.{
  BlockIoState, block_io_state_initial, block_device_read, block_device_write,
}
use zenov_os.Storage.LivePack.{Image, live_decompress_pack, live_pack_valid, live_read_base_sector}
use zenov_os.Storage.LiveOverlay.{
  Live, live_overlay_empty, overlay_of, live_read_sector, live_write_sector,
}
use zenov_os.Storage.LiveOverlay.Refinement.{
  IsValid, IsStored, view, live_read_sector-view, live_write_sector-view,
}
use zenov_os.Storage.LiveDevice.{Started, start, live0, live_image_initialize, start_checked}

-- The state and the counters after a list of writes of sectors.
pub write_all : Image → BlockIoState → Live → List (ℕ × List ℕ) → Live × BlockIoState
write_all image io live [] = (live, io)
write_all image io live ((lba, input) ∷ ws) =
    let answer = block_device_write (live0 image) io live lba (some input) in
    write_all image answer.io answer.driver ws

-- A disk is a function of the sector; a write changes it at one place.
unfoldable pub disk_after : (ℕ → List ℕ) → List (ℕ × List ℕ) → ℕ → List ℕ
disk_after disk [] j = disk j
disk_after disk ((lba, input) ∷ ws) j = disk_after (λ k. if k == lba then input else disk k) ws j

unfoldable pub OnDisk : ℕ → List (ℕ × List ℕ) → Type 0
OnDisk sectors [] = Unit
OnDisk sectors ((lba, input) ∷ ws) = (lba < sectors) × OnDisk sectors ws

start-IsValid :
    (image : Image) (memory : List (List ℕ)) (pack : List ℕ)
    → length memory ≡ 1024
    → IsValid (start image memory pack).live
start-IsValid image memory pack h = record {
  running = refl;
  map_full = length-replicate image.logical_sectors live_overlay_empty;
  memory_full = h;
  used_bounded = omega arith;
  mapped = λ i ne. absurd (ne (get_or-replicate image.logical_sectors i live_overlay_empty));
  distinct = λ i j ne e. absurd (ne (get_or-replicate image.logical_sectors i live_overlay_empty));
}

disk_after_ext :
    (f g : ℕ → List ℕ) (ws : List (ℕ × List ℕ))
    → ((j : ℕ) → f j ≡ g j)
    → (j : ℕ) → disk_after f ws j ≡ disk_after g ws j
unfolding disk_after
disk_after_ext f g [] e j = e j
disk_after_ext f g ((lba, input) ∷ ws) e j =
    disk_after_ext (λ k. if k == lba then input else f k) (λ k. if k == lba then input else g k) ws
      (λ k. ap (λ t. if k == lba then input else t) (e k)) j

-- The device passes a write of a sector of the image on to the storage.
write_passes :
    (live : Live) (io : BlockIoState) (lba : ℕ) (input : List ℕ)
    → lba < live.image.logical_sectors
    → (block_device_write (live0 live.image) io live lba (some input)).driver
      ≡ (live_write_sector live lba (some input)).1
unfolding block_device_write live_write_sector
write_passes live io lba input h =
    let a : leb live.image.logical_sectors lba ≡ false = ground arith in rw a refl

-- The driver's part of `IsStored`.
write_all-IsValid :
    (image : Image) (ws : List (ℕ × List ℕ)) (io : BlockIoState) (live : Live)
    → live.image ≡ image
    → IsValid live
    → OnDisk image.logical_sectors ws
    → live.overlay_used + length ws ≤ 1024
    → IsValid (write_all image io live ws).0
      × ((write_all image io live ws).0.image ≡ image)
      × ((j : ℕ) → view (write_all image io live ws).0 j ≡ disk_after (view live) ws j)
unfolding write_all disk_after OnDisk IsStored
write_all-IsValid image [] io live same v on room = (v, same, λ j. refl)
write_all-IsValid image ((lba, input) ∷ ws) io live same v (here, on) room =
    let near : lba < live.image.logical_sectors = rw same here in
    let next = (block_device_write (live0 image) io live lba (some input)).driver in
    let passes : next ≡ (live_write_sector live lba (some input)).1 =
      ap (λ i. (block_device_write (live0 i) io live lba (some input)).driver) (sym same)
      ∙ write_passes live io lba input near in
    let (good, valid, shows, keeps, used) =
      live_write_sector-view live lba input v near (inr (omega arith)) in
    let valid' : IsValid next = rw passes valid in
    let same' : next.image ≡ image = rw passes (keeps ∙ same) in
    let used' : next.overlay_used ≤ live.overlay_used + 1 = rw passes used in
    let (all_valid, all_same, all_shows) =
      write_all-IsValid image ws _ next same' valid' on (omega (arith, used', room)) in
    (
      all_valid,
      all_same,
      λ j.
          all_shows j
          ∙ disk_after_ext (view next) _ ws (λ k. ap (λ l. view l k) passes ∙ shows k) j,
    )

-- An initialization that succeeds leaves the started state.
started :
    (image : Image) (memory : List (List ℕ)) (pack : Option (List ℕ)) (s : Started)
    → start_checked image memory pack ≡ some s
    → s ≡ start image memory s.live.pack
unfolding start_checked
started image memory none s e = cc
started image memory (some pack) s e = elim (Bool-cases (live_pack_valid image pack)) [
  | inr invalid ↦ cc (rw invalid at e)
  | inl valid ↦
      let same : start image memory pack ≡ s = cc (rw valid at e) in
      sym same ∙ ap (λ (t : Started). start image memory t.live.pack) same
]

view-start :
    (image : Image) (memory : List (List ℕ)) (pack : List ℕ) (j : ℕ)
    → view (start image memory pack).live j ≡ live_read_base_sector image pack j
unfolding view
view-start image memory pack j =
    let e : overlay_of (start image memory pack).live j ≡ live_overlay_empty =
      get_or-replicate image.logical_sectors j live_overlay_empty in
    rw e refl

read_passes :
    (image : Image) (live : Live) (io : BlockIoState) (j : ℕ) (output buffer : List ℕ)
    (result : BlockResult)
    → j < image.logical_sectors
    → live_read_sector live j (some output) ≡ (result, some buffer)
    → ((block_device_read (live0 image) io live j (some output)).result ≡ result)
      × ((block_device_read (live0 image) io live j (some output)).buffer ≡ some buffer)
unfolding block_device_read live_read_sector
read_passes image live io j output buffer result h e =
    let a : leb image.logical_sectors j ≡ false = ground arith in
    rw a (
      ap (λ (p : BlockResult × Option (List ℕ)). p.0) e,
      ap (λ (p : BlockResult × Option (List ℕ)). p.1) e,
    )

-- After an initialization that succeeds and a history of up to 1024 writes through the block device,
-- all of sectors of the image, a read through the block device of any sector of the image succeeds
-- and returns what was last written there, or the sector of the base image where nothing was.
pub live_image_initialize-reads :
    (image : Image) (memory : List (List ℕ)) (s : Started) (ws : List (ℕ × List ℕ)) (j : ℕ)
    (output : List ℕ)
    → live_image_initialize image memory ≡ some s
    → length memory ≡ 1024
    → OnDisk image.logical_sectors ws
    → length ws ≤ 1024
    → j < image.logical_sectors
    → ((block_device_read s.device
          (write_all image s.io s.live ws).1
          (write_all image s.io s.live ws).0
          j
          (some output)).result
        ≡ block_success BlockOperation.read j 1)
      × ((block_device_read s.device
            (write_all image s.io s.live ws).1
            (write_all image s.io s.live ws).0
            j
            (some output)).buffer
          ≡ some (disk_after (live_read_base_sector image s.live.pack) ws j))
unfolding live_image_initialize
live_image_initialize-reads image memory s ws j output e m on short h =
    rw (started image memory (live_decompress_pack image image.pack_bytes) s e) (
      let first = (start image memory s.live.pack).live in
      let (v, same, shows) =
        write_all-IsValid image ws block_io_state_initial first refl
          (start-IsValid image memory s.live.pack m) on (omega arith) in
      let last = (write_all image block_io_state_initial first ws).0 in
      let near : j < last.image.logical_sectors = rw same h in
      let content : view last j ≡ disk_after (live_read_base_sector image s.live.pack) ws j =
        shows j ∙ disk_after_ext (view first) _ ws (view-start image memory s.live.pack) j in
      read_passes image last _ j output _ _ h (
        live_read_sector-view last j output v near
        ∙ ap (λ b. (block_success BlockOperation.read j 1, some b)) content))
