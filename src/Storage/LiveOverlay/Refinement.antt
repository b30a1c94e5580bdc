-- ===== src/Storage/LiveOverlay/Refinement.antt =====
-- The overlay of kernel/parts/storage_live_image.inc is a disk: reads see the last write.
use zenov_os.Prelude.{
  ℕ, ◌+◌, ◌<◌, ◌≤◌, ◌≡◌, ◌≢◌, refl, sym, ap, ◌∙◌, some, arith, List, [], true, false, ◌⊎◌, inl, inr,
  get_or, set, length, length-set, get_or-set_self, get_or-set_ne, ℕ_discrete, Bool-cases, ◌==◌,
  if◌then◌else◌, u16, leb,
}
use zenov_os.Storage.BlockResult.{BlockResult, BlockOperation, block_success, block_ok}
use zenov_os.Storage.LivePack.{live_read_base_sector}
use zenov_os.Storage.LiveOverlay.{
  Live, live_overlay_empty, overlay_of, live_read_sector, live_write_sector,
}

-- The map's entries are distinct overlay sectors that are in use.
pub record IsValid (live : Live) : Type 0 where
  pub running : live.active ≡ true
  pub map_full : length live.overlay_map ≡ live.image.logical_sectors
  pub memory_full : length live.overlay_sectors ≡ 1024
  pub used_bounded : live.overlay_used ≤ 1024
  pub mapped :
      (i : ℕ) → overlay_of live i ≢ live_overlay_empty → overlay_of live i < live.overlay_used
  pub distinct :
      (i j : ℕ)
      → overlay_of live i ≢ live_overlay_empty
      → overlay_of live i ≡ overlay_of live j
      → i ≡ j

-- The disk that the Live storage shows.
unfoldable pub view : Live → ℕ → List ℕ
view live lba =
    if overlay_of live lba == live_overlay_empty
    then live_read_base_sector live.image live.pack lba
    else get_or live.overlay_sectors (overlay_of live lba) []

-- A read of a sector of the image succeeds and fills the buffer with the disk's sector.
pub live_read_sector-view :
    (live : Live) (lba : ℕ) (output : List ℕ)
    → IsValid live
    → lba < live.image.logical_sectors
    → live_read_sector live lba (some output)
      ≡ (block_success BlockOperation.read lba 1, some (view live lba))
unfolding live_read_sector view
live_read_sector-view live lba output v h = ground (arith, v.running)

-- A sector can be written where it is in the overlay already, or the overlay has room.
abbrev pub HasRoom : Live → ℕ → Type 0
HasRoom live lba = (overlay_of live lba ≢ live_overlay_empty) ⊎ (live.overlay_used < 1024)

-- The state after a write that extends the overlay.
abbrev extended : Live → ℕ → List ℕ → Live
extended live lba input = record live {
  overlay_used = live.overlay_used + 1;
  overlay_map = set live.overlay_map lba live.overlay_used;
  overlay_sectors = set live.overlay_sectors live.overlay_used input;
}

abbrev replaced : Live → ℕ → List ℕ → Live
replaced live lba input = record live {
  overlay_sectors = set live.overlay_sectors (overlay_of live lba) input;
}

module _ (live : Live) (lba : ℕ) (input : List ℕ) (v : IsValid live)
    (h : lba < live.image.logical_sectors) where
  write_new :
      overlay_of live lba ≡ live_overlay_empty
      → live.overlay_used < 1024
      → live_write_sector live lba (some input)
        ≡ (block_success BlockOperation.write lba 1, extended live lba input)
  unfolding live_write_sector
  write_new e room =
      let small : u16 live.overlay_used ≡ live.overlay_used = omega arith in
      let a : leb live.image.logical_sectors lba ≡ false = ground arith in
      let b : (overlay_of live lba == live_overlay_empty) ≡ true = ground arith in
      let c : leb 1024 live.overlay_used ≡ false = ground arith in
      rw (v.running, a, b, c, small) refl

  write_old :
      overlay_of live lba ≢ live_overlay_empty
      → live_write_sector live lba (some input)
        ≡ (block_success BlockOperation.write lba 1, replaced live lba input)
  unfolding live_write_sector
  write_old ne =
      let a : leb live.image.logical_sectors lba ≡ false = ground arith in
      let b : (overlay_of live lba == live_overlay_empty) ≡ false = ground arith in
      rw (v.running, a, b) refl

  replaced-IsValid : IsValid (replaced live lba input)
  replaced-IsValid = record {
    running = v.running;
    map_full = v.map_full;
    memory_full = length-set live.overlay_sectors (overlay_of live lba) input ∙ v.memory_full;
    used_bounded = v.used_bounded;
    mapped = v.mapped;
    distinct = v.distinct;
  }

  new_entry : overlay_of (extended live lba input) lba ≡ live.overlay_used
  new_entry =
      get_or-set_self live.overlay_map lba live.overlay_used live_overlay_empty
        (omega (arith, v.map_full))

  old_entry : (i : ℕ) → lba ≢ i → overlay_of (extended live lba input) i ≡ overlay_of live i
  old_entry i d = get_or-set_ne live.overlay_map lba i live.overlay_used live_overlay_empty d

  extended-IsValid : live.overlay_used < 1024 → IsValid (extended live lba input)
  extended-IsValid room = record {
    running = v.running;
    map_full = length-set live.overlay_map lba live.overlay_used ∙ v.map_full;
    memory_full = length-set live.overlay_sectors live.overlay_used input ∙ v.memory_full;
    used_bounded = omega arith;
    mapped = λ i ne. elim (ℕ_discrete lba i) [
      | yes same ↦ rw (← same, new_entry) (omega arith)
      | no other ↦
          let old = v.mapped i (λ e. ne (old_entry i other ∙ e)) in
          rw (old_entry i other) (omega arith)
    ];
    distinct = λ i j ne e. elim (ℕ_discrete lba i) [
      | yes a ↦ elim (ℕ_discrete lba j) [
        | yes b ↦ sym a ∙ b
        | no b ↦
            let top = ap (overlay_of (extended live lba input)) (sym a) ∙ new_entry in
            let same = sym (old_entry j b) ∙ sym e ∙ top in
            let small = v.mapped j (λ z. ne (e ∙ old_entry j b ∙ z)) in
            absurd (omega (arith, same, small))
      ]
      | no a ↦ elim (ℕ_discrete lba j) [
        | yes b ↦
            let top = ap (overlay_of (extended live lba input)) (sym b) ∙ new_entry in
            let same = sym (old_entry i a) ∙ e ∙ top in
            let small = v.mapped i (λ z. ne (old_entry i a ∙ z)) in
            absurd (omega (arith, same, small))
        | no b ↦
            v.distinct i j (λ z. ne (old_entry i a ∙ z)) (sym (old_entry i a) ∙ e ∙ old_entry j b)
      ]
    ];
  }

  -- The disk after a write: the sector written holds the input, the others are as before.
  view_new :
      live.overlay_used < 1024
      → (j : ℕ) → view (extended live lba input) j ≡ (if j == lba then input else view live j)
  unfolding view
  view_new room j = elim (ℕ_discrete lba j) [
    | yes b ↦
        let c : (overlay_of (extended live lba input) lba == live_overlay_empty) ≡ false =
          ground (arith, new_entry) in
        let d : (lba == lba) ≡ true = ground arith in
        rw (← b, c, d, new_entry)
          (get_or-set_self live.overlay_sectors live.overlay_used input []
            (omega (arith, v.memory_full)))
    | no b ↦
        let d : (j == lba) ≡ false = ground arith in
        elim (Bool-cases (overlay_of live j == live_overlay_empty)) [
          | inl unmapped ↦ rw (old_entry j b, unmapped, d) refl
          | inr is_mapped ↦
              let small = v.mapped j (ground arith) in
              rw (old_entry j b, is_mapped, d)
                (get_or-set_ne live.overlay_sectors live.overlay_used (overlay_of live j) input []
                  (λ e. absurd (omega (arith, e, small))))
        ]
  ]

  view_old :
      overlay_of live lba ≢ live_overlay_empty
      → (j : ℕ) → view (replaced live lba input) j ≡ (if j == lba then input else view live j)
  unfolding view
  view_old ne j = elim (ℕ_discrete lba j) [
    | yes b ↦
        let c : (overlay_of live lba == live_overlay_empty) ≡ false = ground arith in
        let d : (lba == lba) ≡ true = ground arith in
        let small = v.mapped lba ne in
        rw (← b, c, d)
          (get_or-set_self live.overlay_sectors (overlay_of live lba) input []
            (omega (arith, v.memory_full, v.used_bounded, small)))
    | no b ↦
        let d : (j == lba) ≡ false = ground arith in
        elim (Bool-cases (overlay_of live j == live_overlay_empty)) [
          | inl unmapped ↦ rw (unmapped, d) refl
          | inr is_mapped ↦
              rw (is_mapped, d)
                (get_or-set_ne live.overlay_sectors (overlay_of live lba) (overlay_of live j) input
                  [] (λ e. absurd (b (v.distinct lba j ne e))))
        ]
  ]

-- What a write that is accepted does.
unfoldable pub IsStored : Live → ℕ → List ℕ → BlockResult × Live → Type 0
IsStored live lba input answer =
    (answer.0 ≡ block_success BlockOperation.write lba 1)
    × IsValid answer.1
    × ((j : ℕ) → view answer.1 j ≡ (if j == lba then input else view live j))
    × (answer.1.image ≡ live.image)
    × (answer.1.overlay_used ≤ live.overlay_used + 1)

-- A write of a sector of the image that is in the overlay already, or for which the overlay has room,
-- succeeds and keeps the overlay valid; after it the disk holds the input at that sector and is
-- unchanged at every other, and at most one more sector of the overlay is in use.
pub live_write_sector-view :
    (live : Live) (lba : ℕ) (input : List ℕ)
    → IsValid live
    → lba < live.image.logical_sectors
    → HasRoom live lba
    → IsStored live lba input (live_write_sector live lba (some input))
unfolding IsStored
live_write_sector-view live lba input v h room =
    elim (ℕ_discrete (overlay_of live lba) live_overlay_empty) [
      | yes e ↦ elim room [
        | inl ne ↦ absurd (ne e)
        | inr more ↦ rw (write_new live lba input v h e more) (
          refl,
          extended-IsValid live lba input v h more,
          view_new live lba input v h more,
          refl,
          omega arith,
        )
      ]
      | no ne ↦ rw (write_old live lba input v h ne) (
        refl,
        replaced-IsValid live lba input v h,
        view_old live lba input v h ne,
        refl,
        omega arith,
      )
    ]

-- A write reports a failure and leaves the state as it is where the sector is outside
-- of the image, or is not in the overlay and the overlay is full.
pub live_write_sector-fails :
    (live : Live) (lba : ℕ) (input : List ℕ)
    → IsValid live
    → (live.image.logical_sectors ≤ lba)
      ⊎ ((overlay_of live lba ≡ live_overlay_empty) × (live.overlay_used ≡ 1024))
    → (block_ok (live_write_sector live lba (some input)).0 ≡ false)
      × ((live_write_sector live lba (some input)).1 ≡ live)
unfolding live_write_sector
live_write_sector-fails live lba input v (inl far) =
    let a : leb live.image.logical_sectors lba ≡ true = ground arith in
    rw (v.running, a) (refl, refl)
live_write_sector-fails live lba input v (inr (e, full)) =
    elim (Bool-cases (leb live.image.logical_sectors lba)) [
      | inl a ↦ rw (v.running, a) (refl, refl)
      | inr a ↦
          let b : (overlay_of live lba == live_overlay_empty) ≡ true = ground arith in
          let c : leb 1024 live.overlay_used ≡ true = ground arith in
          rw (v.running, a, b, c) (refl, refl)
    ]
