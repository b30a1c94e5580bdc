-- ===== src/Storage/Requests.antt =====
-- Sequences of requests to a block device of kernel/parts/storage_block_device.inc.
use zenov_os.Prelude.{
  ℕ, ◌+◌, ◌<◌, ◌≡◌, refl, Option, none, some, arith, List, [], ◌∷◌, Bool, true, false, not, ◌⊎◌,
  inl, inr, length, count_if, Option-cases, Bool-cases, if◌then◌else◌, u32, leb,
}
use zenov_os.Storage.BlockResult.{BlockResult, BlockOperation, block_ok, block_success}
use zenov_os.Storage.Device.{
  BlockDevice, BlockIoState, Reader, Writer, Answer, answer_read, answer_write, block_device_read,
  block_device_write, block_io_complete, block_io_counters_valid, block_io_state_initial,
}

-- A request that is refused: an error, and the driver and the buffer are as before.
abbrev pub IsRefused : {D : Type 0} → D → Option (List ℕ) → Answer D → Type 0
IsRefused d buffer answer =
    (block_ok answer.result ≡ false) × (answer.driver ≡ d) × (answer.buffer ≡ buffer)

-- A read that reaches the driver.
pub data IsRead {D : Type 0} (device : BlockDevice D) (state : BlockIoState) (d : D) (lba : ℕ)
    (output : Option (List ℕ)) (answer : Answer D) : Type 0 where
  reads :
      (reader : Reader D) (buffer : List ℕ)
      → device.present ≡ true
      → device.read_sector ≡ some reader
      → output ≡ some buffer
      → lba < device.sectors
      → answer ≡ answer_read state (reader d lba buffer)
      → IsRead device state d lba output answer

pub data IsWritten {D : Type 0} (device : BlockDevice D) (state : BlockIoState) (d : D) (lba : ℕ)
    (input : Option (List ℕ)) (answer : Answer D) : Type 0 where
  writes :
      (writer : Writer D) (buffer : List ℕ)
      → device.present ≡ true
      → device.writable ≡ true
      → device.write_sector ≡ some writer
      → input ≡ some buffer
      → lba < device.sectors
      → answer ≡ answer_write state buffer (writer d lba buffer)
      → IsWritten device state d lba input answer

-- A read reaches the driver only where the device is present and has a driver, a buffer is given and
-- the sector is on the device; any other read is an error that leaves the driver and the buffer alone.
pub block_device_read-cases :
    {D : Type 0}
    → (device : BlockDevice D) (state : BlockIoState) (d : D) (lba : ℕ) (output : Option (List ℕ))
    → IsRead device state d lba output (block_device_read device state d lba output)
      ⊎ IsRefused d output (block_device_read device state d lba output)
unfolding block_device_read
block_device_read-cases device state d lba none = elim (Bool-cases device.present) [
  | inr absent ↦ inr (rw absent (refl, refl, refl))
  | inl here ↦ inr (rw here (refl, refl, refl))
]
block_device_read-cases device state d lba (some buffer) = elim (Bool-cases device.present) [
  | inr absent ↦ inr (rw absent (refl, refl, refl))
  | inl here ↦ elim (Option-cases device.read_sector) [
    | inl e ↦ inr (rw (here, e) (refl, refl, refl))
    | inr (reader, e) ↦ elim (Bool-cases (leb device.sectors lba)) [
      | inl far ↦ inr (rw (here, e, far) (refl, refl, refl))
      | inr near ↦ inl (reads reader buffer here e refl (ground arith) (rw (here, e, near) refl))
    ]
  ]
]

-- A write reaches the driver only where the device is present, writable and has a driver for writes,
-- a buffer is given and the sector is on the device; any other write is an error that leaves the
-- driver and the buffer alone.
pub block_device_write-cases :
    {D : Type 0}
    → (device : BlockDevice D) (state : BlockIoState) (d : D) (lba : ℕ) (input : Option (List ℕ))
    → IsWritten device state d lba input (block_device_write device state d lba input)
      ⊎ IsRefused d input (block_device_write device state d lba input)
unfolding block_device_write
block_device_write-cases device state d lba none = elim (Bool-cases device.present) [
  | inr absent ↦ inr (rw absent (refl, refl, refl))
  | inl here ↦ inr (rw here (refl, refl, refl))
]
block_device_write-cases device state d lba (some buffer) = elim (Bool-cases device.present) [
  | inr absent ↦ inr (rw absent (refl, refl, refl))
  | inl here ↦ elim (Bool-cases device.writable) [
    | inr locked ↦ inr (rw (here, locked) (refl, refl, refl))
    | inl unlocked ↦ elim (Option-cases device.write_sector) [
      | inl e ↦ inr (rw (here, unlocked, e) (refl, refl, refl))
      | inr (writer, e) ↦ elim (Bool-cases (leb device.sectors lba)) [
        | inl far ↦ inr (rw (here, unlocked, e, far) (refl, refl, refl))
        | inr near ↦ inl (
            writes writer buffer here unlocked e refl (ground arith)
              (rw (here, unlocked, e, near) refl))
      ]
    ]
  ]
]

-- The counters of an answer are those of the completed result.
read_io :
    {D : Type 0}
    → (device : BlockDevice D) (state : BlockIoState) (d : D) (lba : ℕ) (output : Option (List ℕ))
    → (block_device_read device state d lba output).io
      ≡ block_io_complete state (block_device_read device state d lba output).result
unfolding block_device_read
read_io device state d lba none = elim (Bool-cases device.present) [
  | inr absent ↦ rw absent refl
  | inl here ↦ rw here refl
]
read_io device state d lba (some buffer) = elim (Option-cases device.read_sector) [
  | inl e ↦ rw e (ground arith)
  | inr (reader, e) ↦ rw e (ground arith)
]

write_io :
    {D : Type 0}
    → (device : BlockDevice D) (state : BlockIoState) (d : D) (lba : ℕ) (input : Option (List ℕ))
    → (block_device_write device state d lba input).io
      ≡ block_io_complete state (block_device_write device state d lba input).result
unfolding block_device_write
write_io device state d lba none = elim (Bool-cases device.present) [
  | inr absent ↦ rw absent refl
  | inl here ↦ rw here refl
]
write_io device state d lba (some buffer) = elim (Option-cases device.write_sector) [
  | inl e ↦ rw e (ground arith)
  | inr (writer, e) ↦ rw e (ground arith)
]

pub data Request : Type 0 where
  read_request write_request : ℕ → Option (List ℕ) → Request

abbrev serve : {D : Type 0} → BlockDevice D → BlockIoState → D → Request → Answer D
serve device state d (read_request lba output) = block_device_read device state d lba output
serve device state d (write_request lba input) = block_device_write device state d lba input

-- The counters and the results, the last one first, after a list of requests.
pub serve_all :
    {D : Type 0}
    → BlockDevice D
    → BlockIoState
    → D
    → List BlockResult
    → List Request
    → BlockIoState × List BlockResult
serve_all device state d results [] = (state, results)
serve_all device state d results (r ∷ rs) =
    let answer = serve device state d r in
    serve_all device answer.io answer.driver (answer.result ∷ results) rs

abbrev failed_result : BlockResult → Bool
failed_result r = not (block_ok r)

abbrev latest : List BlockResult → BlockResult
latest [] = block_success BlockOperation.none 0 0
latest (r ∷ rs) = r

-- The latest result that is an error.
pub latest_failure : List BlockResult → BlockResult
latest_failure [] = block_success BlockOperation.none 0 0
latest_failure (r ∷ rs) = if block_ok r then latest_failure rs else r

-- What the counters say of the results so far.
pub record Records (state : BlockIoState) (results : List BlockResult) : Type 0 where
  pub every_request : state.requests ≡ u32 (length results)
  pub successes : state.completed ≡ u32 (count_if block_ok results)
  pub failures : state.failed ≡ u32 (count_if failed_result results)
  pub last : state.last_result ≡ latest results
  pub last_bad : state.last_failure ≡ latest_failure results

complete-Records :
    (state : BlockIoState) (results : List BlockResult) (r : BlockResult)
    → Records state results
    → Records (block_io_complete state r) (r ∷ results)
unfolding block_io_complete latest_failure
complete-Records state results r v = elim (Bool-cases (block_ok r)) [
  | inl good ↦ rw good (record {
    every_request = omega (arith, v.every_request);
    successes = rw good (omega (arith, v.successes));
    failures = rw good (omega (arith, v.failures));
    last = refl;
    last_bad = rw good v.last_bad;
  })
  | inr bad ↦ rw bad (record {
    every_request = omega (arith, v.every_request);
    successes = rw bad (omega (arith, v.successes));
    failures = rw bad (omega (arith, v.failures));
    last = refl;
    last_bad = rw bad refl;
  })
]

count_both :
    (results : List BlockResult)
    → count_if block_ok results + count_if failed_result results ≡ length results
count_both [] = refl
count_both (r ∷ rs) = ground (arith, count_both rs)

Records-counters :
    (state : BlockIoState) (results : List BlockResult)
    → Records state results
    → block_io_counters_valid state ≡ true
unfolding block_io_counters_valid
Records-counters state results v =
    let total = count_both results in
    let e : state.requests ≡ u32 (state.completed + state.failed) =
      omega (arith, total, v.every_request, v.successes, v.failures) in
    ground arith

serve-Records :
    {D : Type 0}
    → (device : BlockDevice D) (state : BlockIoState) (d : D) (results : List BlockResult)
      (r : Request)
    → Records state results
    → Records (serve device state d r).io ((serve device state d r).result ∷ results)
serve-Records device state d results (read_request lba output) v =
    rw (read_io device state d lba output) (complete-Records state results _ v)
serve-Records device state d results (write_request lba input) v =
    rw (write_io device state d lba input) (complete-Records state results _ v)

serve_all-Records :
    {D : Type 0}
    → (device : BlockDevice D) (state : BlockIoState) (d : D) (results : List BlockResult)
      (rs : List Request)
    → Records state results
    → Records (serve_all device state d results rs).0 (serve_all device state d results rs).1
unfolding serve_all
serve_all-Records device state d results [] v = v
serve_all-Records device state d results (r ∷ rs) v =
    serve_all-Records device (serve device state d r).io (serve device state d r).driver _ rs
      (serve-Records device state d results r v)

-- After any list of reads and writes of a device, whatever its driver does, the counters of requests,
-- of successes and of failures are those numbers modulo 2^32, the last result and the last failure on
-- record are the latest result and the latest failure that was returned, and the counters pass the
-- code's own check of them.
pub serve_all-initial :
    {D : Type 0}
    → (device : BlockDevice D) (d : D) (rs : List Request)
    → Records
        (serve_all device block_io_state_initial d [] rs).0
        (serve_all device block_io_state_initial d [] rs).1
      × (block_io_counters_valid (serve_all device block_io_state_initial d [] rs).0 ≡ true)
unfolding latest_failure
serve_all-initial device d rs =
    let all = serve_all-Records device block_io_state_initial d [] rs (record {
      every_request = refl;
      successes = refl;
      failures = refl;
      last = refl;
      last_bad = refl;
    }) in
    (all, Records-counters _ _ all)
