-- ===== src/Storage/Device.antt =====
-- kernel/parts/storage_block_device.inc: the checks before a driver is called, and the counters of
-- what came of the requests. A driver acts on a state `D` of its own, a buffer is a list of bytes, and
-- a null pointer is `none`.
use Prim.Native.String.{String}
use zenov_os.Prelude.{
  ℕ, ◌+◌, Bool, true, false, not, ◌&&◌, ◌||◌, Option, none, some, List, u32, leb, ◌==◌,
  if◌then◌else◌,
}
use zenov_os.Storage.BlockResult.{
  BlockResult, BlockOperation, BlockStatus, block_result, block_success, block_ok,
}

-- The driver's result, the buffer and the driver's state afterwards.
abbrev pub Reader : Type 0 → Type 0
Reader D = D → ℕ → List ℕ → BlockResult × List ℕ × D

abbrev pub Writer : Type 0 → Type 0
Writer D = D → ℕ → List ℕ → BlockResult × D

pub record BlockDevice (D : Type 0) : Type 0 where
  pub name : Option String
  pub present : Bool
  pub writable : Bool
  pub sectors : ℕ
  pub read_sector : Option (Reader D)
  pub write_sector : Option (Writer D)

pub record BlockIoState : Type 0 where
  pub requests : ℕ
  pub completed : ℕ
  pub failed : ℕ
  pub last_result : BlockResult
  pub last_failure : BlockResult

abbrev pub block_io_state_initial : BlockIoState
block_io_state_initial = record {
  requests = 0;
  completed = 0;
  failed = 0;
  last_result = block_success BlockOperation.none 0 0;
  last_failure = block_success BlockOperation.none 0 0;
}

abbrev pub is_some {ℓ} : {A : Type ℓ} → Option A → Bool
is_some none = false
is_some (some a) = true

unfoldable pub block_device_contract_valid : {D : Type 0} → BlockDevice D → Bool
block_device_contract_valid device =
    if not (is_some device.name) || not (is_some device.read_sector)
    then false
    else if device.writable && not (is_some device.write_sector)
    then false
    else if device.present && device.sectors == 0
    then false
    else true

unfoldable pub block_io_complete : BlockIoState → BlockResult → BlockIoState
block_io_complete state result =
    if block_ok result
    then record state {
      requests = u32 (state.requests + 1);
      last_result = result;
      completed = u32 (state.completed + 1);
    }
    else record state {
      requests = u32 (state.requests + 1);
      last_result = result;
      failed = u32 (state.failed + 1);
      last_failure = result;
    }

-- What a request returns and leaves behind: the result, the counters, the buffer and the driver.
pub record Answer (D : Type 0) : Type 0 where
  pub result : BlockResult
  pub io : BlockIoState
  pub buffer : Option (List ℕ)
  pub driver : D

-- A request that ends in a check, without a call of the driver.
abbrev pub refuse :
    {D : Type 0} → BlockIoState → D → Option (List ℕ) → BlockOperation → BlockStatus → ℕ → Answer D
refuse state d buffer operation status lba = record {
  result = block_result operation status lba 0 0 0;
  io = block_io_complete state (block_result operation status lba 0 0 0);
  buffer = buffer;
  driver = d;
}

abbrev pub answer_read : {D : Type 0} → BlockIoState → BlockResult × List ℕ × D → Answer D
answer_read state (result, buffer, d) = record {
  result = result;
  io = block_io_complete state result;
  buffer = some buffer;
  driver = d;
}

abbrev pub answer_write : {D : Type 0} → BlockIoState → List ℕ → BlockResult × D → Answer D
answer_write state input (result, d) = record {
  result = result;
  io = block_io_complete state result;
  buffer = some input;
  driver = d;
}

abbrev pub read_through :
    {D : Type 0} → BlockDevice D → BlockIoState → D → ℕ → List ℕ → Option (Reader D) → Answer D
read_through device state d lba output none =
    refuse state d (some output) BlockOperation.read BlockStatus.no_device lba
read_through device state d lba output (some reader) =
    if leb device.sectors lba
    then refuse state d (some output) BlockOperation.read BlockStatus.out_of_range lba
    else answer_read state (reader d lba output)

abbrev pub read_into :
    {D : Type 0} → BlockDevice D → BlockIoState → D → ℕ → Option (List ℕ) → Answer D
read_into device state d lba none =
    refuse state d none BlockOperation.read BlockStatus.invalid_argument lba
read_into device state d lba (some output) =
    read_through device state d lba output device.read_sector

unfoldable pub block_device_read :
    {D : Type 0} → BlockDevice D → BlockIoState → D → ℕ → Option (List ℕ) → Answer D
block_device_read device state d lba output =
    if not device.present
    then refuse state d output BlockOperation.read BlockStatus.no_device lba
    else read_into device state d lba output

abbrev pub write_through :
    {D : Type 0} → BlockDevice D → BlockIoState → D → ℕ → List ℕ → Option (Writer D) → Answer D
write_through device state d lba input none =
    refuse state d (some input) BlockOperation.write BlockStatus.no_device lba
write_through device state d lba input (some writer) =
    if leb device.sectors lba
    then refuse state d (some input) BlockOperation.write BlockStatus.out_of_range lba
    else answer_write state input (writer d lba input)

abbrev pub write_from :
    {D : Type 0} → BlockDevice D → BlockIoState → D → ℕ → Option (List ℕ) → Answer D
write_from device state d lba none =
    refuse state d none BlockOperation.write BlockStatus.invalid_argument lba
write_from device state d lba (some input) =
    if not device.writable
    then refuse state d (some input) BlockOperation.write BlockStatus.read_only lba
    else write_through device state d lba input device.write_sector

unfoldable pub block_device_write :
    {D : Type 0} → BlockDevice D → BlockIoState → D → ℕ → Option (List ℕ) → Answer D
block_device_write device state d lba input =
    if not device.present
    then refuse state d input BlockOperation.write BlockStatus.no_device lba
    else write_from device state d lba input

unfoldable pub block_io_counters_valid : BlockIoState → Bool
block_io_counters_valid state = state.requests == u32 (state.completed + state.failed)
