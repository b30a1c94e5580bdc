-- ===== src/Storage/BlockResult.antt =====
-- kernel/parts/storage_block_result.inc: what an access to a block device reports.
use Prim.Native.String.{String}
use zenov_os.Prelude.{ℕ, Bool, true, false}

pub data BlockOperation : Type 0 where
  none identify read write flush reset : BlockOperation

pub data BlockStatus : Type 0 where
  ok no_device invalid_argument out_of_range read_only timeout_busy timeout_drq : BlockStatus
  device_fault command_aborted id_not_found uncorrectable interface_crc : BlockStatus
  device_error reset_failed : BlockStatus

pub record BlockResult : Type 0 where
  pub operation : BlockOperation
  pub status : BlockStatus
  pub lba : ℕ
  pub attempts : ℕ
  pub status_register : ℕ
  pub error_register : ℕ

abbrev pub status_ok : BlockStatus → Bool
status_ok ok = true
status_ok _ = false

-- The method `ok`.
abbrev pub block_ok : BlockResult → Bool
block_ok result = status_ok result.status

abbrev pub block_result : BlockOperation → BlockStatus → ℕ → ℕ → ℕ → ℕ → BlockResult
block_result operation status lba attempts status_register error_register = record {
  operation = operation;
  status = status;
  lba = lba;
  attempts = attempts;
  status_register = status_register;
  error_register = error_register;
}

-- `attempts` is 1 where a caller leaves it out.
abbrev pub block_success : BlockOperation → ℕ → ℕ → BlockResult
block_success operation lba attempts = block_result operation ok lba attempts 0 0

unfoldable pub block_retryable : BlockStatus → Bool
block_retryable timeout_busy = true
block_retryable timeout_drq = true
block_retryable device_fault = true
block_retryable command_aborted = true
block_retryable interface_crc = true
block_retryable _ = false

unfoldable pub block_operation_name : BlockOperation → String
block_operation_name none = "none"
block_operation_name identify = "identify"
block_operation_name read = "read"
block_operation_name write = "write"
block_operation_name flush = "flush"
block_operation_name reset = "reset"

unfoldable pub block_status_name : BlockStatus → String
block_status_name ok = "ok"
block_status_name no_device = "no-device"
block_status_name invalid_argument = "invalid-argument"
block_status_name out_of_range = "out-of-range"
block_status_name read_only = "read-only"
block_status_name timeout_busy = "timeout-busy"
block_status_name timeout_drq = "timeout-drq"
block_status_name device_fault = "device-fault"
block_status_name command_aborted = "command-aborted"
block_status_name id_not_found = "id-not-found"
block_status_name uncorrectable = "uncorrectable"
block_status_name interface_crc = "interface-crc"
block_status_name device_error = "device-error"
block_status_name reset_failed = "reset-failed"
