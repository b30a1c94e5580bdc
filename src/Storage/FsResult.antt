-- ===== src/Storage/FsResult.antt =====
-- kernel/parts/storage_fs_result.inc: what a file-system operation reports, also of the block access
-- under it.
use Prim.Native.String.{String}
use zenov_os.Prelude.{ℕ, Bool, true, false, not, ◌&&◌}
use zenov_os.Storage.BlockResult.{
  BlockResult, BlockStatus, BlockOperation, block_ok, block_success, block_retryable,
}

pub data FsOperation : Type 0 where
  none mount recover read write sync query create remove rename copy : FsOperation

pub data FsStatus : Type 0 where
  ok recovery_pending not_mounted invalid_argument invalid_path not_found wrong_type : FsStatus
  already_exists parent_missing directory_not_empty buffer_too_small no_space read_only : FsStatus
  checksum_mismatch permission_denied metadata_corrupt io_error : FsStatus

pub record FsResult : Type 0 where
  pub operation : FsOperation
  pub status : FsStatus
  pub bytes : ℕ
  pub block : BlockResult

abbrev pub status_durable : FsStatus → Bool
status_durable ok = true
status_durable _ = false

abbrev pub status_ok : FsStatus → Bool
status_ok ok = true
status_ok recovery_pending = true
status_ok _ = false

abbrev pub is_io_error : FsStatus → Bool
is_io_error io_error = true
is_io_error _ = false

-- The methods `ok`, `durable` and `has_block_error`.
abbrev pub fs_ok : FsResult → Bool
fs_ok result = status_ok result.status

abbrev pub durable : FsResult → Bool
durable result = status_durable result.status

abbrev pub has_block_error : FsResult → Bool
has_block_error result = not (block_ok result.block)

abbrev pub fs_result : FsOperation → FsStatus → ℕ → BlockResult → FsResult
fs_result operation status bytes block = record {
  operation = operation;
  status = status;
  bytes = bytes;
  block = block;
}

abbrev pub fs_success : FsOperation → ℕ → FsResult
fs_success operation bytes = fs_result operation ok bytes (block_success BlockOperation.none 0 0)

abbrev pub fs_recovery_pending : FsOperation → ℕ → BlockResult → FsResult
fs_recovery_pending operation bytes block = fs_result operation recovery_pending bytes block

abbrev pub fs_failure : FsOperation → FsStatus → ℕ → FsResult
fs_failure operation status bytes =
    fs_result operation status bytes (block_success BlockOperation.none 0 0)

unfoldable pub fs_status_from_block : BlockStatus → FsStatus
fs_status_from_block BlockStatus.ok = ok
fs_status_from_block BlockStatus.no_device = not_mounted
fs_status_from_block BlockStatus.invalid_argument = invalid_argument
fs_status_from_block BlockStatus.out_of_range = metadata_corrupt
fs_status_from_block BlockStatus.read_only = read_only
fs_status_from_block BlockStatus.timeout_busy = io_error
fs_status_from_block BlockStatus.timeout_drq = io_error
fs_status_from_block BlockStatus.device_fault = io_error
fs_status_from_block BlockStatus.command_aborted = io_error
fs_status_from_block BlockStatus.id_not_found = io_error
fs_status_from_block BlockStatus.uncorrectable = io_error
fs_status_from_block BlockStatus.interface_crc = io_error
fs_status_from_block BlockStatus.device_error = io_error
fs_status_from_block BlockStatus.reset_failed = io_error

unfoldable pub fs_from_block : FsOperation → BlockResult → ℕ → FsResult
unfolding fs_status_from_block
fs_from_block operation block bytes =
    fs_result operation (fs_status_from_block block.status) bytes block

unfoldable pub fs_retryable : FsResult → Bool
unfolding block_retryable
fs_retryable result = is_io_error result.status && block_retryable result.block.status

unfoldable pub fs_operation_name : FsOperation → String
fs_operation_name none = "none"
fs_operation_name mount = "mount"
fs_operation_name recover = "recover"
fs_operation_name read = "read"
fs_operation_name write = "write"
fs_operation_name sync = "sync"
fs_operation_name query = "query"
fs_operation_name create = "create"
fs_operation_name remove = "remove"
fs_operation_name rename = "rename"
fs_operation_name copy = "copy"

unfoldable pub fs_status_name : FsStatus → String
fs_status_name ok = "ok"
fs_status_name recovery_pending = "recovery-pending"
fs_status_name not_mounted = "not-mounted"
fs_status_name invalid_argument = "invalid-argument"
fs_status_name invalid_path = "invalid-path"
fs_status_name not_found = "not-found"
fs_status_name wrong_type = "wrong-type"
fs_status_name already_exists = "already-exists"
fs_status_name parent_missing = "parent-missing"
fs_status_name directory_not_empty = "directory-not-empty"
fs_status_name buffer_too_small = "buffer-too-small"
fs_status_name no_space = "no-space"
fs_status_name read_only = "read-only"
fs_status_name checksum_mismatch = "checksum-mismatch"
fs_status_name permission_denied = "permission-denied"
fs_status_name metadata_corrupt = "metadata-corrupt"
fs_status_name io_error = "io-error"
