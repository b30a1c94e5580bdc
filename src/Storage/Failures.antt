-- ===== src/Storage/Failures.antt =====
-- How kernel/parts/storage_block_device.inc, storage_ata_policy.inc, storage_block_result.inc,
-- storage_fs_result.inc and the translation between them in storage_ata_deadline_core.inc handle
-- failures.
use zenov_os.Prelude.{ℕ, ◌≡◌, refl, ◌∙◌}
use zenov_os.Storage.BlockResult.{
  BlockResult, BlockOperation, BlockStatus, block_result, block_ok, block_retryable, status_ok,
}
use zenov_os.Storage.FsResult.{
  FsOperation, fs_from_block, fs_retryable, fs_status_from_block, fs_ok, durable,
}
use zenov_os.Storage.AtaPolicy.{Error, Result, retryable, result_ok, is_none}

unfoldable pub ata2_block_status : Error → BlockStatus
ata2_block_status Error.none = BlockStatus.ok
ata2_block_status Error.no_device = BlockStatus.no_device
ata2_block_status Error.invalid_argument = BlockStatus.invalid_argument
ata2_block_status Error.out_of_range = BlockStatus.out_of_range
ata2_block_status Error.timeout_busy = BlockStatus.timeout_busy
ata2_block_status Error.timeout_drq = BlockStatus.timeout_drq
ata2_block_status Error.device_fault = BlockStatus.device_fault
ata2_block_status Error.command_aborted = BlockStatus.command_aborted
ata2_block_status Error.id_not_found = BlockStatus.id_not_found
ata2_block_status Error.uncorrectable = BlockStatus.uncorrectable
ata2_block_status Error.interface_crc = BlockStatus.interface_crc
ata2_block_status Error.device_error = BlockStatus.device_error
ata2_block_status Error.reset_failed = BlockStatus.reset_failed

unfoldable pub ata2_block_result : BlockOperation → ℕ → Result → BlockResult
unfolding ata2_block_status
ata2_block_result operation lba result =
    block_result operation (ata2_block_status result.error) lba result.attempts result.status
      result.error_register

block_retryable_lem : (e : Error) → block_retryable (ata2_block_status e) ≡ retryable e
unfolding block_retryable ata2_block_status retryable
block_retryable_lem Error.none = refl
block_retryable_lem Error.no_device = refl
block_retryable_lem Error.invalid_argument = refl
block_retryable_lem Error.out_of_range = refl
block_retryable_lem Error.timeout_busy = refl
block_retryable_lem Error.timeout_drq = refl
block_retryable_lem Error.device_fault = refl
block_retryable_lem Error.command_aborted = refl
block_retryable_lem Error.id_not_found = refl
block_retryable_lem Error.uncorrectable = refl
block_retryable_lem Error.interface_crc = refl
block_retryable_lem Error.device_error = refl
block_retryable_lem Error.reset_failed = refl

block_ok_lem : (e : Error) → status_ok (ata2_block_status e) ≡ is_none e
unfolding ata2_block_status
block_ok_lem Error.none = refl
block_ok_lem Error.no_device = refl
block_ok_lem Error.invalid_argument = refl
block_ok_lem Error.out_of_range = refl
block_ok_lem Error.timeout_busy = refl
block_ok_lem Error.timeout_drq = refl
block_ok_lem Error.device_fault = refl
block_ok_lem Error.command_aborted = refl
block_ok_lem Error.id_not_found = refl
block_ok_lem Error.uncorrectable = refl
block_ok_lem Error.interface_crc = refl
block_ok_lem Error.device_error = refl
block_ok_lem Error.reset_failed = refl

fs_retryable_status :
    (s : BlockStatus) (op : FsOperation) (b : BlockResult) (n : ℕ)
    → b.status ≡ s
    → (fs_retryable (fs_from_block op b n) ≡ block_retryable s)
      × (fs_ok (fs_from_block op b n) ≡ block_ok b)
      × (durable (fs_from_block op b n) ≡ block_ok b)
unfolding fs_retryable fs_from_block fs_status_from_block block_retryable
fs_retryable_status BlockStatus.ok op b n e = rw e (refl, refl, refl)
fs_retryable_status BlockStatus.no_device op b n e = rw e (refl, refl, refl)
fs_retryable_status BlockStatus.invalid_argument op b n e = rw e (refl, refl, refl)
fs_retryable_status BlockStatus.out_of_range op b n e = rw e (refl, refl, refl)
fs_retryable_status BlockStatus.read_only op b n e = rw e (refl, refl, refl)
fs_retryable_status BlockStatus.timeout_busy op b n e = rw e (refl, refl, refl)
fs_retryable_status BlockStatus.timeout_drq op b n e = rw e (refl, refl, refl)
fs_retryable_status BlockStatus.device_fault op b n e = rw e (refl, refl, refl)
fs_retryable_status BlockStatus.command_aborted op b n e = rw e (refl, refl, refl)
fs_retryable_status BlockStatus.id_not_found op b n e = rw e (refl, refl, refl)
fs_retryable_status BlockStatus.uncorrectable op b n e = rw e (refl, refl, refl)
fs_retryable_status BlockStatus.interface_crc op b n e = rw e (refl, refl, refl)
fs_retryable_status BlockStatus.device_error op b n e = rw e (refl, refl, refl)
fs_retryable_status BlockStatus.reset_failed op b n e = rw e (refl, refl, refl)

-- A driver's result keeps its meaning on the way up: the file-system result of any ATA result may be
-- retried exactly where the ATA error may be retried, and it is a success and durable exactly where
-- there was no ATA error.
pub fs_retryable-fs_from_block :
    (op : FsOperation) (bop : BlockOperation) (lba n : ℕ) (r : Result)
    → (fs_retryable (fs_from_block op (ata2_block_result bop lba r) n) ≡ retryable r.error)
      × (fs_ok (fs_from_block op (ata2_block_result bop lba r) n) ≡ result_ok r)
      × (durable (fs_from_block op (ata2_block_result bop lba r) n) ≡ result_ok r)
unfolding ata2_block_result
fs_retryable-fs_from_block op bop lba n r =
    let (a, b, c) =
      fs_retryable_status (ata2_block_status r.error) op (ata2_block_result bop lba r) n refl in
    let d : block_ok (ata2_block_result bop lba r) ≡ result_ok r = block_ok_lem r.error in
    (a ∙ block_retryable_lem r.error, b ∙ d, c ∙ d)
