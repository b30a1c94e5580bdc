-- ===== src/Storage/AtaPolicy.antt =====
-- kernel/parts/storage_ata_policy.inc and storage_ata_recovery_policy.inc: deadlines on a 32-bit tick
-- counter, the reading of the status and error registers, and whether a device that was reset is the
-- same one.
use Prim.Native.String.{String}
use zenov_os.Prelude.{
  ℕ, ◌+◌, ◌*◌, ◌/◌, Bool, true, false, not, ◌&&◌, ◌||◌, u32, sub32, bit_and, ltb, ◌==◌, ◌/=◌,
  if◌then◌else◌,
}

abbrev pub status_busy : ℕ
status_busy = 0x80

abbrev pub status_device_ready : ℕ
status_device_ready = 0x40

abbrev pub status_device_fault : ℕ
status_device_fault = 0x20

abbrev pub status_drq : ℕ
status_drq = 0x08

abbrev pub status_error : ℕ
status_error = 0x01

abbrev pub error_interface_crc : ℕ
error_interface_crc = 0x80

abbrev pub error_uncorrectable : ℕ
error_uncorrectable = 0x40

abbrev pub error_id_not_found : ℕ
error_id_not_found = 0x10

abbrev pub error_command_aborted : ℕ
error_command_aborted = 0x04

pub data Error : Type 0 where
  none no_device invalid_argument out_of_range timeout_busy timeout_drq device_fault : Error
  command_aborted id_not_found uncorrectable interface_crc device_error reset_failed : Error

pub record Result : Type 0 where
  pub error : Error
  pub status : ℕ
  pub error_register : ℕ
  pub attempts : ℕ

abbrev pub is_none : Error → Bool
is_none none = true
is_none _ = false

-- The method `ok`.
abbrev pub result_ok : Result → Bool
result_ok result = is_none result.error

unfoldable pub ticks_from_ms : ℕ → ℕ → ℕ
ticks_from_ms milliseconds frequency_hz =
    if milliseconds == 0 || frequency_hz == 0
    then 0
    else let scaled = milliseconds * frequency_hz + 999 in
      let ticks = scaled / 1000 in if ltb 0xffff_ffff ticks then 0xffff_ffff else ticks

unfoldable pub deadline_after : ℕ → ℕ → ℕ → ℕ
unfolding ticks_from_ms
deadline_after now milliseconds frequency_hz = u32 (now + ticks_from_ms milliseconds frequency_hz)

-- The difference, read as an `int32_t`, is not negative.
unfoldable pub deadline_reached : ℕ → ℕ → Bool
deadline_reached now deadline = ltb (sub32 now deadline) 0x8000_0000

unfoldable pub classify_device_error : ℕ → ℕ → Error
classify_device_error status error_register =
    if status == 0 || status == 0xff
    then no_device
    else if bit_and status status_device_fault /= 0
    then device_fault
    else if bit_and status status_error == 0
    then none
    else if bit_and error_register error_interface_crc /= 0
    then interface_crc
    else if bit_and error_register error_uncorrectable /= 0
    then uncorrectable
    else if bit_and error_register error_id_not_found /= 0
    then id_not_found
    else if bit_and error_register error_command_aborted /= 0
    then command_aborted
    else device_error

unfoldable pub retryable : Error → Bool
retryable timeout_busy = true
retryable timeout_drq = true
retryable device_fault = true
retryable command_aborted = true
retryable interface_crc = true
retryable _ = false

unfoldable pub error_name : Error → String
error_name none = "none"
error_name no_device = "no-device"
error_name invalid_argument = "invalid-argument"
error_name out_of_range = "out-of-range"
error_name timeout_busy = "timeout-busy"
error_name timeout_drq = "timeout-drq"
error_name device_fault = "device-fault"
error_name command_aborted = "command-aborted"
error_name id_not_found = "id-not-found"
error_name uncorrectable = "uncorrectable"
error_name interface_crc = "interface-crc"
error_name device_error = "device-error"
error_name reset_failed = "reset-failed"

pub data AtaRevalidationDecision : Type 0 where
  accept identify_failed missing_capacity capacity_changed : AtaRevalidationDecision

unfoldable pub ata_revalidation_decision : Bool → ℕ → ℕ → AtaRevalidationDecision
ata_revalidation_decision identify_ok expected_sectors observed_sectors =
    if not identify_ok
    then identify_failed
    else if observed_sectors == 0
    then missing_capacity
    else if expected_sectors /= 0 && observed_sectors /= expected_sectors
    then capacity_changed
    else accept

unfoldable pub ata_revalidation_reason : AtaRevalidationDecision → String
ata_revalidation_reason accept = "accepted"
ata_revalidation_reason identify_failed = "identify"
ata_revalidation_reason missing_capacity = "missing-capacity"
ata_revalidation_reason capacity_changed = "capacity-changed"
