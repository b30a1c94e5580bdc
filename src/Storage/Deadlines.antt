-- ===== src/Storage/Deadlines.antt =====
-- The tick counter's wrap-around in kernel/parts/storage_ata_policy.inc, and its reading of a status.
use zenov_os.Prelude.{
  ℕ, ◌+◌, ◌-◌, ◌*◌, ◌<◌, ◌≤◌, ◌≡◌, ◌≢◌, refl, arith, Bool, true, false, ◌⊎◌, inl, inr, Bool-cases,
  ◌↔◌, u32, sub32, leb,
}
use zenov_os.Storage.AtaPolicy.{
  ticks_from_ms, deadline_after, deadline_reached, ata_revalidation_decision, accept,
}

-- A delay in ticks is the smallest one that lasts at least as long as asked for, unless it is cut to
-- the largest word.
pub ticks_from_ms_bounds :
    (milliseconds frequency_hz : ℕ)
    → (ticks_from_ms milliseconds frequency_hz ≤ 0xffff_ffff)
      × (1000 * ticks_from_ms milliseconds frequency_hz < milliseconds * frequency_hz + 1000)
      × ((ticks_from_ms milliseconds frequency_hz ≡ 0xffff_ffff)
          ⊎ (milliseconds * frequency_hz ≤ 1000 * ticks_from_ms milliseconds frequency_hz))
unfolding ticks_from_ms
ticks_from_ms_bounds milliseconds frequency_hz = ground arith

-- The difference of two readings of the counter.
sub32_later :
    (now a b : ℕ) → a ≤ b → b < a + 0x8000_0000 → sub32 (u32 (now + b)) (u32 (now + a)) ≡ b - a
sub32_later now a b h late = omega arith

sub32_earlier :
    (now a b : ℕ)
    → b < a
    → a ≤ 0x8000_0000
    → sub32 (u32 (now + b)) (u32 (now + a)) ≡ 0x1_0000_0000 - (a - b)
sub32_earlier now a b h late = omega arith

-- The deadline set at a moment is reached exactly after that many ticks, also where the 32-bit counter
-- wraps around between, as long as the delay is at most 2^31 ticks and the deadline is not missed
-- by 2^31 ticks or more.
pub deadline_reached-deadline_after :
    (now milliseconds frequency_hz elapsed : ℕ)
    → ticks_from_ms milliseconds frequency_hz ≤ 0x8000_0000
    → elapsed < ticks_from_ms milliseconds frequency_hz + 0x8000_0000
    → deadline_reached (u32 (now + elapsed)) (deadline_after now milliseconds frequency_hz)
      ≡ leb (ticks_from_ms milliseconds frequency_hz) elapsed
unfolding deadline_reached deadline_after
deadline_reached-deadline_after now milliseconds frequency_hz elapsed h late =
    elim (Bool-cases (leb (ticks_from_ms milliseconds frequency_hz) elapsed)) [
      | inl past ↦
          rw
            (
              past,
              sub32_later now (ticks_from_ms milliseconds frequency_hz) elapsed (ground arith) late,
            )
            (ground arith)
      | inr future ↦
          rw
            (
              future,
              sub32_earlier now (ticks_from_ms milliseconds frequency_hz) elapsed (ground arith) h,
            )
            (ground arith)
    ]

-- A device that was reset is accepted exactly where it identifies itself with a capacity, and with the
-- one expected if one is.
pub ata_revalidation_decision-accept_iff :
    (identify_ok : Bool) (expected observed : ℕ)
    → (ata_revalidation_decision identify_ok expected observed ≡ accept)
      ↔ ((identify_ok ≡ true) × (observed ≢ 0) × ((expected ≡ 0) ⊎ (expected ≡ observed)))
unfolding ata_revalidation_decision
ata_revalidation_decision-accept_iff false expected observed =
    (λ e. absurd (ground arith), λ h. absurd (ground arith))
ata_revalidation_decision-accept_iff true expected observed =
    (λ e. (refl, ground arith, ground arith), λ h. ground arith)
