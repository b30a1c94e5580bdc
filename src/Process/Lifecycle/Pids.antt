-- ===== src/Process/Lifecycle/Pids.antt =====
-- The pid word of kernel/parts/process_lifecycle.inc: packing and unpacking.
use zenov_os.Prelude.{ℕ, ◌+◌, ◌-◌, ◌*◌, ◌<◌, ◌≡◌, some, arith}
use zenov_os.Prelude.Bits.{bit_and-byte, bit_or-byte}
use zenov_os.Process.Lifecycle.{encode_pid, decode_pid, next_generation}

pub encode_pid_lem :
    (slot generation : ℕ)
    → slot < 16
    → 0 < generation
    → generation < 65536
    → encode_pid slot generation ≡ (generation - 1) * 256 + (slot + 1)
unfolding encode_pid
encode_pid_lem slot generation hs hg hg' =
    ground (arith, bit_or-byte ((generation - 1) * 256) (slot + 1) (omega arith) (omega arith))

-- A pid that is made from a slot of the table and a generation that is not 0 is decoded to that
-- slot and that generation.
pub decode_pid-encode_pid :
    (slot generation : ℕ)
    → slot < 16
    → 0 < generation
    → generation < 65536
    → decode_pid (encode_pid slot generation) ≡ some (slot, generation)
unfolding decode_pid
decode_pid-encode_pid slot generation hs hg hg' = ground (
  arith,
  encode_pid_lem slot generation hs hg hg',
  bit_and-byte ((generation - 1) * 256 + (slot + 1)),
)

-- Every 32-bit word that decodes is the pid of the slot and the generation that it decodes to.
pub encode_pid-decode_pid :
    (pid slot generation : ℕ)
    → decode_pid pid ≡ some (slot, generation)
    → (slot < 16) × (0 < generation) × (generation < 65536) × (encode_pid slot generation ≡ pid)
unfolding decode_pid
encode_pid-decode_pid pid slot generation h =
    ground (arith, bit_and-byte pid, encode_pid_lem slot generation)

pub next_generation_bounds :
    (current : ℕ) → (0 < next_generation current) × (next_generation current < 65536)
unfolding next_generation
next_generation_bounds current = ground arith
