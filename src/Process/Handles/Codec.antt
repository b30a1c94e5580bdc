-- ===== src/Process/Handles/Codec.antt =====
-- The handle word of kernel/parts/process_handles.inc: packing and unpacking.
use zenov_os.Prelude.{ℕ, ◌+◌, ◌*◌, ◌<◌, ◌≡◌, ◌≢◌, some, arith}
use zenov_os.Prelude.Bits.{bit_and-byte, bit_or-byte}
use zenov_os.Process.Handles.{encode, decode, next_generation}

pub encode_lem :
    (index generation : ℕ)
    → index < 8
    → 0 < generation
    → generation < 65536
    → encode index generation ≡ generation * 256 + (index + 1)
unfolding encode
encode_lem index generation hi hg hg' =
    ground (arith, bit_or-byte (generation * 256) (index + 1) (omega arith) (omega arith))

-- A handle that `encode` makes from an index of the table and a generation that is not 0 is
-- decoded to that index and that generation.
pub decode-encode :
    (index generation : ℕ)
    → index < 8
    → 0 < generation
    → generation < 65536
    → decode (encode index generation) ≡ some (index, generation)
unfolding decode
decode-encode index generation hi hg hg' =
    ground
      (arith, encode_lem index generation hi hg hg', bit_and-byte (generation * 256 + (index + 1)))

-- What decodes has an index of the table and a generation that is not 0.
pub decode_bounds :
    (handle index generation : ℕ)
    → decode handle ≡ some (index, generation)
    → (index < 8) × (0 < generation) × (generation < 65536)
unfolding decode
decode_bounds handle index generation h = ground (arith, bit_and-byte handle)

pub encode-ne_zero :
    (index generation : ℕ)
    → index < 8
    → 0 < generation
    → generation < 65536
    → encode index generation ≢ 0
encode-ne_zero index generation hi hg hg' = omega (arith, encode_lem index generation hi hg hg')

pub next_generation_bounds :
    (current : ℕ) → (0 < next_generation current) × (next_generation current < 65536)
unfolding next_generation
next_generation_bounds current = ground arith

-- A new generation differs from the last one, also where it wraps past 0.
pub next_generation-ne : (current : ℕ) → current < 65536 → next_generation current ≢ current
unfolding next_generation
next_generation-ne current h = ground arith
