-- ===== src/Package/Sha256.antt =====
-- tools/zenpkg/sha256.hpp: the class Sha256, as functions on its fields.
pub mod Streaming
pub mod Padding
use zenov_os.Prelude.{
  ℕ, zero, suc, ◌+◌, ◌-◌, ◌*◌, ◌/◌, ◌%◌, ◌^◌, List, [], ◌∷◌, ◌++◌, Bool, true, false, not, ◌&&◌,
  ◌||◌, length, take, drop, get_or, set, replicate, bit_or, bit_and, bit_xor, u8, u32, u64, ltb,
  leb, ◌==◌, if◌then◌else◌,
}
use zenov_os.Prelude.Bytes.{Bytes, codes}
use zenov_os.Prelude.Result.{Result, ok, err, ◌>>=◌, ◌>>◌, require}
use zenov_os.Package.Common.{hex_encode}

-- The eight words of the state, also as the variables a to h of a round.
pub record Words : Type 0 where
  pub a : ℕ
  pub b : ℕ
  pub c : ℕ
  pub d : ℕ
  pub e : ℕ
  pub f : ℕ
  pub g : ℕ
  pub h : ℕ

abbrev pub k_ : List ℕ
k_ =
    0x428a2f98 ∷ 0x71374491 ∷ 0xb5c0fbcf ∷ 0xe9b5dba5 ∷ 0x3956c25b ∷ 0x59f111f1 ∷ 0x923f82a4
    ∷ 0xab1c5ed5 ∷ 0xd807aa98 ∷ 0x12835b01 ∷ 0x243185be ∷ 0x550c7dc3 ∷ 0x72be5d74 ∷ 0x80deb1fe
    ∷ 0x9bdc06a7 ∷ 0xc19bf174 ∷ 0xe49b69c1 ∷ 0xefbe4786 ∷ 0x0fc19dc6 ∷ 0x240ca1cc ∷ 0x2de92c6f
    ∷ 0x4a7484aa ∷ 0x5cb0a9dc ∷ 0x76f988da ∷ 0x983e5152 ∷ 0xa831c66d ∷ 0xb00327c8 ∷ 0xbf597fc7
    ∷ 0xc6e00bf3 ∷ 0xd5a79147 ∷ 0x06ca6351 ∷ 0x14292967 ∷ 0x27b70a85 ∷ 0x2e1b2138 ∷ 0x4d2c6dfc
    ∷ 0x53380d13 ∷ 0x650a7354 ∷ 0x766a0abb ∷ 0x81c2c92e ∷ 0x92722c85 ∷ 0xa2bfe8a1 ∷ 0xa81a664b
    ∷ 0xc24b8b70 ∷ 0xc76c51a3 ∷ 0xd192e819 ∷ 0xd6990624 ∷ 0xf40e3585 ∷ 0x106aa070 ∷ 0x19a4c116
    ∷ 0x1e376c08 ∷ 0x2748774c ∷ 0x34b0bcb5 ∷ 0x391c0cb3 ∷ 0x4ed8aa4a ∷ 0x5b9cca4f ∷ 0x682e6ff3
    ∷ 0x748f82ee ∷ 0x78a5636f ∷ 0x84c87814 ∷ 0x8cc70208 ∷ 0x90befffa ∷ 0xa4506ceb ∷ 0xbef9a3f7
    ∷ 0xc67178f2 ∷ []

unfoldable pub rotate_right : ℕ → ℕ → ℕ
rotate_right value count = bit_or (value / 2 ^ count) (u32 (value * 2 ^ (32 - count)))

-- `add_mod32` of five words at most.
unfoldable pub add_mod32 : List ℕ → ℕ
add_mod32 [] = 0
add_mod32 (value ∷ values) = u32 (value + add_mod32 values)

-- Four bytes of the block, the highest first.
unfoldable pub word_at : Bytes → ℕ → ℕ
word_at block i =
    bit_or
      (bit_or
        (bit_or (u32 (get_or block (i * 4) 0 * 16777216))
          (u32 (get_or block (i * 4 + 1) 0 * 65536)))
        (u32 (get_or block (i * 4 + 2) 0 * 256)))
      (get_or block (i * 4 + 3) 0)

unfoldable pub first_words : ℕ → ℕ → Bytes → List ℕ
unfolding word_at
first_words zero i block = []
first_words (suc rounds) i block = word_at block i ∷ first_words rounds (i + 1) block

unfoldable pub next_word : List ℕ → ℕ → ℕ
unfolding rotate_right add_mod32
next_word words i =
    let w15 = get_or words (i - 15) 0 in
    let w2 = get_or words (i - 2) 0 in
    let s0 = bit_xor (bit_xor (rotate_right w15 7) (rotate_right w15 18)) (w15 / 8) in
    let s1 = bit_xor (bit_xor (rotate_right w2 17) (rotate_right w2 19)) (w2 / 1024) in
    add_mod32 (get_or words (i - 16) 0 ∷ s0 ∷ get_or words (i - 7) 0 ∷ s1 ∷ [])

-- The words from index `i` on are added behind the others.
unfoldable pub extend_words : ℕ → ℕ → List ℕ → List ℕ
unfolding next_word
extend_words zero i words = words
extend_words (suc rounds) i words = extend_words rounds (i + 1) (words ++ (next_word words i ∷ []))

unfoldable pub round : ℕ → ℕ → Words → Words
unfolding rotate_right add_mod32
round k word v =
    let s1 = bit_xor (bit_xor (rotate_right v.e 6) (rotate_right v.e 11)) (rotate_right v.e 25) in
    let choose = bit_xor (bit_and v.e v.f) (bit_and (4294967295 - v.e) v.g) in
    let temp1 = add_mod32 (v.h ∷ s1 ∷ choose ∷ k ∷ word ∷ []) in
    let s0 = bit_xor (bit_xor (rotate_right v.a 2) (rotate_right v.a 13)) (rotate_right v.a 22) in
    let majority = bit_xor (bit_xor (bit_and v.a v.b) (bit_and v.a v.c)) (bit_and v.b v.c) in
    let temp2 = add_mod32 (s0 ∷ majority ∷ []) in
    record {
      a = add_mod32 (temp1 ∷ temp2 ∷ []);
      b = v.a;
      c = v.b;
      d = v.c;
      e = add_mod32 (v.d ∷ temp1 ∷ []);
      f = v.e;
      g = v.f;
      h = v.g;
    }

unfoldable pub run_rounds : List ℕ → List ℕ → Words → Words
unfolding round
run_rounds [] words v = v
run_rounds (k ∷ ks) [] v = v
run_rounds (k ∷ ks) (word ∷ words) v = run_rounds ks words (round k word v)

unfoldable pub add_words : Words → Words → Words
unfolding add_mod32
add_words s v = record {
  a = add_mod32 (s.a ∷ v.a ∷ []);
  b = add_mod32 (s.b ∷ v.b ∷ []);
  c = add_mod32 (s.c ∷ v.c ∷ []);
  d = add_mod32 (s.d ∷ v.d ∷ []);
  e = add_mod32 (s.e ∷ v.e ∷ []);
  f = add_mod32 (s.f ∷ v.f ∷ []);
  g = add_mod32 (s.g ∷ v.g ∷ []);
  h = add_mod32 (s.h ∷ v.h ∷ []);
}

unfoldable pub transform : Words → Bytes → Words
unfolding first_words extend_words run_rounds add_words
transform state block =
    add_words state (run_rounds k_ (extend_words 48 16 (first_words 16 0 block)) state)

abbrev pub initial_words : Words
initial_words = record {
  a = 0x6a09e667;
  b = 0xbb67ae85;
  c = 0x3c6ef372;
  d = 0xa54ff53a;
  e = 0x510e527f;
  f = 0x9b05688c;
  g = 0x1f83d9ab;
  h = 0x5be0cd19;
}

pub record Sha256 : Type 0 where
  pub state : Words
  pub block : Bytes
  pub digest : Bytes
  pub total_bytes : ℕ
  pub block_size : ℕ
  pub finalized : Bool

-- The constructor.
abbrev pub reset : Sha256
reset = record {
  state = initial_words;
  block = replicate 64 0;
  digest = replicate 32 0;
  total_bytes = 0;
  block_size = 0;
  finalized = false;
}

-- `memcpy` into the block from an offset on.
unfoldable pub copy_in : Bytes → ℕ → Bytes → Bytes
copy_in block at [] = block
copy_in block at (x ∷ xs) = copy_in (set block at x) (at + 1) xs

abbrev pub min_size : ℕ → ℕ → ℕ
min_size a b = if ltb b a then b else a

-- The block is transformed when it is full.
unfoldable pub transform_full : Sha256 → Sha256
transform_full context =
    if context.block_size == 64
    then record context { state = transform context.state context.block; block_size = 0 }
    else context

-- One round of the loop of `update`.
unfoldable pub copy_chunk : Sha256 → ℕ → Bytes → Sha256
unfolding copy_in transform_full
copy_chunk context chunk input = transform_full (record context {
  block = copy_in context.block context.block_size (take chunk input);
  block_size = context.block_size + chunk;
})

-- The loop takes at least a byte in each round, so the length of the input is fuel enough.
unfoldable pub absorb : ℕ → Sha256 → Bytes → Sha256
unfolding copy_chunk
absorb zero context input = context
absorb (suc fuel) context input =
    let chunk = min_size (64 - context.block_size) (length input) in
    let rest = absorb fuel (copy_chunk context chunk input) (drop chunk input) in
    if length input == 0 then context else rest

-- A null pointer with a length, or bytes.
pub data Buffer : Type 0 where
  null : ℕ → Buffer
  bytes : Bytes → Buffer

abbrev pub buffer_length : Buffer → ℕ
buffer_length (null n) = n
buffer_length (bytes input) = length input

abbrev pub buffer_bytes : Buffer → Bytes
buffer_bytes (null n) = []
buffer_bytes (bytes input) = input

abbrev pub buffer_valid : Buffer → Bool
buffer_valid (null n) = n == 0
buffer_valid (bytes input) = true

unfoldable pub update : Sha256 → Buffer → Result Sha256
unfolding absorb
update context buffer = do
  require (not context.finalized) "SHA-256 context already finalized"
  require (buffer_valid buffer) "SHA-256 received a null buffer"
  require (leb (buffer_length buffer) (18446744073709551615 - context.total_bytes))
      "SHA-256 input length overflow"
  ok (
      absorb (buffer_length buffer)
        (record context { total_bytes = context.total_bytes + buffer_length buffer })
        (buffer_bytes buffer))

-- A byte is written and the size counted on.
abbrev pub put_byte : Sha256 → ℕ → Sha256
put_byte context value = record context {
  block = set context.block context.block_size value;
  block_size = context.block_size + 1;
}

unfoldable pub put_zeros : ℕ → Sha256 → Sha256
put_zeros zero context = context
put_zeros (suc n) context = put_zeros n (put_byte context 0)

-- The bytes of the length, from the shift `(n - 1) * 8` down to 0.
unfoldable pub put_length : ℕ → ℕ → Sha256 → Sha256
put_length zero bits context = context
put_length (suc n) bits context = put_length n bits (put_byte context (u8 (bits / 256 ^ n)))

abbrev pub transform_block : Sha256 → Sha256
transform_block context = record context {
  state = transform context.state context.block;
  block_size = 0;
}

abbrev pub word_bytes : ℕ → Bytes
word_bytes word = u8 (word / 16777216) ∷ u8 (word / 65536) ∷ u8 (word / 256) ∷ u8 word ∷ []

abbrev pub words_bytes : Words → Bytes
words_bytes s =
    word_bytes s.a
    ++ word_bytes s.b
    ++ word_bytes s.c
    ++ word_bytes s.d
    ++ word_bytes s.e
    ++ word_bytes s.f
    ++ word_bytes s.g
    ++ word_bytes s.h

-- The padding of `final`, to the last transformation.
unfoldable pub pad : Sha256 → ℕ → Sha256
pad context total_bits =
    let marked = put_byte context 0x80 in
    let room =
      if ltb 56 marked.block_size
      then transform_block (put_zeros (64 - marked.block_size) marked)
      else marked in
    let zeros = put_zeros (56 - room.block_size) room in
    transform_block (put_length 8 total_bits zeros)

-- The digest and the context afterwards.
unfoldable pub final : Sha256 → Result (Bytes × Sha256)
unfolding pad
final context = if context.finalized then ok (context.digest, context) else do
  require (leb context.total_bytes 2305843009213693951)
      "SHA-256 input is too large to encode its bit length"
  let padded = pad context (context.total_bytes * 8)
  let digest = words_bytes padded.state
  ok (digest, record padded { digest = digest; finalized = true })

unfoldable pub hash : Bytes → Result Bytes
unfolding update final
hash input = do context ← update reset (bytes input); (digest, after) ← final context; ok digest

unfoldable pub sha256_hex : Bytes → Result Bytes
unfolding hash hex_encode
sha256_hex input = do digest ← hash input; ok (hex_encode digest)
