-- ===== src/Audit/Digest.antt =====
-- The digest in tools/zenov_audit_format.hpp. The eight words are those of Package/Sha256, and the
-- table of constants is the same.
pub mod Equivalence
pub mod Hashes
use zenov_os.Prelude.{
  ℕ, zero, suc, ◌+◌, ◌-◌, ◌*◌, ◌/◌, ◌%◌, ◌^◌, List, [], ◌∷◌, ◌++◌, Bool, true, false, take, length,
  get_or, set, replicate, bit_or, bit_and, bit_xor, u8, u32, u64, ltb, ◌==◌, if◌then◌else◌,
}
use zenov_os.Prelude.Bytes.{Bytes}
use zenov_os.Package.Sha256.{Words}

pub record Sha256 : Type 0 where
  pub state : Words
  pub total : ℕ
  pub block : Bytes
  pub used : ℕ

abbrev pub sha256_constants : List ℕ
sha256_constants =
    0x428a2f98 ∷ 0x71374491 ∷ 0xb5c0fbcf ∷ 0xe9b5dba5 ∷ 0x3956c25b ∷ 0x59f111f1 ∷ 0x923f82a4
    ∷ 0xab1c5ed5 ∷ 0xd807aa98 ∷ 0x12835b01 ∷ 0x243185be ∷ 0x550c7dc3 ∷ 0x72be5d74 ∷ 0x80deb1fe
    ∷ 0x9bdc06a7 ∷ 0xc19bf174 ∷ 0xe49b69c1 ∷ 0xefbe4786 ∷ 0x0fc19dc6 ∷ 0x240ca1cc ∷ 0x2de92c6f
    ∷ 0x4a7484aa ∷ 0x5cb0a9dc ∷ 0x76f988da ∷ 0x983e5152 ∷ 0xa831c66d ∷ 0xb00327c8 ∷ 0xbf597fc7
    ∷ 0xc6e00bf3 ∷ 0xd5a79147 ∷ 0x06ca6351 ∷ 0x14292967 ∷ 0x27b70a85 ∷ 0x2e1b2138 ∷ 0x4d2c6dfc
    ∷ 0x53380d13 ∷ 0x650a7354 ∷ 0x766a0abb ∷ 0x81c2c92e ∷ 0x92722c85 ∷ 0xa2bfe8a1 ∷ 0xa81a664b
    ∷ 0xc24b8b70 ∷ 0xc76c51a3 ∷ 0xd192e819 ∷ 0xd6990624 ∷ 0xf40e3585 ∷ 0x106aa070 ∷ 0x19a4c116
    ∷ 0x1e376c08 ∷ 0x2748774c ∷ 0x34b0bcb5 ∷ 0x391c0cb3 ∷ 0x4ed8aa4a ∷ 0x5b9cca4f ∷ 0x682e6ff3
    ∷ 0x748f82ee ∷ 0x78a5636f ∷ 0x84c87814 ∷ 0x8cc70208 ∷ 0x90befffa ∷ 0xa4506ceb ∷ 0xbef9a3f7
    ∷ 0xc67178f2 ∷ []

unfoldable pub rotate_right : ℕ → ℕ → ℕ
rotate_right value count = bit_or (value / 2 ^ count) (u32 (value * 2 ^ (32 - count)))

-- The sum of two words, which wraps around.
abbrev pub add32 : ℕ → ℕ → ℕ
add32 a b = u32 (a + b)

-- Four bytes from an index on.
unfoldable pub load_be32 : Bytes → ℕ → ℕ
load_be32 block at =
    bit_or
      (bit_or (bit_or (u32 (get_or block at 0 * 16777216)) (u32 (get_or block (at + 1) 0 * 65536)))
        (u32 (get_or block (at + 2) 0 * 256)))
      (get_or block (at + 3) 0)

unfoldable pub load_words : ℕ → ℕ → Bytes → List ℕ
load_words zero i block = []
load_words (suc rounds) i block = load_be32 block (i * 4) ∷ load_words rounds (i + 1) block

unfoldable pub word_sum : List ℕ → ℕ → ℕ
word_sum words i =
    let w15 = get_or words (i - 15) 0 in
    let w2 = get_or words (i - 2) 0 in
    let s0 = bit_xor (bit_xor (rotate_right w15 7) (rotate_right w15 18)) (w15 / 8) in
    let s1 = bit_xor (bit_xor (rotate_right w2 17) (rotate_right w2 19)) (w2 / 1024) in
    add32 (add32 (add32 (get_or words (i - 16) 0) s0) (get_or words (i - 7) 0)) s1

-- The words from index `i` on.
unfoldable pub more_words : ℕ → ℕ → List ℕ → List ℕ
more_words zero i words = words
more_words (suc rounds) i words = more_words rounds (i + 1) (words ++ (word_sum words i ∷ []))

unfoldable pub mix : ℕ → ℕ → Words → Words
mix k word v =
    let s1 = bit_xor (bit_xor (rotate_right v.e 6) (rotate_right v.e 11)) (rotate_right v.e 25) in
    let choice = bit_xor (bit_and v.e v.f) (bit_and (4294967295 - v.e) v.g) in
    let temp1 = add32 (add32 (add32 (add32 v.h s1) choice) k) word in
    let s0 = bit_xor (bit_xor (rotate_right v.a 2) (rotate_right v.a 13)) (rotate_right v.a 22) in
    let majority = bit_xor (bit_xor (bit_and v.a v.b) (bit_and v.a v.c)) (bit_and v.b v.c) in
    let temp2 = add32 s0 majority in
    record {
      a = add32 temp1 temp2;
      b = v.a;
      c = v.b;
      d = v.c;
      e = add32 v.d temp1;
      f = v.e;
      g = v.f;
      h = v.g;
    }

unfoldable pub mix_all : List ℕ → List ℕ → Words → Words
mix_all [] words v = v
mix_all (k ∷ ks) [] v = v
mix_all (k ∷ ks) (word ∷ words) v = mix_all ks words (mix k word v)

unfoldable pub add_state : Words → Words → Words
add_state s v = record {
  a = add32 s.a v.a;
  b = add32 s.b v.b;
  c = add32 s.c v.c;
  d = add32 s.d v.d;
  e = add32 s.e v.e;
  f = add32 s.f v.f;
  g = add32 s.g v.g;
  h = add32 s.h v.h;
}

unfoldable pub transform : Words → Bytes → Words
transform state block =
    add_state state (mix_all sha256_constants (more_words 48 16 (load_words 16 0 block)) state)

-- `Sha256 context{}` and `sha_init`.
unfoldable pub sha_init : Sha256
sha_init = record {
  state = record {
    a = 0x6a09e667;
    b = 0xbb67ae85;
    c = 0x3c6ef372;
    d = 0xa54ff53a;
    e = 0x510e527f;
    f = 0x9b05688c;
    g = 0x1f83d9ab;
    h = 0x5be0cd19;
  };
  total = 0;
  block = replicate 64 0;
  used = 0;
}

unfoldable pub transform_full : Sha256 → Sha256
transform_full context =
    if context.used == 64
    then record context { state = transform context.state context.block; used = 0 }
    else context

-- A byte is written, and the number of those that are used is counted on.
abbrev pub put_byte : Sha256 → ℕ → Sha256
put_byte context value = record context {
  block = set context.block context.used value;
  used = context.used + 1;
}

unfoldable pub add_bytes : Sha256 → Bytes → Sha256
add_bytes context [] = context
add_bytes context (x ∷ xs) = add_bytes (transform_full (put_byte context x)) xs

unfoldable pub sha_update : Sha256 → Bytes → Sha256
sha_update context input =
    add_bytes (record context { total = u64 (context.total + length input) }) input

unfoldable pub put_zeros : ℕ → Sha256 → Sha256
put_zeros zero context = context
put_zeros (suc n) context = put_zeros n (put_byte context 0)

-- The first rounds of the loop that writes the length from the end of the block.
unfoldable pub write_length : ℕ → ℕ → Bytes → Bytes
write_length zero bits block = block
write_length (suc i) bits block = set (write_length i bits block) (63 - i) (u8 (bits / 256 ^ i))

unfoldable pub store_be32 : ℕ → Bytes
store_be32 value = u8 (value / 16777216) ∷ u8 (value / 65536) ∷ u8 (value / 256) ∷ u8 value ∷ []

unfoldable pub store_state : Words → Bytes
store_state s =
    store_be32 s.a
    ++ store_be32 s.b
    ++ store_be32 s.c
    ++ store_be32 s.d
    ++ store_be32 s.e
    ++ store_be32 s.f
    ++ store_be32 s.g
    ++ store_be32 s.h

abbrev pub transform_block : Sha256 → Sha256
transform_block context = record context { state = transform context.state context.block; used = 0 }

-- The state after the last block of `sha_final`.
unfoldable pub last_state : Sha256 → ℕ → Words
last_state context bits =
    let marked = put_byte context 0x80 in
    let room =
      if ltb 56 marked.used
      then transform_block (put_zeros (64 - marked.used) marked)
      else marked in
    let zeros = put_zeros (56 - room.used) room in
    transform zeros.state (write_length 8 bits zeros.block)

unfoldable pub sha_final : Sha256 → Bytes
sha_final context = store_state (last_state context (u64 (context.total * 8)))

unfoldable pub sha256 : Bytes → Bytes
sha256 input = sha_final (sha_update sha_init input)
