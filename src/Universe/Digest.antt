-- ===== src/Universe/Digest.antt =====
-- The digest of tools/zenuniverse/common.hpp. The eight words of its state are those of Package/Sha256.
pub mod Equivalence
pub mod Hex
use zenov_os.Prelude.{
  ℕ, zero, suc, ◌+◌, ◌-◌, ◌*◌, ◌/◌, ◌%◌, ◌^◌, List, [], ◌∷◌, ◌++◌, Bool, true, false, length,
  get_or, set, replicate, bit_or, bit_and, bit_xor, u8, u32, ltb, leb, ◌==◌, if◌then◌else◌,
}
use zenov_os.Prelude.Bytes.{Bytes, codes}
use zenov_os.Prelude.Result.{Result, ok, err, ◌>>=◌, ◌>>◌, require}
use zenov_os.Package.Sha256.{Words}

pub record Context : Type 0 where
  pub state : Words
  pub buffer : Bytes
  pub bytes : ℕ
  pub used : ℕ

abbrev pub new_context : Context
new_context = record {
  state = record {
    a = 0x6a09e667;
    b = 0xbb67ae85;
    c = 0x3c6ef372;
    d = 0xa54ff53a;
    e = 0x510e527f;
    f = 0x9b05688c;
    g = 0x1f83d9ab;
    h = 0x5be0cd19;
  };
  buffer = replicate 64 0;
  bytes = 0;
  used = 0;
}

abbrev pub constants : List ℕ
constants =
    0x428a2f98 ∷ 0x71374491 ∷ 0xb5c0fbcf ∷ 0xe9b5dba5 ∷ 0x3956c25b ∷ 0x59f111f1 ∷ 0x923f82a4
    ∷ 0xab1c5ed5 ∷ 0xd807aa98 ∷ 0x12835b01 ∷ 0x243185be ∷ 0x550c7dc3 ∷ 0x72be5d74 ∷ 0x80deb1fe
    ∷ 0x9bdc06a7 ∷ 0xc19bf174 ∷ 0xe49b69c1 ∷ 0xefbe4786 ∷ 0x0fc19dc6 ∷ 0x240ca1cc ∷ 0x2de92c6f
    ∷ 0x4a7484aa ∷ 0x5cb0a9dc ∷ 0x76f988da ∷ 0x983e5152 ∷ 0xa831c66d ∷ 0xb00327c8 ∷ 0xbf597fc7
    ∷ 0xc6e00bf3 ∷ 0xd5a79147 ∷ 0x06ca6351 ∷ 0x14292967 ∷ 0x27b70a85 ∷ 0x2e1b2138 ∷ 0x4d2c6dfc
    ∷ 0x53380d13 ∷ 0x650a7354 ∷ 0x766a0abb ∷ 0x81c2c92e ∷ 0x92722c85 ∷ 0xa2bfe8a1 ∷ 0xa81a664b
    ∷ 0xc24b8b70 ∷ 0xc76c51a3 ∷ 0xd192e819 ∷ 0xd6990624 ∷ 0xf40e3585 ∷ 0x106aa070 ∷ 0x19a4c116
    ∷ 0x1e376c08 ∷ 0x2748774c ∷ 0x34b0bcb5 ∷ 0x391c0cb3 ∷ 0x4ed8aa4a ∷ 0x5b9cca4f ∷ 0x682e6ff3
    ∷ 0x748f82ee ∷ 0x78a5636f ∷ 0x84c87814 ∷ 0x8cc70208 ∷ 0x90befffa ∷ 0xa4506ceb ∷ 0xbef9a3f7
    ∷ 0xc67178f2 ∷ []

unfoldable pub rotr : ℕ → ℕ → ℕ
rotr x n = bit_or (x / 2 ^ n) (u32 (x * 2 ^ (32 - n)))

unfoldable pub first_w : ℕ → ℕ → Bytes → List ℕ
first_w zero i p = []
first_w (suc rounds) i p =
    bit_or
      (bit_or (bit_or (u32 (get_or p (i * 4) 0 * 16777216)) (u32 (get_or p (i * 4 + 1) 0 * 65536)))
        (u32 (get_or p (i * 4 + 2) 0 * 256)))
      (get_or p (i * 4 + 3) 0)
    ∷ first_w rounds (i + 1) p

-- The sum is of 64 bits, and cut once.
unfoldable pub next_w : List ℕ → ℕ → ℕ
next_w w i =
    let w15 = get_or w (i - 15) 0 in
    let w2 = get_or w (i - 2) 0 in
    let s0 = bit_xor (bit_xor (rotr w15 7) (rotr w15 18)) (w15 / 8) in
    let s1 = bit_xor (bit_xor (rotr w2 17) (rotr w2 19)) (w2 / 1024) in
    u32 (get_or w (i - 16) 0 + s0 + get_or w (i - 7) 0 + s1)

unfoldable pub extend_w : ℕ → ℕ → List ℕ → List ℕ
extend_w zero i w = w
extend_w (suc rounds) i w = extend_w rounds (i + 1) (w ++ (next_w w i ∷ []))

unfoldable pub block_round : ℕ → ℕ → Words → Words
block_round k word v =
    let s1 = bit_xor (bit_xor (rotr v.e 6) (rotr v.e 11)) (rotr v.e 25) in
    let ch = bit_xor (bit_and v.e v.f) (bit_and (4294967295 - v.e) v.g) in
    let t1 = u32 (v.h + s1 + ch + k + word) in
    let s0 = bit_xor (bit_xor (rotr v.a 2) (rotr v.a 13)) (rotr v.a 22) in
    let maj = bit_xor (bit_xor (bit_and v.a v.b) (bit_and v.a v.c)) (bit_and v.b v.c) in
    let t2 = u32 (s0 + maj) in
    record {
      a = u32 (t1 + t2);
      b = v.a;
      c = v.b;
      d = v.c;
      e = u32 (v.d + t1);
      f = v.e;
      g = v.f;
      h = v.g;
    }

unfoldable pub block_rounds : List ℕ → List ℕ → Words → Words
block_rounds [] w v = v
block_rounds (k ∷ ks) [] v = v
block_rounds (k ∷ ks) (word ∷ w) v = block_rounds ks w (block_round k word v)

unfoldable pub block_sum : Words → Words → Words
block_sum s v = record {
  a = u32 (s.a + v.a);
  b = u32 (s.b + v.b);
  c = u32 (s.c + v.c);
  d = u32 (s.d + v.d);
  e = u32 (s.e + v.e);
  f = u32 (s.f + v.f);
  g = u32 (s.g + v.g);
  h = u32 (s.h + v.h);
}

unfoldable pub block : Words → Bytes → Words
block state p = block_sum state (block_rounds constants (extend_w 48 16 (first_w 16 0 p)) state)

abbrev pub run_block : Context → Context
run_block context = record context { state = block context.state context.buffer; used = 0 }

abbrev pub put : Context → ℕ → Context
put context c = record context {
  buffer = set context.buffer context.used c;
  used = context.used + 1;
}

-- A round of the loop of `update`.
unfoldable pub take_byte : Context → ℕ → Context
take_byte context c = if context.used + 1 == 64 then run_block (put context c) else put context c

unfoldable pub take_bytes : Context → Bytes → Context
take_bytes context [] = context
take_bytes context (c ∷ data_) = take_bytes (take_byte context c) data_

unfoldable pub update : Context → Bytes → Result Context
update context input = do
  require (leb (length input) (18446744073709551615 - context.bytes))
      "SHA-256 input length overflow"
  ok (take_bytes (record context { bytes = context.bytes + length input }) input)

unfoldable pub put_zeros : ℕ → Context → Context
put_zeros zero context = context
put_zeros (suc n) context = put_zeros n (put context 0)

unfoldable pub put_bits : ℕ → ℕ → Context → Context
put_bits zero bits context = context
put_bits (suc n) bits context = put_bits n bits (put context (u8 (bits / 256 ^ n)))

unfoldable pub padded_blocks : Context → ℕ → Context
padded_blocks context bits =
    let marked = put context 0x80 in
    let room =
      if ltb 56 marked.used then run_block (put_zeros (64 - marked.used) marked) else marked in
    run_block (put_bits 8 bits (put_zeros (56 - room.used) room))

unfoldable pub hex_byte : ℕ → Bytes
hex_byte b =
    get_or (codes "0123456789abcdef") (b / 16) 0 ∷ get_or (codes "0123456789abcdef") (b % 16) 0 ∷ []

unfoldable pub hex_word : ℕ → Bytes
hex_word v =
    hex_byte (u8 (v / 16777216))
    ++ hex_byte (u8 (v / 65536))
    ++ hex_byte (u8 (v / 256))
    ++ hex_byte (u8 v)

unfoldable pub hex_state : Words → Bytes
hex_state s =
    hex_word s.a
    ++ hex_word s.b
    ++ hex_word s.c
    ++ hex_word s.d
    ++ hex_word s.e
    ++ hex_word s.f
    ++ hex_word s.g
    ++ hex_word s.h

unfoldable pub finish : Context → Result Bytes
finish context = do
  require (leb context.bytes 2305843009213693951) "SHA-256 bit length overflow"
  ok (hex_state (padded_blocks context (context.bytes * 8)).state)

unfoldable pub sha256 : Bytes → Result Bytes
sha256 input = update new_context input >>= λ context. finish context
