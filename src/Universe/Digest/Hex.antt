-- ===== src/Universe/Digest/Hex.antt =====
-- The padding and the hexadecimal digits of zenuniverse against those of the package tool.
use zenov_os.Prelude.{
  ℕ, zero, suc, ◌+◌, ◌-◌, ◌*◌, ◌/◌, ◌%◌, ◌<◌, ◌≤◌, ◌≡◌, refl, sym, ap, ◌∙◌, arith, [], ◌∷◌, ◌++◌,
  true, inl, inr, length, get_or, u8, ltb, leb, Bool-cases,
}
use zenov_os.Prelude.Bytes.{Bytes, codes}
use zenov_os.Prelude.Result.{ok, ◌>>=◌}
use zenov_os.Package.Common.{hex_encode, hex_digit}
use zenov_os.Package.Sha256.{Words, hash, sha256_hex, pad, reset, words_bytes}
use zenov_os.Package.Sha256
use zenov_os.Package.Sha256.Streaming.{updated, pushes_total}
use zenov_os.Package.Sha256.Padding.{hash-digest_blocks, pushed_words}
use zenov_os.Universe.Digest.{
  Context, new_context, put, run_block, take_bytes, update, put_zeros, padded_blocks, hex_byte,
  hex_word, hex_state, finish, sha256,
}
use zenov_os.Universe.Digest.Equivalence.{
  to_package, take_bytes-to_package, last_block, run_block-to_package, put_zeros-to_package,
}

padded_blocks-to_package :
    (c : Context) (bits : ℕ) → to_package (padded_blocks c bits) ≡ pad (to_package c) bits
unfolding padded_blocks pad to_package
padded_blocks-to_package c bits = elim (Bool-cases (ltb 56 (c.used + 1))) [
  | inr short ↦ rw short (last_block (put c 0x80) (56 - (c.used + 1)) 8 bits)
  | inl long ↦
      let full = run_block (put_zeros (64 - (c.used + 1)) (put c 0x80)) in
      let same : to_package full
          ≡ Sha256.transform_block
              (Sha256.put_zeros (64 - (c.used + 1)) (to_package (put c 0x80))) =
        run_block-to_package (put_zeros (64 - (c.used + 1)) (put c 0x80))
        ∙ ap Sha256.transform_block (put_zeros-to_package (64 - (c.used + 1)) (put c 0x80)) in
      rw long (
        last_block full 56 8 bits
        ∙ ap
            (λ (t : Sha256.Sha256).
              Sha256.transform_block (Sha256.put_length 8 bits (Sha256.put_zeros 56 t)))
            same)
]

-- Bytes that count up.
abbrev counting : ℕ → ℕ → Bytes
counting c zero = []
counting c (suc k) = c ∷ counting (c + 1) k

get_or-counting : (c k n : ℕ) (rest : Bytes) → n < k → get_or (counting c k ++ rest) n 0 ≡ c + n
get_or-counting c zero n rest h = absurd (omega arith)
get_or-counting c (suc k) zero rest h = omega arith
get_or-counting c (suc k) (suc n) rest h =
    get_or-counting (c + 1) k n rest (omega arith) ∙ omega arith

get_or-behind :
    (c k n : ℕ) (rest : Bytes) → get_or (counting c k ++ rest) (k + n) 0 ≡ get_or rest n 0
get_or-behind c zero n rest = ap (λ i. get_or rest i 0) (omega arith)
get_or-behind c (suc k) n rest =
    let e : suc k + n ≡ suc (k + n) = omega arith in
    ap (λ i. get_or (counting c (suc k) ++ rest) i 0) e ∙ get_or-behind (c + 1) k n rest

hex_lem : (n : ℕ) → n < 16 → get_or (codes "0123456789abcdef") n 0 ≡ hex_digit n
hex_lem n h = elim (Bool-cases (ltb n 10)) [
  | inl low ↦ rw low (get_or-counting b'0' 10 n (counting b'a' 6) (ground arith))
  | inr high ↦
      let e : n ≡ 10 + (n - 10) = ground arith in
      rw high (
        ap (λ i. get_or (codes "0123456789abcdef") i 0) e
        ∙ get_or-behind b'0' 10 (n - 10) (counting b'a' 6)
        ∙ get_or-counting b'a' 6 (n - 10) [] (ground arith))
]

hex_byte_lem : (b : ℕ) → b < 256 → hex_byte b ≡ hex_digit (b / 16) ∷ hex_digit (b % 16) ∷ []
unfolding hex_byte
hex_byte_lem b h = rw (hex_lem (b / 16) (omega arith), hex_lem (b % 16) (omega arith)) refl

hex_encode-append : (xs ys : Bytes) → hex_encode (xs ++ ys) ≡ hex_encode xs ++ hex_encode ys
unfolding hex_encode
hex_encode-append [] ys = refl
hex_encode-append (x ∷ xs) ys =
    ap (λ t. hex_digit (x / 16) ∷ hex_digit (x % 16) ∷ t) (hex_encode-append xs ys)

hex_word_lem : (v : ℕ) → hex_word v ≡ hex_encode (Sha256.word_bytes v)
unfolding hex_word hex_encode
hex_word_lem v =
    rw
      (
        hex_byte_lem (u8 (v / 16777216)) (omega arith),
        hex_byte_lem (u8 (v / 65536)) (omega arith),
        hex_byte_lem (u8 (v / 256)) (omega arith),
        hex_byte_lem (u8 v) (omega arith),
      )
      refl

hex_state_lem : (s : Words) → hex_state s ≡ hex_encode (words_bytes s)
unfolding hex_state
hex_state_lem s =
    rw
      (
        hex_word_lem s.a,
        hex_word_lem s.b,
        hex_word_lem s.c,
        hex_word_lem s.d,
        hex_word_lem s.e,
        hex_word_lem s.f,
        hex_word_lem s.g,
        hex_word_lem s.h,
      )
      (unfold hex_encode in refl)

taken : Bytes → Context
taken message = take_bytes (record new_context { bytes = 0 + length message }) message

update_lem :
    (message : Bytes)
    → length message < 2305843009213693952
    → update new_context message ≡ ok (taken message)
unfolding update taken
update_lem message small =
    let fits : leb (length message) (18446744073709551615 - 0) ≡ true = ground arith in rw fits refl

finish_lem :
    (context : Context)
    → context.bytes ≤ 2305843009213693951
    → finish context ≡ ok (hex_state (padded_blocks context (context.bytes * 8)).state)
unfolding finish
finish_lem context small =
    let fits : leb context.bytes 2305843009213693951 ≡ true = ground arith in rw fits refl

-- On a message below 2^64 bits, zenuniverse computes the hexadecimal digest that the package tool
-- computes, and neither fails.
pub sha256-sha256_hex :
    (message : Bytes) → length message < 2305843009213693952 → sha256 message ≡ sha256_hex message
unfolding sha256 sha256_hex
sha256-sha256_hex message small =
    let n = length message in
    let context = taken message in
    let same : to_package context ≡ updated reset message =
      unfold to_package updated taken in
      (take_bytes-to_package (record new_context { bytes = 0 + n }) message
        ∙ pushes_total reset message (0 + n)) in
    let total : context.bytes ≡ n =
      unfold to_package updated in (ap (λ (t : Sha256.Sha256). t.total_bytes) same ∙ omega arith) in
    let state : (padded_blocks context (context.bytes * 8)).state
        ≡ (pad (updated reset message) (n * 8)).state =
      unfold to_package in
      (ap (λ (t : Sha256.Sha256). t.state) (padded_blocks-to_package context (context.bytes * 8))
        ∙ ap (λ k. (pad (to_package context) (k * 8)).state) total
        ∙ ap (λ t. (pad t (n * 8)).state) same) in
    ap (λ r. r >>= λ context. finish context) (update_lem message small)
    ∙ finish_lem context (omega (arith, total, small))
    ∙ ap ok (
        hex_state_lem (padded_blocks context (context.bytes * 8)).state
        ∙ ap (λ s. hex_encode (words_bytes s)) (state ∙ pushed_words message))
    ∙ ap (λ r. r >>= λ digest. ok (hex_encode digest)) (sym (hash-digest_blocks message small))
