-- ===== src/Audit/Digest/Hashes.antt =====
-- The digest of the audit journal is that of the package tool, though its code is another: it takes the
-- same bytes, pads them alike, and ends with the same words.
use zenov_os.Prelude.{
  ℕ, zero, suc, ◌+◌, ◌-◌, ◌*◌, ◌/◌, ◌^◌, ◌<◌, ◌≡◌, ◌≢◌, refl, sym, ap, ◌∙◌, arith, [], ◌∷◌, false,
  inl, inr, length, set, replicate, u8, u64, ltb, ◌==◌, Bool-cases,
}
use zenov_os.Prelude.Bytes.{Bytes}
use zenov_os.Prelude.Result.{ok}
use zenov_os.Package.Sha256.{hash, pad, words_bytes, reset}
use zenov_os.Package.Sha256
use zenov_os.Package.Sha256.Streaming.{push, pushes, updated, pushes_size, pushes_total}
use zenov_os.Audit.Digest.{
  transform, sha_init, transform_full, put_byte, add_bytes, sha_update, put_zeros, write_length,
  store_be32, store_state, transform_block, last_state, sha_final, sha256,
}
use zenov_os.Audit.Digest
use zenov_os.Audit.Digest.Equivalence.{transform_lem}
use zenov_os.Package.Sha256.Padding.{hash-digest_blocks, pushed_words}

-- The context of the package tool that a context stands for.
to_package : Digest.Sha256 → Sha256.Sha256
to_package c = record {
  state = c.state;
  block = c.block;
  digest = replicate 32 0;
  total_bytes = c.total;
  block_size = c.used;
  finalized = false;
}

transform_block-to_package :
    (c : Digest.Sha256) → to_package (transform_block c) ≡ Sha256.transform_block (to_package c)
unfolding to_package
transform_block-to_package c =
    ap (λ s. to_package (record c { state = s; used = 0 })) (transform_lem c.state c.block)

push-to_package :
    (c : Digest.Sha256) (x : ℕ) → to_package (transform_full (put_byte c x)) ≡ push (to_package c) x
unfolding transform_full push Sha256.transform_full to_package
push-to_package c x = elim (Bool-cases (c.used + 1 == 64)) [
  | inl e ↦ rw e (transform_block-to_package (put_byte c x))
  | inr e ↦ rw e refl
]

add_bytes-to_package :
    (c : Digest.Sha256) (xs : Bytes) → to_package (add_bytes c xs) ≡ pushes (to_package c) xs
unfolding add_bytes pushes
add_bytes-to_package c [] = refl
add_bytes-to_package c (x ∷ xs) =
    add_bytes-to_package (transform_full (put_byte c x)) xs
    ∙ ap (λ t. pushes t xs) (push-to_package c x)

put_zeros-to_package :
    (n : ℕ) (c : Digest.Sha256) → to_package (put_zeros n c) ≡ Sha256.put_zeros n (to_package c)
unfolding put_zeros Sha256.put_zeros to_package
put_zeros-to_package zero c = refl
put_zeros-to_package (suc n) c = put_zeros-to_package n (put_byte c 0)

put_zeros-used : (n : ℕ) (c : Digest.Sha256) → (put_zeros n c).used ≡ c.used + n
unfolding put_zeros
put_zeros-used zero c = omega arith
put_zeros-used (suc n) c = put_zeros-used n (put_byte c 0) ∙ omega arith

set_comm : (xs : Bytes) (i j x y : ℕ) → i ≢ j → set (set xs i x) j y ≡ set (set xs j y) i x
set_comm [] i j x y h = refl
set_comm (z ∷ xs) zero zero x y h = absurd (h refl)
set_comm (z ∷ xs) zero (suc j) x y h = refl
set_comm (z ∷ xs) (suc i) zero x y h = refl
set_comm (z ∷ xs) (suc i) (suc j) x y h = ap (λ t. z ∷ t) (set_comm xs i j x y (λ e. h (ap suc e)))

write_length-set :
    (n bits : ℕ) (block : Bytes) (j v : ℕ)
    → j + n < 64
    → write_length n bits (set block j v) ≡ set (write_length n bits block) j v
unfolding write_length
write_length-set zero bits block j v h = refl
write_length-set (suc n) bits block j v h =
    ap (λ t. set t (63 - n) (u8 (bits / 256 ^ n))) (write_length-set n bits block j v (omega arith))
    ∙ set_comm (write_length n bits block) j (63 - n) v (u8 (bits / 256 ^ n)) (omega arith)

put_length-block :
    (n bits : ℕ) (context : Sha256.Sha256)
    → context.block_size + n ≡ 64
    → (Sha256.put_length n bits context).block ≡ write_length n bits context.block
unfolding Sha256.put_length write_length
put_length-block zero bits context h = refl
put_length-block (suc n) bits context h =
    let e : context.block_size ≡ 63 - n = omega arith in
    put_length-block n bits (Sha256.put_byte context (u8 (bits / 256 ^ n))) (omega arith)
    ∙ write_length-set n bits context.block context.block_size (u8 (bits / 256 ^ n)) (omega arith)
    ∙ ap (λ k. set (write_length n bits context.block) k (u8 (bits / 256 ^ n))) e

put_length-state :
    (n bits : ℕ) (context : Sha256.Sha256)
    → (Sha256.put_length n bits context).state ≡ context.state
unfolding Sha256.put_length
put_length-state zero bits context = refl
put_length-state (suc n) bits context =
    put_length-state n bits (Sha256.put_byte context (u8 (bits / 256 ^ n)))

-- The last block of both.
last_block :
    (c : Digest.Sha256) (k bits : ℕ)
    → c.used + k ≡ 56
    → (Sha256.transform_block (Sha256.put_length 8 bits (Sha256.put_zeros k (to_package c)))).state
      ≡ transform (put_zeros k c).state (write_length 8 bits (put_zeros k c).block)
last_block c k bits h =
    let zeros = put_zeros k c in
    let context = to_package zeros in
    let size : context.block_size + 8 ≡ 64 =
      unfold to_package in (omega (arith, put_zeros-used k c, h)) in
    ap (λ (t : Sha256.Sha256). (Sha256.transform_block (Sha256.put_length 8 bits t)).state)
      (sym (put_zeros-to_package k c))
    ∙ ap (λ t. Sha256.transform t (Sha256.put_length 8 bits context).block)
        (put_length-state 8 bits context)
    ∙ ap (λ t. Sha256.transform context.state t) (put_length-block 8 bits context size)
    ∙ unfold to_package in (sym (transform_lem zeros.state (write_length 8 bits zeros.block)))

pad-to_package :
    (c : Digest.Sha256) (bits : ℕ)
    → c.used < 64
    → (pad (to_package c) bits).state ≡ last_state c bits
unfolding pad last_state to_package
pad-to_package c bits h = elim (Bool-cases (ltb 56 (c.used + 1))) [
  | inr short ↦ rw short (last_block (put_byte c 0x80) (56 - (c.used + 1)) bits (ground arith))
  | inl long ↦
      let full = transform_block (put_zeros (64 - (c.used + 1)) (put_byte c 0x80)) in
      let same : to_package full
          ≡ Sha256.transform_block
              (Sha256.put_zeros (64 - (c.used + 1)) (to_package (put_byte c 0x80))) =
        transform_block-to_package (put_zeros (64 - (c.used + 1)) (put_byte c 0x80))
        ∙ ap Sha256.transform_block (put_zeros-to_package (64 - (c.used + 1)) (put_byte c 0x80)) in
      rw long (
        ap
          (λ (t : Sha256.Sha256).
            (Sha256.transform_block (Sha256.put_length 8 bits (Sha256.put_zeros 56 t))).state)
          (sym same)
        ∙ last_block full 56 bits refl)
]

sha_update-to_package :
    (message : Bytes)
    → length message < 2305843009213693952
    → to_package (sha_update sha_init message) ≡ updated reset message
unfolding sha_update sha_init updated to_package
sha_update-to_package message small =
    let n = length message in
    let total : u64 (0 + n) ≡ 0 + n = omega (arith, small) in
    add_bytes-to_package (record sha_init { total = u64 (0 + n) }) message
    ∙ ap (λ k. pushes (record reset { total_bytes = k }) message) total
    ∙ pushes_total reset message (0 + n)

-- On a message below 2^64 bits, the digest of the audit journal is the one that the package tool
-- computes, which does not fail.
pub hash-sha256 :
    (message : Bytes) → length message < 2305843009213693952 → hash message ≡ ok (sha256 message)
unfolding sha256 sha_final store_state store_be32
hash-sha256 message small =
    let n = length message in
    let context = sha_update sha_init message in
    let same = sha_update-to_package message small in
    let total : context.total ≡ n =
      unfold to_package updated in (ap (λ (t : Sha256.Sha256). t.total_bytes) same ∙ omega arith) in
    let used : context.used < 64 =
      unfold to_package updated in
      (omega (
        arith,
        ap (λ (t : Sha256.Sha256). t.block_size) same,
        pushes_size reset message (omega arith),
      )) in
    let bits : n * 8 ≡ u64 (context.total * 8) = omega (arith, total, small) in
    hash-digest_blocks message small
    ∙ ap (λ s. ok (words_bytes s))
        (sym (pushed_words message)
          ∙ ap (λ t. (pad t (n * 8)).state) (sym same)
          ∙ ap (λ b. (pad (to_package context) b).state) bits
          ∙ pad-to_package context (u64 (context.total * 8)) used)
