-- ===== src/Package/Sha256/Padding.antt =====
-- The digest of tools/zenpkg/sha256.hpp is the fold of its transformation over the blocks of the
-- padded message.
use zenov_os.Prelude.{
  ℕ, zero, suc, ◌+◌, ◌-◌, ◌*◌, ◌/◌, ◌%◌, ◌^◌, ◌<◌, ◌≤◌, ◌≡◌, refl, sym, ap, ◌∙◌, arith, [], ◌∷◌,
  true, false, inl, inr, set, length, length-replicate, Bool-cases, ◌==◌, take, drop, ◌++◌,
  length-append, u8, ltb, leb, replicate,
}
use zenov_os.Prelude.Bytes.Laws.{replicate-add, append_assoc}
use zenov_os.Prelude.Bytes.{Bytes}
use zenov_os.Prelude.Result.{ok, ◌>>=◌}
use zenov_os.Package.Sha256.{
  Sha256, Words, copy_in, transform, transform_full, put_byte, put_zeros, put_length,
  transform_block, pad, final, hash, reset, initial_words, words_bytes,
}
use zenov_os.Package.Sha256.Streaming.{
  push, pushes, copied, pushes-copied, pushes_size, pushes-append, pushes_kept, pushes_total,
  updated, update_lem, transform_full_short, take-drop, length-take, length-drop, push,
}

-- The specification: the bytes of a number, the highest first, and the padded message.
unfoldable pub be_bytes : ℕ → ℕ → Bytes
be_bytes zero value = []
be_bytes (suc n) value = u8 (value / 256 ^ n) ∷ be_bytes n value

unfoldable pub padding : ℕ → ℕ → Bytes
padding used bits = 0x80 ∷ replicate ((119 - used) % 64) 0 ++ be_bytes 8 bits

unfoldable pub padded : Bytes → Bytes
padded message = message ++ padding (length message % 64) (length message * 8)

unfoldable pub digest_blocks : ℕ → Words → Bytes → Words
digest_blocks zero state xs = state
digest_blocks (suc n) state xs = digest_blocks n (transform state (take 64 xs)) (drop 64 xs)

length-be_bytes : (n value : ℕ) → length (be_bytes n value) ≡ n
unfolding be_bytes
length-be_bytes zero value = refl
length-be_bytes (suc n) value = ap suc (length-be_bytes n value)

-- The writes of `final` are copies into the block.
put_zeros_lem : (n : ℕ) (context : Sha256) → put_zeros n context ≡ copied context (replicate n 0)
unfolding put_zeros copy_in
put_zeros_lem zero context =
    let e : context.block_size + 0 ≡ context.block_size = omega arith in rw e refl
put_zeros_lem (suc n) context =
    let k = length (replicate {A = ℕ} n 0) in
    let e : context.block_size + suc k ≡ context.block_size + 1 + k = omega arith in
    put_zeros_lem n (put_byte context 0) ∙ rw e refl

put_length_lem :
    (n bits : ℕ) (context : Sha256) → put_length n bits context ≡ copied context (be_bytes n bits)
unfolding put_length copy_in be_bytes
put_length_lem zero bits context =
    let e : context.block_size + 0 ≡ context.block_size = omega arith in rw e refl
put_length_lem (suc n) bits context =
    let k = length (be_bytes n bits) in
    let e : context.block_size + suc k ≡ context.block_size + 1 + k = omega arith in
    put_length_lem n bits (put_byte context (u8 (bits / 256 ^ n))) ∙ rw e refl

copied-append :
    (context : Sha256) (xs ys : Bytes) → copied (copied context xs) ys ≡ copied context (xs ++ ys)
unfolding copy_in
copied-append context [] ys =
    let e : context.block_size + 0 ≡ context.block_size = omega arith in rw e refl
copied-append context (x ∷ xs) ys =
    let e : context.block_size + suc (length xs) ≡ context.block_size + 1 + length xs =
      omega arith in
    let e' : context.block_size + suc (length (xs ++ ys))
        ≡ context.block_size + 1 + length (xs ++ ys) =
      omega arith in
    rw (e, e') (copied-append (put_byte context x) xs ys)

-- Bytes that fill the block.
full_block :
    (context : Sha256) (xs : Bytes)
    → context.block_size < 64
    → context.block_size + length xs ≡ 64
    → transform_block (copied context xs) ≡ pushes context xs
unfolding transform_full
full_block context xs h e =
    let full : (context.block_size + length xs == 64) ≡ true = ground arith in
    sym (pushes-copied context xs h (omega arith) ∙ rw full refl)

-- The last block: zeros and the length.
last_block :
    (k bits : ℕ) (context : Sha256)
    → context.block_size < 64
    → context.block_size + (k + 8) ≡ 64
    → transform_block (put_length 8 bits (put_zeros k context))
      ≡ pushes context (replicate k 0 ++ be_bytes 8 bits)
last_block k bits context h e =
    let size = length-append (replicate {A = ℕ} k 0) (be_bytes 8 bits) in
    let eight = length-be_bytes 8 bits in
    let zeros = length-replicate {A = ℕ} k 0 in
    ap transform_block (
      ap (put_length 8 bits) (put_zeros_lem k context)
      ∙ put_length_lem 8 bits (copied context (replicate k 0))
      ∙ copied-append context (replicate k 0) (be_bytes 8 bits))
    ∙ full_block context (replicate k 0 ++ be_bytes 8 bits) h (omega (arith, size, eight, zeros, e))

-- The mark and zeros to the end of a block.
marked_block :
    (k x : ℕ) (context : Sha256)
    → context.block_size < 64
    → context.block_size + suc k ≡ 64
    → transform_block (put_zeros k (put_byte context x)) ≡ pushes context (x ∷ replicate k 0)
unfolding copy_in
marked_block k x context h e =
    let zeros = length-replicate {A = ℕ} k 0 in
    ap transform_block
      (put_zeros_lem k (put_byte context x) ∙ copied-append context (x ∷ []) (replicate k 0))
    ∙ full_block context (x ∷ replicate k 0) h (omega (arith, zeros, e))

short_pad :
    (context : Sha256) (bits k : ℕ)
    → context.block_size + 1 ≤ 56
    → k ≡ 56 - (context.block_size + 1)
    → transform_block (put_length 8 bits (put_zeros k (put_byte context 0x80)))
      ≡ pushes context (0x80 ∷ replicate k 0 ++ be_bytes 8 bits)
unfolding pushes push
short_pad context bits k h e =
    last_block k bits (put_byte context 0x80) (omega arith) (omega (arith, e))
    ∙ ap (λ t. pushes t (replicate k 0 ++ be_bytes 8 bits))
        (sym (transform_full_short (put_byte context 0x80) (omega arith)))

long_pad :
    (context room : Sha256) (bits k n : ℕ)
    → context.block_size < 64
    → context.block_size + suc k ≡ 64
    → n ≡ 56
    → room ≡ transform_block (put_zeros k (put_byte context 0x80))
    → transform_block (put_length 8 bits (put_zeros n room))
      ≡ pushes context (0x80 ∷ replicate (k + n) 0 ++ be_bytes 8 bits)
long_pad context room bits k n h e fifty same =
    let size : room.block_size ≡ 0 = ap (λ (t : Sha256). t.block_size) same in
    last_block n bits room (omega (arith, size)) (omega (arith, size, fifty))
    ∙ ap (λ t. pushes t (replicate n 0 ++ be_bytes 8 bits)) (same ∙ marked_block k 0x80 context h e)
    ∙ sym (pushes-append context (0x80 ∷ replicate k 0) (replicate n 0 ++ be_bytes 8 bits))
    ∙ ap (λ t. pushes context (0x80 ∷ t))
        (sym (append_assoc (replicate k 0) (replicate n 0) (be_bytes 8 bits))
          ∙ ap (λ t. t ++ be_bytes 8 bits) (sym (replicate-add k n)))

-- The padding of `final` is pushed.
pub pad-pushes :
    (context : Sha256) (bits : ℕ)
    → context.block_size < 64
    → pad context bits ≡ pushes context (padding context.block_size bits)
unfolding pad padding
pad-pushes context bits h =
    let size = context.block_size in
    elim (Bool-cases (ltb 56 (size + 1))) [
      | inr short ↦
          let count : (119 - size) % 64 ≡ 56 - (size + 1) = ground arith in
          rw short (rw count (short_pad context bits (56 - (size + 1)) (ground arith) refl))
      | inl long ↦
          let k = 64 - (size + 1) in
          let count : (119 - size) % 64 ≡ k + 56 = ground arith in
          let room = transform_block (put_zeros k (put_byte context 0x80)) in
          rw long (rw count (long_pad context room bits k 56 h (omega arith) refl refl))
    ]

push_count :
    (context : Sha256) (x : ℕ)
    → context.block_size < 64
    → (push context x).block_size ≡ (context.block_size + 1) % 64
unfolding push transform_full
push_count context x h = ground arith

pushes_count :
    (context : Sha256) (xs : Bytes)
    → context.block_size < 64
    → (pushes context xs).block_size ≡ (context.block_size + length xs) % 64
unfolding pushes
pushes_count context [] h = omega arith
pushes_count context (x ∷ xs) h =
    let one = push_count context x h in
    let rest = pushes_count (push context x) xs (omega (arith, one)) in omega (arith, one, rest)

-- Bytes over a whole block.
set-append : (pre ys : Bytes) (y x : ℕ) → set (pre ++ y ∷ ys) (length pre) x ≡ pre ++ x ∷ ys
set-append [] ys y x = refl
set-append (z ∷ pre) ys y x = ap (λ t. z ∷ t) (set-append pre ys y x)

copy_in-append :
    (pre ys xs : Bytes) → length ys ≡ length xs → copy_in (pre ++ ys) (length pre) xs ≡ pre ++ xs
unfolding copy_in
copy_in-append pre [] [] e = refl
copy_in-append pre [] (x ∷ xs) e = absurd (omega arith)
copy_in-append pre (y ∷ ys) [] e = absurd (omega arith)
copy_in-append pre (y ∷ ys) (x ∷ xs) e =
    let size : length pre + 1 ≡ length (pre ++ x ∷ []) =
      omega (arith, length-append pre (x ∷ [])) in
    ap (λ t. copy_in t (length pre + 1) xs)
      (set-append pre ys y x ∙ sym (append_assoc pre (x ∷ []) ys))
    ∙ ap (λ n. copy_in ((pre ++ x ∷ []) ++ ys) n xs) size
    ∙ copy_in-append (pre ++ x ∷ []) ys xs (omega arith)
    ∙ append_assoc pre (x ∷ []) xs

whole_block :
    (context : Sha256) (xs : Bytes)
    → context.block_size ≡ 0
    → length context.block ≡ 64
    → length xs ≡ 64
    → pushes context xs
      ≡ record context { state = transform context.state xs; block = xs; block_size = 0 }
whole_block context xs start size len =
    let same : copy_in context.block context.block_size xs ≡ xs =
      ap (λ n. copy_in context.block n xs) start
      ∙ copy_in-append [] context.block xs (size ∙ sym len) in
    sym (full_block context xs (omega (arith, start)) (omega (arith, start, len)))
    ∙ ap (λ t. record context { state = transform context.state t; block = t; block_size = 0 }) same

pub pushes_blocks :
    (n : ℕ) (context : Sha256) (xs : Bytes)
    → context.block_size ≡ 0
    → length context.block ≡ 64
    → length xs ≡ n * 64
    → (pushes context xs).state ≡ digest_blocks n context.state xs
unfolding digest_blocks pushes
pushes_blocks zero context [] start size len = refl
pushes_blocks zero context (x ∷ xs) start size len = absurd (omega (arith, len))
pushes_blocks (suc n) context xs start size len =
    let enough : 64 ≤ length xs = omega (arith, len) in
    let first = take 64 xs in
    let front = length-take 64 xs enough in
    ap (λ t. (pushes context t).state) (sym (take-drop 64 xs))
    ∙ ap (λ (t : Sha256). t.state) (pushes-append context first (drop 64 xs))
    ∙ ap (λ (t : Sha256). (pushes t (drop 64 xs)).state)
        (whole_block context first start size front)
    ∙ pushes_blocks n
        (record context { state = transform context.state first; block = first; block_size = 0 })
        (drop 64 xs) refl front (omega (arith, len, length-drop 64 xs))

pub length-padded : (message : Bytes) → length (padded message) ≡ length (padded message) / 64 * 64
unfolding padded padding
length-padded message =
    let n = length message in
    let zeros = (119 - n % 64) % 64 in
    let ends = be_bytes 8 (n * 8) in
    let whole = length-append message (0x80 ∷ replicate zeros 0 ++ ends) in
    let tail = length-append (replicate {A = ℕ} zeros 0) ends in
    let count = length-replicate {A = ℕ} zeros 0 in
    let eight = length-be_bytes 8 (n * 8) in
    elim (Bool-cases (ltb (n % 64) 56)) [
      | inl short ↦ ground (arith, whole, tail, count, eight)
      | inr long ↦ ground (arith, whole, tail, count, eight)
    ]

final_lem :
    (context : Sha256)
    → context.finalized ≡ false
    → context.total_bytes ≤ 2305843009213693951
    → (final context >>= λ r. ok r.0)
      ≡ ok (words_bytes (pad context (context.total_bytes * 8)).state)
unfolding final
final_lem context running small =
    let fits : leb context.total_bytes 2305843009213693951 ≡ true = ground arith in
    rw (running, fits) refl

pub pushed_words :
    (message : Bytes)
    → (pad (updated reset message) (length message * 8)).state
      ≡ digest_blocks (length (padded message) / 64) initial_words (padded message)
unfolding updated padded
pushed_words message =
    let n = length message in
    let context = record (pushes reset message) { total_bytes = 0 + n } in
    let size = pushes_size reset message (omega arith) in
    let count : (pushes reset message).block_size ≡ n % 64 =
      pushes_count reset message (omega arith) ∙ omega arith in
    ap (λ (t : Sha256). t.state)
      (pad-pushes context (n * 8) size
        ∙ ap (λ k. pushes context (padding k (n * 8))) count
        ∙ pushes_total (pushes reset message) (padding (n % 64) (n * 8)) (0 + n))
    ∙ ap (λ (t : Sha256). t.state) (sym (pushes-append reset message (padding (n % 64) (n * 8))))
    ∙ pushes_blocks (length (padded message) / 64) reset (padded message) refl refl
        (length-padded message)

-- A message below 2^64 bits is hashed without an error, and the digest is the words of the state
-- after the transformation of every block of the padded message, which is the message, the byte
-- 0x80, zeros, and the length in bits as eight bytes, highest first, up to a whole number of blocks.
pub hash-digest_blocks :
    (message : Bytes)
    → length message < 2305843009213693952
    → hash message
      ≡ ok (
          words_bytes (digest_blocks (length (padded message) / 64) initial_words (padded message)))
unfolding hash
hash-digest_blocks message small =
    let context = updated reset message in
    let kept : context.finalized ≡ false = unfold updated in pushes_kept reset message in
    let total : context.total_bytes ≡ length message = unfold updated in (omega arith) in
    ap (λ r. r >>= λ context. final context >>= λ r. ok r.0)
      (update_lem reset message refl (omega arith) (omega (arith, small)))
    ∙ final_lem context kept (omega (arith, total, small))
    ∙ ap (λ n. ok (words_bytes (pad context (n * 8)).state)) total
    ∙ ap (λ s. ok (words_bytes s)) (pushed_words message)
