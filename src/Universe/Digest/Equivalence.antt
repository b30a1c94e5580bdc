-- ===== src/Universe/Digest/Equivalence.antt =====
-- The digest of zenuniverse is the hexadecimal digest of the package tool.
use zenov_os.Prelude.{
  ℕ, zero, suc, ◌+◌, ◌/◌, ◌^◌, ◌≡◌, refl, ap, ◌∙◌, arith, List, [], ◌∷◌, ◌++◌, false, inl, inr,
  replicate, u8, u32, ◌==◌, Bool-cases,
}
use zenov_os.Prelude.Bytes.{Bytes}
use zenov_os.Package.Sha256.{Words, k_, hash, sha256_hex, pad, reset, words_bytes}
use zenov_os.Package.Sha256
use zenov_os.Package.Sha256.Streaming.{push, pushes}
use zenov_os.Universe.Digest.{
  Context, rotr, first_w, next_w, extend_w, block_round, block_rounds, block_sum, block, run_block,
  put, take_byte, take_bytes, put_zeros, put_bits,
}

first_w_lem : (n i : ℕ) (p : Bytes) → first_w n i p ≡ Sha256.first_words n i p
unfolding first_w Sha256.first_words Sha256.word_at
first_w_lem zero i p = refl
first_w_lem (suc n) i p = ap (λ t. Sha256.word_at p i ∷ t) (first_w_lem n (i + 1) p)

next_w_lem : (w : List ℕ) (i : ℕ) → next_w w i ≡ Sha256.next_word w i
unfolding next_w rotr Sha256.next_word Sha256.rotate_right Sha256.add_mod32
next_w_lem w i = omega arith

extend_w_lem : (n i : ℕ) (w : List ℕ) → extend_w n i w ≡ Sha256.extend_words n i w
unfolding extend_w Sha256.extend_words
extend_w_lem zero i w = refl
extend_w_lem (suc n) i w =
    ap (λ x. extend_w n (i + 1) (w ++ (x ∷ []))) (next_w_lem w i)
    ∙ extend_w_lem n (i + 1) (w ++ (Sha256.next_word w i ∷ []))

turned : ℕ → ℕ → Words → Words
turned first fifth v = record {
  a = first;
  b = v.a;
  c = v.b;
  d = v.c;
  e = fifth;
  f = v.e;
  g = v.f;
  h = v.g;
}

block_round_lem : (k word : ℕ) (v : Words) → block_round k word v ≡ Sha256.round k word v
unfolding block_round turned rotr Sha256.round Sha256.rotate_right Sha256.add_mod32
block_round_lem k word v =
    let same : (block_round k word v).a ≡ (Sha256.round k word v).a = omega arith in
    let same' : (block_round k word v).e ≡ (Sha256.round k word v).e = omega arith in
    ap (λ x. turned x (block_round k word v).e v) same
    ∙ ap (λ x. turned (Sha256.round k word v).a x v) same'

block_rounds_lem : (ks w : List ℕ) (v : Words) → block_rounds ks w v ≡ Sha256.run_rounds ks w v
unfolding block_rounds Sha256.run_rounds
block_rounds_lem [] w v = refl
block_rounds_lem (k ∷ ks) [] v = refl
block_rounds_lem (k ∷ ks) (word ∷ w) v =
    ap (λ x. block_rounds ks w x) (block_round_lem k word v)
    ∙ block_rounds_lem ks w (Sha256.round k word v)

block_sum_lem : (s v : Words) → block_sum s v ≡ Sha256.add_words s v
unfolding block_sum Sha256.add_words Sha256.add_mod32
block_sum_lem s v =
    let e : (x y : ℕ) → u32 (x + u32 (y + 0)) ≡ u32 (x + y) = λ x y. omega arith in
    rw (e s.a v.a, e s.b v.b, e s.c v.c, e s.d v.d, e s.e v.e, e s.f v.f, e s.g v.g, e s.h v.h) refl

block_lem : (state : Words) (p : Bytes) → block state p ≡ Sha256.transform state p
unfolding block Sha256.transform
block_lem state p =
    let w = extend_w 48 16 (first_w 16 0 p) in
    block_sum_lem state (block_rounds k_ w state)
    ∙ ap (λ x. Sha256.add_words state x)
        (block_rounds_lem k_ w state
          ∙ ap (λ x. Sha256.run_rounds k_ x state)
              (ap (λ x. extend_w 48 16 x) (first_w_lem 16 0 p)
                ∙ extend_w_lem 48 16 (Sha256.first_words 16 0 p)))

-- The context of the package tool that a context stands for.
unfoldable pub to_package : Context → Sha256.Sha256
to_package c = record {
  state = c.state;
  block = c.buffer;
  digest = replicate 32 0;
  total_bytes = c.bytes;
  block_size = c.used;
  finalized = false;
}

pub run_block-to_package :
    (c : Context) → to_package (run_block c) ≡ Sha256.transform_block (to_package c)
unfolding to_package
run_block-to_package c =
    ap (λ s. to_package (record c { state = s; used = 0 })) (block_lem c.state c.buffer)

take_byte-to_package : (c : Context) (x : ℕ) → to_package (take_byte c x) ≡ push (to_package c) x
unfolding take_byte push Sha256.transform_full to_package
take_byte-to_package c x = elim (Bool-cases (c.used + 1 == 64)) [
  | inl e ↦ rw e (run_block-to_package (put c x))
  | inr e ↦ rw e refl
]

pub take_bytes-to_package :
    (c : Context) (xs : Bytes) → to_package (take_bytes c xs) ≡ pushes (to_package c) xs
unfolding take_bytes pushes
take_bytes-to_package c [] = refl
take_bytes-to_package c (x ∷ xs) =
    take_bytes-to_package (take_byte c x) xs ∙ ap (λ t. pushes t xs) (take_byte-to_package c x)

pub put_zeros-to_package :
    (n : ℕ) (c : Context) → to_package (put_zeros n c) ≡ Sha256.put_zeros n (to_package c)
unfolding put_zeros Sha256.put_zeros to_package
put_zeros-to_package zero c = refl
put_zeros-to_package (suc n) c = put_zeros-to_package n (put c 0)

put_bits-to_package :
    (n bits : ℕ) (c : Context)
    → to_package (put_bits n bits c) ≡ Sha256.put_length n bits (to_package c)
unfolding put_bits Sha256.put_length to_package
put_bits-to_package zero bits c = refl
put_bits-to_package (suc n) bits c = put_bits-to_package n bits (put c (u8 (bits / 256 ^ n)))

pub last_block :
    (c : Context) (k n bits : ℕ)
    → to_package (run_block (put_bits n bits (put_zeros k c)))
      ≡ Sha256.transform_block (Sha256.put_length n bits (Sha256.put_zeros k (to_package c)))
last_block c k n bits =
    run_block-to_package (put_bits n bits (put_zeros k c))
    ∙ ap Sha256.transform_block (
        put_bits-to_package n bits (put_zeros k c)
        ∙ ap (Sha256.put_length n bits) (put_zeros-to_package k c))
