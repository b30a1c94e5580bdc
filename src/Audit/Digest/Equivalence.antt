-- ===== src/Audit/Digest/Equivalence.antt =====
-- The transformation of the audit journal's digest against that of the package tool.
use zenov_os.Prelude.{ℕ, zero, suc, ◌+◌, ◌*◌, ◌≡◌, refl, ap, ◌∙◌, arith, List, [], ◌∷◌, ◌++◌, u32}
use zenov_os.Prelude.Bytes.{Bytes}
use zenov_os.Package.Sha256.{Words}
use zenov_os.Package.Sha256
use zenov_os.Audit.Digest.{
  rotate_right, add32, load_be32, load_words, word_sum, more_words, mix, mix_all, add_state,
  transform, sha256_constants,
}

load_words_lem : (n i : ℕ) (block : Bytes) → load_words n i block ≡ Sha256.first_words n i block
unfolding load_words load_be32 Sha256.first_words Sha256.word_at
load_words_lem zero i block = refl
load_words_lem (suc n) i block =
    ap (λ t. load_be32 block (i * 4) ∷ t) (load_words_lem n (i + 1) block)

word_sum_lem : (words : List ℕ) (i : ℕ) → word_sum words i ≡ Sha256.next_word words i
unfolding word_sum rotate_right Sha256.next_word Sha256.rotate_right Sha256.add_mod32
word_sum_lem words i = omega arith

more_words_lem : (n i : ℕ) (words : List ℕ) → more_words n i words ≡ Sha256.extend_words n i words
unfolding more_words Sha256.extend_words
more_words_lem zero i words = refl
more_words_lem (suc n) i words =
    ap (λ w. more_words n (i + 1) (words ++ (w ∷ []))) (word_sum_lem words i)
    ∙ more_words_lem n (i + 1) (words ++ (Sha256.next_word words i ∷ []))

mixed : ℕ → ℕ → Words → Words
mixed first fifth v = record {
  a = first;
  b = v.a;
  c = v.b;
  d = v.c;
  e = fifth;
  f = v.e;
  g = v.f;
  h = v.g;
}

mix_lem : (k word : ℕ) (v : Words) → mix k word v ≡ Sha256.round k word v
unfolding mix mixed rotate_right Sha256.round Sha256.rotate_right Sha256.add_mod32
mix_lem k word v =
    let same : (mix k word v).a ≡ (Sha256.round k word v).a = omega arith in
    let same' : (mix k word v).e ≡ (Sha256.round k word v).e = omega arith in
    ap (λ x. mixed x (mix k word v).e v) same ∙ ap (λ x. mixed (Sha256.round k word v).a x v) same'

mix_all_lem : (ks words : List ℕ) (v : Words) → mix_all ks words v ≡ Sha256.run_rounds ks words v
unfolding mix_all Sha256.run_rounds
mix_all_lem [] words v = refl
mix_all_lem (k ∷ ks) [] v = refl
mix_all_lem (k ∷ ks) (word ∷ words) v =
    ap (λ x. mix_all ks words x) (mix_lem k word v) ∙ mix_all_lem ks words (Sha256.round k word v)

add_state_lem : (s v : Words) → add_state s v ≡ Sha256.add_words s v
unfolding add_state Sha256.add_words Sha256.add_mod32
add_state_lem s v =
    let e : (x y : ℕ) → u32 (x + u32 (y + 0)) ≡ add32 x y = λ x y. omega arith in
    rw (e s.a v.a, e s.b v.b, e s.c v.c, e s.d v.d, e s.e v.e, e s.f v.f, e s.g v.g, e s.h v.h) refl

-- The transformations of the two are one function.
pub transform_lem :
    (state : Words) (block : Bytes) → transform state block ≡ Sha256.transform state block
unfolding transform Sha256.transform
transform_lem state block =
    let words = more_words 48 16 (load_words 16 0 block) in
    add_state_lem state (mix_all sha256_constants words state)
    ∙ ap (λ x. Sha256.add_words state x)
        (mix_all_lem sha256_constants words state
          ∙ ap (λ x. Sha256.run_rounds Sha256.k_ x state)
              (ap (λ x. more_words 48 16 x) (load_words_lem 16 0 block)
                ∙ more_words_lem 48 16 (Sha256.first_words 16 0 block)))
