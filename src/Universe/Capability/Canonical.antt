-- ===== src/Universe/Capability/Canonical.antt =====
-- The canonical text of a list of alternatives in zenuniverse is its own canonical text.
use zenov_os.Prelude.{
  suc, ◌≡◌, refl, sym, ap, ◌∙◌, arith, List, [], ◌∷◌, ◌++◌, Bool, true, false, not, ◌&&◌, inl, inr,
  length, take, drop, ltb, ◌==◌, Bool-cases, and_split,
}
use zenov_os.Prelude.Bytes.{Bytes, codes, str_eq, member, sort_texts, insert_sorted, all_bytes}
use zenov_os.Prelude.Bytes.Laws.{str_eq_iff, all_bytes-append}
use zenov_os.Prelude.Bytes.Sorting.{
  all_texts, all_texts_mono, all_texts-sort_texts, sort_texts-sort_texts,
}
use zenov_os.Prelude.Result.{ok, bind-eq-ok, require-eq-ok}
use zenov_os.Package.Sha256.Streaming.{take-drop}
use zenov_os.Package.Manifest.Validate.{split_on}
use zenov_os.Universe.Capability.{
  runtime_names, static_capabilities, known_capability, check_tokens, has_adjacent,
  parse_capability_alternatives, join_bars, canonical_alternatives,
}

abbrev no_bar : Bytes → Bool
no_bar text = all_bytes (λ c. not (c == b'|')) text

member-no_bar :
    (value : Bytes) (xs : List Bytes)
    → member value xs ≡ true
    → all_texts no_bar xs ≡ true
    → no_bar value ≡ true
unfolding member all_texts
member-no_bar value [] h a = cc
member-no_bar value (x ∷ xs) h a = elim (Bool-cases (str_eq x value)) [
  | inl e ↦ let same = (str_eq_iff x value).0 e in rw (sym same) (ground arith)
  | inr e ↦ member-no_bar value xs (ground arith) (ground arith)
]

runtime-no_bar :
    (value : Bytes)
    → str_eq (take 8 value) (codes "runtime.") ≡ true
    → member (drop 8 value) runtime_names ≡ true
    → no_bar value ≡ true
runtime-no_bar value h k =
    let head : no_bar (take 8 value) ≡ true =
      ap no_bar ((str_eq_iff (take 8 value) (codes "runtime.")).0 h) ∙ unfold all_bytes in refl in
    let tail = member-no_bar (drop 8 value) runtime_names k (unfold all_texts all_bytes in refl) in
    ap no_bar (sym (take-drop 8 value))
    ∙ all_bytes-append (λ c. not (c == b'|')) (take 8 value) (drop 8 value)
    ∙ ap (λ t. t && no_bar (drop 8 value)) head
    ∙ tail

-- No known capability has a bar.
known_capability-no_bar : (value : Bytes) → known_capability value ≡ true → no_bar value ≡ true
unfolding known_capability
known_capability-no_bar value h = elim (Bool-cases (member value static_capabilities)) [
  | inl e ↦ member-no_bar value static_capabilities e (unfold all_texts all_bytes in refl)
  | inr e ↦
      let rest : (str_eq (take 8 value) (codes "runtime.") && member (drop 8 value) runtime_names)
          ≡ true =
        rw e at h in
      runtime-no_bar value (and_split _ _ rest).0 (and_split _ _ rest).1
]

split_one : (xs : Bytes) → no_bar xs ≡ true → split_on b'|' xs ≡ xs ∷ []
unfolding split_on all_bytes
split_one [] h = refl
split_one (x ∷ xs) h =
    let e : (x == b'|') ≡ false = ground arith in rw (e, split_one xs (ground arith)) refl

split_first :
    (xs ys : Bytes) → no_bar xs ≡ true → split_on b'|' (xs ++ b'|' ∷ ys) ≡ xs ∷ split_on b'|' ys
unfolding split_on all_bytes
split_first [] ys h = refl
split_first (x ∷ xs) ys h =
    let e : (x == b'|') ≡ false = ground arith in rw (e, split_first xs ys (ground arith)) refl

split_on-join_bars :
    (option : Bytes) (options : List Bytes)
    → all_texts no_bar (option ∷ options) ≡ true
    → split_on b'|' (join_bars (option ∷ options)) ≡ option ∷ options
unfolding join_bars all_texts
split_on-join_bars option [] h = split_one option (ground arith)
split_on-join_bars option (next ∷ options) h =
    split_first option (join_bars (next ∷ options)) (ground arith)
    ∙ ap (λ t. option ∷ t) (split_on-join_bars next options (ground arith))

pub check_tokens-known :
    (tokens options : List Bytes)
    → check_tokens tokens ≡ ok options
    → (options ≡ tokens) × (all_texts known_capability tokens ≡ true)
unfolding check_tokens all_texts
check_tokens-known [] options h = (cc, refl)
check_tokens-known (token ∷ tokens) options h =
    let first = require-eq-ok (known_capability token) _ _ h in
    let second = bind-eq-ok (check_tokens tokens) _ first.1 in
    let rest = check_tokens-known tokens second.0 second.1 in
    (cc (second.2, rest.0), rw (first.0, rest.1) refl)

known-check_tokens :
    (tokens : List Bytes)
    → all_texts known_capability tokens ≡ true
    → check_tokens tokens ≡ ok tokens
unfolding check_tokens all_texts
known-check_tokens [] h = refl
known-check_tokens (token ∷ tokens) h =
    let first : known_capability token ≡ true = ground arith in
    rw (first, known-check_tokens tokens (ground arith)) refl

pub length-insert_sorted :
    (x : Bytes) (xs : List Bytes) → length (insert_sorted x xs) ≡ suc (length xs)
unfolding insert_sorted
length-insert_sorted x [] = refl
length-insert_sorted x (y ∷ ys) = ground (arith, length-insert_sorted x ys)

length-sort_texts : (xs : List Bytes) → length (sort_texts xs) ≡ length xs
unfolding sort_texts
length-sort_texts [] = refl
length-sort_texts (x ∷ xs) = length-insert_sorted x (sort_texts xs) ∙ ap suc (length-sort_texts xs)

-- A sorted list that was parsed once is parsed again to itself.
parse_again :
    (option : Bytes) (options : List Bytes)
    → all_texts known_capability (option ∷ options) ≡ true
    → not (ltb (length (option ∷ options)) 2) ≡ true
    → sort_texts (option ∷ options) ≡ option ∷ options
    → not (has_adjacent (option ∷ options)) ≡ true
    → canonical_alternatives (join_bars (option ∷ options)) ≡ ok (join_bars (option ∷ options))
unfolding canonical_alternatives parse_capability_alternatives
parse_again option options known many sorted apart =
    let bars =
      all_texts_mono known_capability no_bar (option ∷ options) known_capability-no_bar known in
    let split = split_on-join_bars option options bars in
    let tokens = known-check_tokens (option ∷ options) known in
    rw (split, tokens) (rw (many, sorted) (rw apart refl))

ok_value {ℓ} : {A : Type ℓ} (a b : A) → ok a ≡ ok b → a ≡ b
ok_value a b h = cc

parse_sorted :
    (options : List Bytes)
    → all_texts known_capability options ≡ true
    → not (ltb (length options) 2) ≡ true
    → sort_texts options ≡ options
    → not (has_adjacent options) ≡ true
    → canonical_alternatives (join_bars options) ≡ ok (join_bars options)
parse_sorted [] known many sorted apart = cc
parse_sorted (option ∷ options) known many sorted apart =
    parse_again option options known many sorted apart

-- The canonical text of alternatives that are accepted is accepted, and is its own canonical text.
pub canonical_alternatives-canonical_alternatives :
    (value text : Bytes)
    → canonical_alternatives value ≡ ok text
    → canonical_alternatives text ≡ ok text
unfolding canonical_alternatives parse_capability_alternatives
canonical_alternatives-canonical_alternatives value text h =
    let tokens = split_on b'|' value in
    let parsed = bind-eq-ok (parse_capability_alternatives value) _ h in
    let first = bind-eq-ok (check_tokens tokens) _ parsed.1 in
    let options = first.0 in
    let checked = check_tokens-known tokens options first.1 in
    let many = require-eq-ok (not (ltb (length options) 2)) _ _ first.2 in
    let apart = require-eq-ok (not (has_adjacent (sort_texts options))) _ _ many.1 in
    let known : all_texts known_capability (sort_texts options) ≡ true =
      all_texts-sort_texts known_capability options
      ∙ ap (λ t. all_texts known_capability t) checked.0
      ∙ checked.1 in
    let size : not (ltb (length (sort_texts options)) 2) ≡ true =
      ap (λ n. not (ltb n 2)) (length-sort_texts options) ∙ many.0 in
    let same : join_bars (sort_texts options) ≡ text =
      ap join_bars (ok_value _ _ apart.1) ∙ ok_value _ _ parsed.2 in
    let again =
      parse_sorted (sort_texts options) known size (sort_texts-sort_texts options) apart.0 in
    ap canonical_alternatives (sym same) ∙ again ∙ ap ok same
