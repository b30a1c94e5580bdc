-- ===== src/Package/Manifest/Values.antt =====
-- The values that the validation of a manifest lets pass can stand on a line.
use zenov_os.Prelude.{
  ℕ, ◌≡◌, refl, sym, ap, ◌∙◌, arith, List, [], ◌∷◌, Bool, true, false, not, ◌&&◌, ◌||◌, ◌⊎◌, inl,
  inr, length, drop, ltb, ◌==◌, Bool-cases, ==_iff,
}
use zenov_os.Prelude.Bytes.{Bytes, codes, str_eq, member, is_space, all_bytes, front, back}
use zenov_os.Prelude.Bytes.Laws.{str_eq_iff}
use zenov_os.Prelude.Bytes.Sorting.{all_texts}
use zenov_os.Package.Common.{
  trim, is_safe_identifier, identifier_byte, is_safe_version, version_byte, is_printable_text,
  printable_byte,
}
use zenov_os.Package.Common.Trim.{is_trimmed, is_trimmed_lem}
use zenov_os.Package.Manifest.Laws.{is_value, trimmed_all, all_bytes_mono}
use zenov_os.Package.Manifest.Validate.{
  requirement_byte, is_allowed_kind, allowed_kinds, is_allowed_payload_type, allowed_payload_types,
  is_allowed_runtime, allowed_runtimes, is_asset_policy, is_safe_absolute_entrypoint, split_step,
  split_on, all_components, is_safe_component, component_byte,
}

abbrev pub is_requirement : Bytes → Bool
is_requirement value =
    not (length value == 0 || ltb 96 (length value)) && all_bytes requirement_byte value

-- Values by the kinds of their bytes.
word_value :
    (p : ℕ → Bool) (value : Bytes)
    → ((x : ℕ) → p x ≡ true → (is_space x || x == 10) ≡ false)
    → (length value == 0) ≡ false
    → all_bytes p value ≡ true
    → is_value value ≡ true
unfolding is_value
word_value p value f n h =
    let ends = trimmed_all p value (λ x e. ground (arith, f x e)) n h in
    let inside = all_bytes_mono p (λ c. not (c == 10)) value (λ x e. ground (arith, f x e)) h in
    rw (ends, inside) refl

pub identifier_value : (value : Bytes) → is_safe_identifier value ≡ true → is_value value ≡ true
unfolding is_safe_identifier
identifier_value value h =
    word_value identifier_byte value (λ x e. ground arith) (ground arith) (ground arith)

pub version_value : (value : Bytes) → is_safe_version value ≡ true → is_value value ≡ true
unfolding is_safe_version
version_value value h =
    word_value version_byte value (λ x e. ground arith) (ground arith) (ground arith)

pub requirement_value : (value : Bytes) → is_requirement value ≡ true → is_value value ≡ true
requirement_value value h =
    word_value requirement_byte value (λ x e. ground arith) (ground arith) (ground arith)

pub text_value :
    (value : Bytes) (maximum : ℕ)
    → is_printable_text value maximum ≡ true
    → trim value ≡ value
    → is_value value ≡ true
unfolding is_printable_text is_value
text_value value maximum h e =
    let ends = is_trimmed_lem value e (ground arith) in
    let inside =
      all_bytes_mono printable_byte (λ c. not (c == 10)) value (λ x e. ground arith)
        (ground arith) in
    rw (ends, inside) refl

member_value :
    (value : Bytes) (xs : List Bytes)
    → member value xs ≡ true
    → all_texts is_value xs ≡ true
    → is_value value ≡ true
unfolding member all_texts
member_value value [] h a = cc
member_value value (x ∷ xs) h a = elim (Bool-cases (str_eq x value)) [
  | inl e ↦ let same = (str_eq_iff x value).0 e in rw (sym same) (ground arith)
  | inr e ↦ member_value value xs (ground arith) (ground arith)
]

pub kind_value : (value : Bytes) → is_allowed_kind value ≡ true → is_value value ≡ true
unfolding is_allowed_kind
kind_value value h =
    member_value value allowed_kinds h (unfold all_texts is_value is_trimmed all_bytes back in refl)

pub type_value : (value : Bytes) → is_allowed_payload_type value ≡ true → is_value value ≡ true
unfolding is_allowed_payload_type
type_value value h =
    member_value value allowed_payload_types h
      (unfold all_texts is_value is_trimmed all_bytes back in refl)

pub runtime_value : (value : Bytes) → is_allowed_runtime value ≡ true → is_value value ≡ true
unfolding is_allowed_runtime
runtime_value value h =
    member_value value allowed_runtimes h
      (unfold all_texts is_value is_trimmed all_bytes back in refl)

equal_value :
    (value text : Bytes) → str_eq value text ≡ true → is_value text ≡ true → is_value value ≡ true
equal_value value text h e = ap is_value ((str_eq_iff value text).0 h) ∙ e

or_cases : (a b : Bool) → (a || b) ≡ true → (a ≡ true) ⊎ (b ≡ true)
or_cases true b h = inl refl
or_cases false b h = inr h

pub policy_value : (value : Bytes) → is_asset_policy value ≡ true → is_value value ≡ true
unfolding is_value is_trimmed all_bytes back
policy_value value h =
    let one = str_eq value (codes "redistributable") in
    let two = str_eq value (codes "user-supplied") in
    let three = str_eq value (codes "metadata-only") in
    elim (or_cases (one || two) three h) [
      | inr e ↦ equal_value value _ e refl
      | inl e ↦ elim (or_cases one two e) [
        | inl e ↦ equal_value value _ e refl
        | inr e ↦ equal_value value _ e refl
      ]
    ]

pub format_value :
    (value : Bytes) → str_eq value (codes "zenpkg-manifest-1") ≡ true → is_value value ≡ true
unfolding is_value is_trimmed all_bytes back
format_value value h = equal_value value _ h refl

-- The parts of an entry point have no newline, so it has none.
step_all :
    (p : ℕ → Bool) (x : ℕ) (parts : List Bytes)
    → all_texts (all_bytes p) (split_step false x parts) ≡ true
    → (p x ≡ true) × (all_texts (all_bytes p) parts ≡ true)
unfolding all_texts all_bytes
step_all p x [] h = (ground arith, refl)
step_all p x (part ∷ parts) h = (ground arith, ground arith)

split_all :
    (p : ℕ → Bool) (c : ℕ) (xs : Bytes)
    → p c ≡ true
    → all_texts (all_bytes p) (split_on c xs) ≡ true
    → all_bytes p xs ≡ true
unfolding all_texts all_bytes split_on
split_all p c [] k h = refl
split_all p c (x ∷ xs) k h = elim (Bool-cases (x == c)) [
  | inl e ↦
      let same : x ≡ c = (==_iff x c).0 e in
      let rest = split_all p c xs k (rw e at h) in rw (same, k, rest) refl
  | inr e ↦
      let both = step_all p x (split_on c xs) (rw e at h) in
      rw (both.0, split_all p c xs k both.1) refl
]

components_all :
    (parts : List Bytes)
    → all_components parts ≡ true
    → all_texts (all_bytes (λ c. not (c == 10))) parts ≡ true
unfolding all_components all_texts is_safe_component
components_all [] h = refl
components_all (part ∷ parts) h =
    let inside =
      all_bytes_mono component_byte (λ c. not (c == 10)) part (λ x e. ground arith)
        (ground arith) in
    rw (inside, components_all parts (ground arith)) refl

path_bytes :
    (value : Bytes)
    → (front value == b'/') ≡ true
    → all_components (split_on b'/' (drop 1 value)) ≡ true
    → all_bytes (λ c. not (c == 10)) value ≡ true
unfolding all_bytes
path_bytes [] f h = refl
path_bytes (x ∷ xs) f h =
    let rest = split_all (λ c. not (c == 10)) b'/' xs refl (components_all (split_on b'/' xs) h) in
    rw rest (ground arith)

pub entrypoint_value :
    (value : Bytes)
    → is_safe_absolute_entrypoint value ≡ true
    → trim value ≡ value
    → is_value value ≡ true
unfolding is_safe_absolute_entrypoint
entrypoint_value value h e =
    let some_byte : (length value == 0) ≡ false = ground arith in
    elim (Bool-cases (str_eq value (codes "-"))) [
      | inl same ↦ equal_value value _ same (unfold is_value is_trimmed all_bytes back in refl)
      | inr other ↦
          let inside = path_bytes value (ground arith) (ground arith) in
          unfold is_value in (rw (is_trimmed_lem value e some_byte, inside) refl)
    ]
