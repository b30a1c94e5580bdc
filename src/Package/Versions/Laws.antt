-- ===== src/Package/Versions/Laws.antt =====
-- The order of versions and the verdict of a resolution.
use zenov_os.Prelude.{
  ℕ, ◌+◌, ◌-◌, ◌≤◌, ◌≡◌, refl, sym, ap, ◌∙◌, arith, ◌++◌, Bool, true, false, inl, inr, length,
  length-append, length-replicate, replicate, Bool-cases,
}
use zenov_os.Prelude.Bytes.{Bytes, str_eq, str_less}
use zenov_os.Prelude.Bytes.Laws.{
  str_eq_iff, str_eq_refl, str_less_irrefl, str_less_total, str_less_trans, str_less_asym,
  str_not_less_trans, str_less-append, str_eq-append, replicate-add, append_assoc,
}
use zenov_os.Prelude.Bytes.Sorting.{str_eq_sym}
use zenov_os.Prelude.Result.{Result, ok, bind-eq-ok}
use zenov_os.Package.Versions.{
  resize, max_size, parse_numeric_version, numbers_at_least, version_at_least,
}

at_least_total :
    (left right current minimum : Bytes)
    → numbers_at_least left right current minimum ≡ false
    → numbers_at_least right left minimum current ≡ true
unfolding numbers_at_least
at_least_total left right current minimum h = elim (Bool-cases (str_eq left right)) [
  | inl same ↦
      let back = str_eq_sym left right in ground (arith, back, same, str_less_asym current minimum)
  | inr other ↦ elim (Bool-cases (str_less left right)) [
    | inl e ↦ ground (arith, str_eq_sym left right, e)
    | inr e ↦ elim (Bool-cases (str_less right left)) [
      | inl f ↦ absurd (ground (arith, f))
      | inr f ↦
          let same = (str_eq_iff left right).1 (str_less_total left right e f) in cc (same, other)
    ]
  ]
]

at_least_trans :
    (x y z a b c : Bytes)
    → numbers_at_least x y a b ≡ true
    → numbers_at_least y z b c ≡ true
    → numbers_at_least x z a c ≡ true
unfolding numbers_at_least
at_least_trans x y z a b c h k = elim (Bool-cases (str_eq x y)) [
  | inl e ↦
      let same = (str_eq_iff x y).0 e in
      let h' = rw (same, str_eq_refl y) at h in
      elim (Bool-cases (str_eq y z)) [
        | inr f ↦ rw (same, f) (rw f at k)
        | inl f ↦ rw (same, f) (ground (arith, h', rw f at k, str_not_less_trans a b c))
      ]
  | inr e ↦
      let h' = rw e at h in
      elim (Bool-cases (str_eq y z)) [
        | inl f ↦ let same = (str_eq_iff y z).0 f in let e' = rw same at e in rw e' (rw same at h')
        | inr f ↦
            let k' = rw f at k in
            let less = str_less_trans z y x k' h' in
            elim (Bool-cases (str_eq x z)) [
              | inr g ↦ rw g less
              | inl g ↦ let same = (str_eq_iff x z).0 g in cc (rw same at less, str_less_irrefl z)
            ]
      ]
]

resize-add :
    (xs : Bytes) (n k : ℕ) → length xs ≤ n → resize xs (n + k) ≡ resize xs n ++ replicate k 0
resize-add xs n k h =
    let e : n + k - length xs ≡ n - length xs + k = omega arith in
    ap (λ j. xs ++ replicate j 0) e
    ∙ ap (λ t. xs ++ t) (replicate-add (n - length xs) k)
    ∙ sym (append_assoc xs (replicate (n - length xs) 0) (replicate k 0))

length-resize : (xs : Bytes) (n : ℕ) → length xs ≤ n → length (resize xs n) ≡ n
length-resize xs n h = omega (
  arith,
  length-append xs (replicate (n - length xs) 0),
  length-replicate {A = ℕ} (n - length xs) 0,
)

-- More zeros behind both do not change the decision.
at_least-resize :
    (left right current minimum : Bytes) (n k : ℕ)
    → length left ≤ n
    → length right ≤ n
    → numbers_at_least (resize left (n + k)) (resize right (n + k)) current minimum
      ≡ numbers_at_least (resize left n) (resize right n) current minimum
unfolding numbers_at_least
at_least-resize left right current minimum n k h h' =
    let same : length (resize left n) ≡ length (resize right n) =
      length-resize left n h ∙ sym (length-resize right n h') in
    rw (resize-add left n k h, resize-add right n k h')
      (rw
        (
          str_eq-append (resize left n) (resize right n) (replicate k 0) same,
          str_less-append (resize right n) (resize left n) (replicate k 0) (sym same),
        )
        refl)

version_lem :
    (current minimum left right : Bytes) (n : ℕ)
    → parse_numeric_version current ≡ ok left
    → parse_numeric_version minimum ≡ ok right
    → length left + length right ≤ n
    → version_at_least current minimum
      ≡ ok (numbers_at_least (resize left n) (resize right n) current minimum)
unfolding version_at_least
version_lem current minimum left right n l r h =
    let count = max_size (length left) (length right) in
    let bounds : (length left ≤ count) × (length right ≤ count) × (count ≤ n) = ground arith in
    let e : count + (n - count) ≡ n = omega (arith, bounds.2) in
    rw (l, r)
      (ap ok (
        sym (at_least-resize left right current minimum count (n - count) bounds.0 bounds.1)
        ∙ ap (λ k. numbers_at_least (resize left k) (resize right k) current minimum) e))

parsed :
    (current minimum : Bytes) (b : Bool)
    → version_at_least current minimum ≡ ok b
    → (left : Bytes) × (right : Bytes) × (parse_numeric_version current ≡ ok left)
      × (parse_numeric_version minimum ≡ ok right)
unfolding version_at_least
parsed current minimum b h =
    let first = bind-eq-ok (parse_numeric_version current) _ h in
    let second = bind-eq-ok (parse_numeric_version minimum) _ first.2 in
    (first.0, second.0, first.1, second.1)

ok_same : (a b : Bool) (r : Result Bool) → r ≡ ok a → r ≡ ok b → a ≡ b
ok_same a b r h k = cc

-- Of two versions, one is at least the other: a version that is not at least another has that one at
-- least itself.
pub version_at_least_total :
    (current minimum : Bytes)
    → version_at_least current minimum ≡ ok false
    → version_at_least minimum current ≡ ok true
version_at_least_total current minimum h =
    let (left, right, l, r) = parsed current minimum false h in
    let n = length left + length right in
    let one = version_lem current minimum left right n l r (omega arith) in
    let two = version_lem minimum current right left n r l (omega arith) in
    two
    ∙ ap ok (at_least_total (resize left n) (resize right n) current minimum (ok_same _ _ _ one h))

-- A version that is at least a second one, which is at least a third one, is at least the third one,
-- whatever the number of their components.
pub version_at_least_trans :
    (first second third : Bytes)
    → version_at_least first second ≡ ok true
    → version_at_least second third ≡ ok true
    → version_at_least first third ≡ ok true
version_at_least_trans first second third h k =
    let (x, y, a, b) = parsed first second true h in
    let (y', z, b', c) = parsed second third true k in
    let n = length x + length y + length z in
    let one = version_lem first second x y n a b (omega arith) in
    let two = version_lem second third y z n b c (omega arith) in
    let three = version_lem first third x z n a c (omega arith) in
    three
    ∙ ap ok (
        at_least_trans (resize x n) (resize y n) (resize z n) first second third
          (ok_same _ _ _ one h) (ok_same _ _ _ two k))
