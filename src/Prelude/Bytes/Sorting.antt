-- ===== src/Prelude/Bytes/Sorting.antt =====
-- Sorting a list of texts keeps its members, and sorting again changes nothing.
use Prim.Native.Nat.{ℕ}
use mathlib.Core.Path.{◌≡◌, refl, ap, ◌∙◌}
use mathlib.Core.Logic.{inl, inr}
use mathlib.Core.Bool.{Bool, true, false, not, ◌&&◌, ◌||◌}
use mathlib.Core.List.{List, [], ◌∷◌}
use native.Mathlib.Omega.{arith}
use zenov_os.Prelude.Tests.{Bool-cases}
use zenov_os.Prelude.Bytes.{Bytes, str_eq, str_less, member, insert_sorted, sort_texts}
use zenov_os.Prelude.Bytes.Laws.{
  str_eq_iff, str_eq_refl, str_less_total, str_less_trans, str_less_asym,
}

unfoldable pub all_texts : (Bytes → Bool) → List Bytes → Bool
all_texts p [] = true
all_texts p (x ∷ xs) = p x && all_texts p xs

unfoldable pub distinct : List Bytes → Bool
unfolding member
distinct [] = true
distinct (x ∷ xs) = not (member x xs) && distinct xs

pub all_texts_mono :
    (p q : Bytes → Bool) (xs : List Bytes)
    → ((x : Bytes) → p x ≡ true → q x ≡ true)
    → all_texts p xs ≡ true
    → all_texts q xs ≡ true
unfolding all_texts
all_texts_mono p q [] f h = refl
all_texts_mono p q (x ∷ xs) f h =
    let first = f x (ground arith) in
    let rest = all_texts_mono p q xs f (ground arith) in ground (arith, first, rest)

pub all_texts-insert_sorted :
    (p : Bytes → Bool) (x : Bytes) (xs : List Bytes)
    → all_texts p (insert_sorted x xs) ≡ p x && all_texts p xs
unfolding all_texts insert_sorted
all_texts-insert_sorted p x [] = refl
all_texts-insert_sorted p x (y ∷ ys) = ground (arith, all_texts-insert_sorted p x ys)

pub all_texts-sort_texts :
    (p : Bytes → Bool) (xs : List Bytes) → all_texts p (sort_texts xs) ≡ all_texts p xs
unfolding all_texts sort_texts
all_texts-sort_texts p [] = refl
all_texts-sort_texts p (x ∷ xs) =
    all_texts-insert_sorted p x (sort_texts xs) ∙ ap (λ t. p x && t) (all_texts-sort_texts p xs)

pub member-insert_sorted :
    (v x : Bytes) (xs : List Bytes) → member v (insert_sorted x xs) ≡ str_eq x v || member v xs
unfolding member insert_sorted
member-insert_sorted v x [] = refl
member-insert_sorted v x (y ∷ ys) = ground (arith, member-insert_sorted v x ys)

member-sort_texts : (v : Bytes) (xs : List Bytes) → member v (sort_texts xs) ≡ member v xs
unfolding member sort_texts
member-sort_texts v [] = refl
member-sort_texts v (x ∷ xs) =
    member-insert_sorted v x (sort_texts xs) ∙ ap (λ t. str_eq x v || t) (member-sort_texts v xs)

pub str_eq_sym : (x y : Bytes) → str_eq x y ≡ str_eq y x
str_eq_sym x y = elim (Bool-cases (str_eq x y)) [
  | inl e ↦ let same = (str_eq_iff x y).0 e in rw same refl
  | inr e ↦ elim (Bool-cases (str_eq y x)) [
    | inr e' ↦ cc (e, e')
    | inl e' ↦ let same = (str_eq_iff y x).0 e' in cc (rw same at e, str_eq_refl x)
  ]
]

pub distinct-insert_sorted :
    (x : Bytes) (xs : List Bytes) → distinct (insert_sorted x xs) ≡ not (member x xs) && distinct xs
unfolding distinct member insert_sorted
distinct-insert_sorted x [] = refl
distinct-insert_sorted x (y ∷ ys) =
    ground (arith, distinct-insert_sorted x ys, member-insert_sorted y x ys, str_eq_sym x y)

pub distinct-sort_texts : (xs : List Bytes) → distinct (sort_texts xs) ≡ distinct xs
unfolding distinct sort_texts
distinct-sort_texts [] = refl
distinct-sort_texts (x ∷ xs) = ground (
  arith,
  distinct-insert_sorted x (sort_texts xs),
  member-sort_texts x xs,
  distinct-sort_texts xs,
)

-- No text is before an earlier one.
pub IsSorted : List Bytes → Type 0
IsSorted [] = ◌≡◌ {A = ℕ} 0 0
IsSorted (x ∷ xs) = (all_texts (λ y. not (str_less y x)) xs ≡ true) × IsSorted xs

not_before :
    (x y : Bytes) (xs : List Bytes)
    → str_less y x ≡ false
    → all_texts (λ z. not (str_less z y)) xs ≡ true
    → all_texts (λ z. not (str_less z x)) xs ≡ true
unfolding all_texts
not_before x y [] a h = refl
not_before x y (z ∷ zs) a h =
    let rest = not_before x y zs a (ground arith) in
    elim (Bool-cases (str_less z x)) [
      | inr e ↦ ground (arith, rest)
      | inl e ↦ elim (Bool-cases (str_less x y)) [
        | inl b ↦ ground (arith, str_less_trans z x y e b)
        | inr b ↦ let same = str_less_total x y b a in ground (arith, rw same at e)
      ]
    ]

insert_sorted-IsSorted : (x : Bytes) (xs : List Bytes) → IsSorted xs → IsSorted (insert_sorted x xs)
unfolding IsSorted insert_sorted all_texts
insert_sorted-IsSorted x [] h = (refl, refl)
insert_sorted-IsSorted x (y ∷ ys) h = elim (Bool-cases (str_less y x)) [
  | inl before ↦ rw before (
    ground
        (arith, all_texts-insert_sorted (λ z. not (str_less z y)) x ys, str_less_asym y x before),
    insert_sorted-IsSorted x ys h.1,
  )
  | inr after ↦ rw after (ground (arith, not_before x y ys after h.0), h)
]

sort_texts-IsSorted : (xs : List Bytes) → IsSorted (sort_texts xs)
unfolding IsSorted sort_texts
sort_texts-IsSorted [] = refl
sort_texts-IsSorted (x ∷ xs) = insert_sorted-IsSorted x (sort_texts xs) (sort_texts-IsSorted xs)

sort_texts-of-IsSorted : (xs : List Bytes) → IsSorted xs → sort_texts xs ≡ xs
unfolding IsSorted sort_texts insert_sorted all_texts
sort_texts-of-IsSorted [] h = refl
sort_texts-of-IsSorted (x ∷ []) h = refl
sort_texts-of-IsSorted (x ∷ y ∷ ys) h =
    let rest = sort_texts-of-IsSorted (y ∷ ys) h.1 in
    let first : str_less y x ≡ false = ground arith in rw rest (rw first refl)

pub sort_texts-sort_texts : (xs : List Bytes) → sort_texts (sort_texts xs) ≡ sort_texts xs
sort_texts-sort_texts xs = sort_texts-of-IsSorted (sort_texts xs) (sort_texts-IsSorted xs)
