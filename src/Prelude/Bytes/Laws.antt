-- ===== src/Prelude/Bytes/Laws.antt =====
-- Laws of comparison and search on byte lists.
use Prim.Native.Nat.{ℕ, zero, suc, ◌+◌}
use mathlib.Core.Path.{◌≡◌, refl, ap, ◌∙◌}
use mathlib.Core.Logic.{◌↔◌, inl, inr}
use mathlib.Core.Bool.{Bool, true, false, not, ◌&&◌}
use mathlib.Core.List.{[], ◌∷◌, ◌++◌}
use mathlib.Core.Option.{some}
use native.Mathlib.Omega.{arith}
use zenov_os.Prelude.Tests.{ltb, ◌==◌, if◌then◌else◌, Bool-cases}
use zenov_os.Prelude.Lists.{replicate, take, drop, length}
use zenov_os.Prelude.Bytes.{Bytes, str_eq, str_less, find_byte, all_bytes}

pub str_eq_iff : (xs ys : Bytes) → (str_eq xs ys ≡ true) ↔ (xs ≡ ys)
unfolding str_eq
str_eq_iff [] [] = (λ e. refl, λ e. refl)
str_eq_iff [] (y ∷ ys) = (λ e. cc, λ e. cc)
str_eq_iff (x ∷ xs) [] = (λ e. cc, λ e. cc)
str_eq_iff (x ∷ xs) (y ∷ ys) = let ih = str_eq_iff xs ys in (λ e. ground arith, λ e. ground arith)

pub str_eq_refl : (xs : Bytes) → str_eq xs xs ≡ true
str_eq_refl xs = (str_eq_iff xs xs).1 refl

-- `<` is a strict total order.
pub str_less_irrefl : (xs : Bytes) → str_less xs xs ≡ false
unfolding str_less
str_less_irrefl [] = refl
str_less_irrefl (x ∷ xs) = ground (arith, str_less_irrefl xs)

pub str_less_total : (xs ys : Bytes) → str_less xs ys ≡ false → str_less ys xs ≡ false → xs ≡ ys
unfolding str_less
str_less_total [] [] a b = refl
str_less_total [] (y ∷ ys) a b = cc
str_less_total (x ∷ xs) [] a b = cc
str_less_total (x ∷ xs) (y ∷ ys) a b = ground (arith, str_less_total xs ys)

pub str_less_trans :
    (xs ys zs : Bytes) → str_less xs ys ≡ true → str_less ys zs ≡ true → str_less xs zs ≡ true
unfolding str_less
str_less_trans xs [] zs a b = cc
str_less_trans xs (y ∷ ys) [] a b = cc
str_less_trans [] (y ∷ ys) (z ∷ zs) a b = refl
str_less_trans (x ∷ xs) (y ∷ ys) (z ∷ zs) a b = ground (arith, str_less_trans xs ys zs)

pub str_less_asym : (xs ys : Bytes) → str_less xs ys ≡ true → str_less ys xs ≡ false
str_less_asym xs ys a = elim (Bool-cases (str_less ys xs)) [
  | inr e ↦ e
  | inl e ↦ cc (str_less_trans xs ys xs a e, str_less_irrefl xs)
]

-- A byte that does not occur before it is found where it stands.
abbrev pub Without : ℕ → Bytes → Type 0
Without c xs = all_bytes (λ x. not (x == c)) xs ≡ true

pub find_byte-append :
    (c : ℕ) (xs ys : Bytes) → Without c xs → find_byte c (xs ++ c ∷ ys) ≡ some (length xs)
unfolding find_byte all_bytes
find_byte-append c [] ys h = ground arith
find_byte-append c (x ∷ xs) ys h =
    let ih = find_byte-append c xs ys (ground arith) in
    let e : (x == c) ≡ false = ground arith in rw (e, ih) refl

pub take-append : (xs ys : Bytes) → take (length xs) (xs ++ ys) ≡ xs
take-append [] ys = refl
take-append (x ∷ xs) ys = ap (λ t. x ∷ t) (take-append xs ys)

pub drop-append : (xs ys : Bytes) → drop (length xs) (xs ++ ys) ≡ ys
drop-append [] ys = refl
drop-append (x ∷ xs) ys = drop-append xs ys

pub drop-append_one : (xs ys : Bytes) (c : ℕ) → drop (suc (length xs)) (xs ++ c ∷ ys) ≡ ys
drop-append_one [] ys c = refl
drop-append_one (x ∷ xs) ys c = drop-append_one xs ys c

pub append_assoc : (xs ys zs : Bytes) → (xs ++ ys) ++ zs ≡ xs ++ (ys ++ zs)
append_assoc [] ys zs = refl
append_assoc (x ∷ xs) ys zs = ap (λ t. x ∷ t) (append_assoc xs ys zs)

pub append_nil : (xs : Bytes) → xs ++ [] ≡ xs
append_nil [] = refl
append_nil (x ∷ xs) = ap (λ t. x ∷ t) (append_nil xs)

pub replicate-add : (m n : ℕ) → replicate {A = ℕ} (m + n) 0 ≡ replicate m 0 ++ replicate n 0
replicate-add zero n = ap (λ k. replicate {A = ℕ} k 0) (omega arith)
replicate-add (suc m) n =
    let e : suc m + n ≡ suc (m + n) = omega arith in
    ap (λ k. replicate {A = ℕ} k 0) e ∙ ap (λ t. 0 ∷ t) (replicate-add m n)

-- Texts of one length compare as they do with more behind them.
pub str_less-append :
    (xs ys zs : Bytes) → length xs ≡ length ys → str_less (xs ++ zs) (ys ++ zs) ≡ str_less xs ys
unfolding str_less
str_less-append [] [] zs h = str_less_irrefl zs
str_less-append [] (y ∷ ys) zs h = absurd (omega (arith, h))
str_less-append (x ∷ xs) [] zs h = absurd (omega (arith, h))
str_less-append (x ∷ xs) (y ∷ ys) zs h =
    ap (λ t. if ltb x y then true else if x == y then t else false)
      (str_less-append xs ys zs (omega (arith, h)))

pub str_eq-append :
    (xs ys zs : Bytes) → length xs ≡ length ys → str_eq (xs ++ zs) (ys ++ zs) ≡ str_eq xs ys
unfolding str_eq
str_eq-append [] [] zs h = str_eq_refl zs
str_eq-append [] (y ∷ ys) zs h = absurd (omega (arith, h))
str_eq-append (x ∷ xs) [] zs h = absurd (omega (arith, h))
str_eq-append (x ∷ xs) (y ∷ ys) zs h =
    ap (λ t. x == y && t) (str_eq-append xs ys zs (omega (arith, h)))

pub str_not_less_trans :
    (xs ys zs : Bytes) → str_less xs ys ≡ false → str_less ys zs ≡ false → str_less xs zs ≡ false
str_not_less_trans xs ys zs a b = elim (Bool-cases (str_less xs zs)) [
  | inr e ↦ e
  | inl e ↦ elim (Bool-cases (str_less ys xs)) [
    | inl f ↦ cc (str_less_trans ys xs zs f e, b)
    | inr f ↦ let same = str_less_total xs ys a f in cc (rw same at e, b)
  ]
]

pub all_bytes-append :
    (p : ℕ → Bool) (xs ys : Bytes) → all_bytes p (xs ++ ys) ≡ all_bytes p xs && all_bytes p ys
unfolding all_bytes
all_bytes-append p [] ys = refl
all_bytes-append p (x ∷ xs) ys = ground (arith, all_bytes-append p xs ys)
