-- ===== src/Package/Common/Trim.antt =====
-- A text without space at its ends is what `trim` of tools/zenpkg/common.hpp leaves alone.
use zenov_os.Prelude.{
  ℕ, suc, ◌+◌, ◌≤◌, ◌≡◌, refl, ap, ◌∙◌, arith, [], ◌∷◌, ◌++◌, Bool, true, false, not, ◌&&◌, inl,
  inr, length, ◌==◌, Bool-cases,
}
use mathlib.Core.List.{reverse, reverse_aux}
use zenov_os.Prelude.Bytes.Laws.{append_nil}
use zenov_os.Prelude.Bytes.{Bytes, is_space, front, back, skip_spaces}
use zenov_os.Package.Common.{trim}

reverse_twice :
    (xs acc ys : Bytes) → reverse_aux (reverse_aux xs acc) ys ≡ reverse_aux acc (xs ++ ys)
reverse_twice [] acc ys = refl
reverse_twice (x ∷ xs) acc ys = reverse_twice xs (x ∷ acc) ys

reverse-reverse : (xs : Bytes) → reverse (reverse xs) ≡ xs
reverse-reverse xs = reverse_twice xs [] [] ∙ append_nil xs

length-reverse_aux : (xs acc : Bytes) → length (reverse_aux xs acc) ≡ length xs + length acc
length-reverse_aux [] acc = omega arith
length-reverse_aux (x ∷ xs) acc = omega (arith, length-reverse_aux xs (x ∷ acc))

length-skip_spaces : (xs : Bytes) → length (skip_spaces xs) ≤ length xs
unfolding skip_spaces
length-skip_spaces [] = omega arith
length-skip_spaces (x ∷ xs) = ground (arith, length-skip_spaces xs)

skip_first : (x : ℕ) (xs : Bytes) → is_space x ≡ false → skip_spaces (x ∷ xs) ≡ x ∷ xs
unfolding skip_spaces
skip_first x xs h = rw h refl

skip_last :
    (x : ℕ) (xs acc : Bytes)
    → is_space (back (x ∷ xs)) ≡ false
    → skip_spaces (reverse_aux (x ∷ xs) acc) ≡ reverse_aux (x ∷ xs) acc
unfolding back
skip_last x [] acc h = skip_first x acc h
skip_last x (y ∷ ys) acc h = skip_last y ys (x ∷ acc) h

-- Neither end is a space.
unfoldable pub is_trimmed : Bytes → Bool
is_trimmed value =
    not (length value == 0) && not (is_space (front value)) && not (is_space (back value))

trim_ends :
    (value : Bytes)
    → is_space (front value) ≡ false
    → is_space (back value) ≡ false
    → trim value ≡ value
unfolding trim skip_spaces
trim_ends [] f b = refl
trim_ends (x ∷ xs) f b =
    ap (λ t. reverse (skip_spaces (reverse t))) (skip_first x xs f)
    ∙ ap reverse (skip_last x xs [] b)
    ∙ reverse-reverse (x ∷ xs)

pub trim_lem : (value : Bytes) → is_trimmed value ≡ true → trim value ≡ value
unfolding is_trimmed
trim_lem value h = trim_ends value (ground arith) (ground arith)

skip_shorter :
    (x : ℕ) (xs acc : Bytes)
    → is_space (back (x ∷ xs)) ≡ true
    → length (skip_spaces (reverse_aux (x ∷ xs) acc)) ≤ length xs + length acc
unfolding back skip_spaces
skip_shorter x [] acc h = rw h (omega (arith, length-skip_spaces acc))
skip_shorter x (y ∷ ys) acc h = omega (arith, skip_shorter y ys (x ∷ acc) h)

trim_short : (x : ℕ) (xs : Bytes) → is_space x ≡ true → length (trim (x ∷ xs)) ≤ length xs
unfolding trim skip_spaces
trim_short x xs h =
    let first = skip_spaces xs in
    rw h (
      omega (
        arith,
        length-skip_spaces xs,
        length-reverse_aux first [],
        length-skip_spaces (reverse first),
        length-reverse_aux (skip_spaces (reverse first)) [],
      ))

trim_short_back :
    (x : ℕ) (xs : Bytes)
    → is_space x ≡ false
    → is_space (back (x ∷ xs)) ≡ true
    → length (trim (x ∷ xs)) ≤ length xs
unfolding trim
trim_short_back x xs f b =
    rw (skip_first x xs f) (
      omega (arith, skip_shorter x xs [] b, length-reverse_aux (skip_spaces (reverse (x ∷ xs))) []))

pub is_trimmed_lem :
    (value : Bytes) → trim value ≡ value → (length value == 0) ≡ false → is_trimmed value ≡ true
unfolding is_trimmed
is_trimmed_lem [] e h = cc
is_trimmed_lem (x ∷ xs) e h =
    let same : length (trim (x ∷ xs)) ≡ suc (length xs) = ap length e in
    elim (Bool-cases (is_space x)) [
      | inl f ↦ absurd (omega (arith, trim_short x xs f, same))
      | inr f ↦ elim (Bool-cases (is_space (back (x ∷ xs)))) [
        | inl b ↦ absurd (omega (arith, trim_short_back x xs f b, same))
        | inr b ↦ rw (h, f, b) refl
      ]
    ]
