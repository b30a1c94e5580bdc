-- ===== src/Storage/LivePacker/Prefixes.antt =====
-- What the decompressor of kernel/parts/storage_live_image.inc has written, as a prefix of the input
-- of the compression, and the bytes that it reads.
use zenov_os.Prelude.{
  ℕ, zero, suc, ◌+◌, ◌-◌, ◌<◌, ◌≤◌, ◌≡◌, refl, ap, ◌∙◌, arith, List, [], ◌∷◌, get_or, length, take,
  ◌++◌, length-append,
}
use mathlib.Core.List.{reverse, reverse-cons}
use zenov_os.Storage.LivePack.{byte_at, copy_match}
use zenov_os.Storage.LivePacker.Search.{Agree}

-- The first bytes of the input, the last one first.
unfoldable pub rprefix : List ℕ → ℕ → List ℕ
rprefix input zero = []
rprefix input (suc p) = byte_at input p ∷ rprefix input p

pub length-rprefix : (input : List ℕ) (p : ℕ) → length (rprefix input p) ≡ p
unfolding rprefix
length-rprefix input zero = refl
length-rprefix input (suc p) = ap suc (length-rprefix input p)

get_or-rprefix :
    (input : List ℕ) (p i : ℕ) → i < p → get_or (rprefix input p) i 0 ≡ byte_at input (p - 1 - i)
unfolding rprefix
get_or-rprefix input zero i h = absurd (omega arith)
get_or-rprefix input (suc p) zero h = let e : suc p - 1 - 0 ≡ p = omega arith in rw e refl
get_or-rprefix input (suc p) (suc i) h =
    let e : suc p - 1 - suc i ≡ p - 1 - i = omega arith in
    rw e (get_or-rprefix input p i (omega arith))

-- The copy of a match goes on with the input where the bytes agree.
pub copy_match-rprefix :
    (run distance : ℕ) (input : List ℕ) (p : ℕ)
    → 1 ≤ distance
    → distance ≤ p
    → Agree input (p - distance) p run
    → copy_match run distance (rprefix input p) ≡ rprefix input (p + run)
unfolding copy_match rprefix Agree
copy_match-rprefix zero distance input p lo hi agree = let e : p + 0 ≡ p = omega arith in rw e refl
copy_match-rprefix (suc run) distance input p lo hi agree =
    let first = agree 0 (omega arith) in
    let a : p - distance + 0 ≡ p - 1 - (distance - 1) = omega arith in
    let b : p + 0 ≡ p = omega arith in
    let next : get_or (rprefix input p) (distance - 1) 0 ≡ byte_at input p =
      get_or-rprefix input p (distance - 1) (omega arith) ∙ (rw (a, b) at first) in
    let c : p + suc run ≡ suc p + run = omega arith in
    rw (next, c)
      (copy_match-rprefix run distance input (suc p) lo (omega arith) (λ i h.
        let d : suc p - distance + i ≡ p - distance + suc i = omega arith in
        let e : suc p + i ≡ p + suc i = omega arith in rw (d, e) (agree (suc i) (omega arith))))

take-next :
    (input : List ℕ) (p : ℕ)
    → p < length input
    → take p input ++ (byte_at input p ∷ []) ≡ take (suc p) input
take-next [] p h = absurd (omega arith)
take-next (x ∷ xs) zero h = refl
take-next (x ∷ xs) (suc p) h = ap (λ t. x ∷ t) (take-next xs p (omega arith))

reverse-rprefix :
    (input : List ℕ) (p : ℕ) → p ≤ length input → reverse (rprefix input p) ≡ take p input
unfolding rprefix
reverse-rprefix input zero h = refl
reverse-rprefix input (suc p) h =
    reverse-cons (byte_at input p) (rprefix input p)
    ∙ ap (λ t. t ++ (byte_at input p ∷ [])) (reverse-rprefix input p (omega arith))
    ∙ take-next input p (omega arith)

take_all : (input : List ℕ) → take (length input) input ≡ input
take_all [] = refl
take_all (x ∷ xs) = ap (λ t. x ∷ t) (take_all xs)

pub reverse-rprefix_all : (input : List ℕ) → reverse (rprefix input (length input)) ≡ input
reverse-rprefix_all input = reverse-rprefix input (length input) (omega arith) ∙ take_all input

-- The bytes stand in the array from a place on.
pub record Holds (array : List ℕ) (at : ℕ) (bytes : List ℕ) : Type 0 where
  pub within : at + length bytes ≤ length array
  pub same : (i : ℕ) → i < length bytes → byte_at array (at + i) ≡ byte_at bytes i

get_or-append_left : (xs ys : List ℕ) (i : ℕ) → i < length xs → byte_at (xs ++ ys) i ≡ byte_at xs i
get_or-append_left [] ys i h = absurd (omega arith)
get_or-append_left (x ∷ xs) ys zero h = refl
get_or-append_left (x ∷ xs) ys (suc i) h = get_or-append_left xs ys i (omega arith)

get_or-append_right : (xs ys : List ℕ) (i : ℕ) → byte_at (xs ++ ys) (length xs + i) ≡ byte_at ys i
get_or-append_right [] ys i = let e : 0 + i ≡ i = omega arith in rw e refl
get_or-append_right (x ∷ xs) ys i =
    let e : suc (length xs) + i ≡ suc (length xs + i) = omega arith in
    rw e (get_or-append_right xs ys i)

module _ (array : List ℕ) (at : ℕ) (xs ys : List ℕ) (h : Holds array at (xs ++ ys)) where
  pub Holds-left : Holds array at xs
  Holds-left = record {
    within = omega (arith, h.within, length-append xs ys);
    same =
        λ i small. h.same i (omega (arith, length-append xs ys)) ∙ get_or-append_left xs ys i small;
  }

  pub Holds-right : Holds array (at + length xs) ys
  Holds-right = record {
    within = omega (arith, h.within, length-append xs ys);
    same = λ i small.
        let e : at + length xs + i ≡ at + (length xs + i) = omega arith in
        rw e (
          h.same (length xs + i) (omega (arith, length-append xs ys))
          ∙ get_or-append_right xs ys i);
  }

pub Holds-self : (array : List ℕ) → Holds array 0 array
Holds-self array = record {
  within = omega arith;
  same = λ i h. let e : 0 + i ≡ i = omega arith in rw e refl;
}
