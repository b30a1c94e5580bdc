-- ===== src/Prelude/Bits.antt =====
-- Laws of `bit_and` and `bit_or` at variables, from the digit recursions that they stand for.
use Prim.Native.Nat.{ℕ, zero, suc, ◌+◌, ◌-◌, ◌*◌, ◌/◌, ◌%◌, ◌≤◌, ◌<◌, min, max}
use Prim.Native.Nat.{
  bit_and, bit_or, bit_xor, differ, digits, bit_and-bitwise, bit_or-bitwise, bit_xor-bitwise,
}
use mathlib.Core.Path.{◌≡◌, refl, sym, ap, ◌∙◌}
use native.Mathlib.Decide.{ℕ_discrete}
use native.Mathlib.Nat.{suc-add, mul_assoc}
use native.Mathlib.Omega.{arith}

-- Both operations are one recursion over the digits of the left operand: `rest` is taken where they
-- have run out and `pair` joins two digits. More fuel than the left operand changes nothing.
module _ (rest : ℕ → ℕ) (pair : ℕ → ℕ → ℕ) where
  digits_none : (fuel right : ℕ) → digits rest pair fuel 0 right ≡ rest right
  digits_none zero right = refl
  digits_none (suc fuel) right = refl

  digits_enough :
      (fuel extra left right : ℕ)
      → left ≤ fuel
      → digits rest pair (fuel + extra) left right ≡ digits rest pair fuel left right
  digits_enough fuel extra zero right h =
      digits_none (fuel + extra) right ∙ sym (digits_none fuel right)
  digits_enough zero extra (suc left) right h = absurd (omega arith)
  digits_enough (suc fuel) extra (suc left) right h = rw (suc-add fuel extra) (
      ap (λ t. t * 2 + pair (suc left % 2) (right % 2))
        (digits_enough fuel extra (suc left / 2) (right / 2) (omega arith)))

  -- One digit of an operation that is this recursion.
  digits_step :
      (op : ℕ → ℕ → ℕ)
      → ((a b : ℕ) → op a b ≡ digits rest pair a a b)
      → (a b : ℕ) → op (suc a) b ≡ op (suc a / 2) (b / 2) * 2 + pair (suc a % 2) (b % 2)
  digits_step op bitwise a b =
      let split : suc a / 2 + (a - suc a / 2) ≡ a = omega arith in
      let less = digits_enough (suc a / 2) (a - suc a / 2) (suc a / 2) (b / 2) (omega arith) in
      bitwise (suc a) b
      ∙ ap (λ t. t * 2 + pair (suc a % 2) (b % 2))
          ((rw split at less) ∙ sym (bitwise (suc a / 2) (b / 2)))

-- The lowest digit of a conjunction, and the rest.
pub bit_and_step :
    (left right : ℕ)
    → bit_and left right ≡ min (left % 2) (right % 2) + bit_and (left / 2) (right / 2) * 2
bit_and_step zero right =
    let whole = bit_and-bitwise 0 right in
    let half = bit_and-bitwise 0 (right / 2) in omega (arith, whole, half)
bit_and_step (suc left) right =
    let step = digits_step (λ rest. zero) min bit_and bit_and-bitwise left right in
    omega (arith, step)

nothing_left : (bound a : ℕ) → a ≤ bound → bit_and a 0 ≡ 0
nothing_left zero a h = let z : a ≡ 0 = omega arith in rw z refl
nothing_left (suc bound) a h = elim (ℕ_discrete a 0) [
  | yes z ↦ rw z refl
  | no some_left ↦ omega (arith, bit_and_step a 0, nothing_left bound (a / 2) (omega arith))
]

pub bit_and-zero : (left : ℕ) → bit_and left 0 ≡ 0
bit_and-zero left = nothing_left left left (omega arith)

-- The lowest bit.
pub bit_and-one : (left : ℕ) → bit_and left 1 ≡ left % 2
bit_and-one left =
    let rest = bit_and-zero (left / 2) in
    let lowest = bit_and_step left 1 in omega (arith, lowest, rest)

pub bit_and-fifteen : (a : ℕ) → bit_and a 15 ≡ a % 16
bit_and-fifteen a = omega (
  arith,
  bit_and_step a 15,
  bit_and_step (a / 2) 7,
  bit_and_step (a / 2 / 2) 3,
  bit_and-one (a / 2 / 2 / 2),
)

-- A mask of eight ones keeps the low byte.
pub bit_and-byte : (a : ℕ) → bit_and a 255 ≡ a % 256
bit_and-byte a = omega (
  arith,
  bit_and_step a 255,
  bit_and_step (a / 2) 127,
  bit_and_step (a / 2 / 2) 63,
  bit_and_step (a / 2 / 2 / 2) 31,
  bit_and-fifteen (a / 2 / 2 / 2 / 2),
)

pub zero-bit_or : (b : ℕ) → bit_or 0 b ≡ b
zero-bit_or b = bit_or-bitwise 0 b

-- The lowest digit of a disjunction, and the rest.
pub bit_or_step : (a b : ℕ) → bit_or a b ≡ bit_or (a / 2) (b / 2) * 2 + max (a % 2) (b % 2)
bit_or_step zero b = omega (arith, zero-bit_or b, zero-bit_or (b / 2))
bit_or_step (suc a) b = digits_step (λ right. right) max bit_or bit_or-bitwise a b

all_left : (bound a : ℕ) → a ≤ bound → bit_or a 0 ≡ a
all_left zero a h = let z : a ≡ 0 = omega arith in rw z refl
all_left (suc bound) a h = elim (ℕ_discrete a 0) [
  | yes z ↦ rw z refl
  | no some_left ↦ omega (arith, bit_or_step a 0, all_left bound (a / 2) (omega arith))
]

pub bit_or-zero : (a : ℕ) → bit_or a 0 ≡ a
bit_or-zero a = all_left a a (omega arith)

unfoldable pub two_to : ℕ → ℕ
two_to zero = 1
two_to (suc k) = two_to k * 2

-- A number below a power of two and a multiple of that power do not meet.
pub bit_or-low :
    (k low high m : ℕ) → low < two_to k → high ≡ m * two_to k → bit_or low high ≡ low + high
unfolding two_to
bit_or-low zero low high m h e =
    let none_left : low ≡ 0 = omega arith in rw none_left (omega (arith, zero-bit_or high))
bit_or-low (suc k) low high m h e =
    let grouped = mul_assoc m (two_to k) 2 in
    let half : high / 2 ≡ m * two_to k = omega (arith, e, grouped) in
    let even : high % 2 ≡ 0 = omega (arith, e, grouped) in
    let less = bit_or-low k (low / 2) (high / 2) m (omega arith) half in
    omega (arith, bit_or_step low high, less, even)

both_ways : (bound a b : ℕ) → a ≤ bound → bit_or a b ≡ bit_or b a
both_ways zero a b h =
    let none_left : a ≡ 0 = omega arith in
    rw none_left (omega (arith, zero-bit_or b, bit_or-zero b))
both_ways (suc bound) a b h = elim (ℕ_discrete a 0) [
  | yes z ↦ rw z (omega (arith, zero-bit_or b, bit_or-zero b))
  | no some_left ↦
      let less = both_ways bound (a / 2) (b / 2) (omega arith) in
      omega (arith, bit_or_step a b, bit_or_step b a, less)
]

pub bit_or_comm : (a b : ℕ) → bit_or a b ≡ bit_or b a
bit_or_comm a b = both_ways a a b (omega arith)

-- An even number and a bit do not meet.
pub bit_or-even : (a b : ℕ) → a % 2 ≡ 0 → b < 2 → bit_or a b ≡ a + b
bit_or-even a b e h =
    let none_left : b / 2 ≡ 0 = omega arith in
    omega (arith, rw none_left at (bit_or_step a b), bit_or-zero (a / 2))

bit_or-four : (a b : ℕ) → a % 4 ≡ 0 → b < 4 → bit_or a b ≡ a + b
bit_or-four a b e h =
    omega (arith, bit_or_step a b, bit_or-even (a / 2) (b / 2) (omega arith) (omega arith))

pub bit_or-sixteen : (a b : ℕ) → a % 16 ≡ 0 → b < 16 → bit_or a b ≡ a + b
bit_or-sixteen a b e h = omega (
  arith,
  bit_or_step a b,
  bit_or_step (a / 2) (b / 2),
  bit_or-four (a / 2 / 2) (b / 2 / 2) (omega arith) (omega arith),
)

-- A number without a low byte and a byte do not meet.
pub bit_or-byte : (a b : ℕ) → a % 256 ≡ 0 → b < 256 → bit_or a b ≡ a + b
bit_or-byte a b e h = omega (
  arith,
  bit_or_step a b,
  bit_or_step (a / 2) (b / 2),
  bit_or_step (a / 2 / 2) (b / 2 / 2),
  bit_or_step (a / 2 / 2 / 2) (b / 2 / 2 / 2),
  bit_or-sixteen (a / 2 / 2 / 2 / 2) (b / 2 / 2 / 2 / 2) (omega arith) (omega arith),
)

-- A disjunction without a digit has none on either side.
pub bit_or-eq-zero : (bound a b : ℕ) → a ≤ bound → bit_or a b ≡ 0 → (a ≡ 0) × (b ≡ 0)
bit_or-eq-zero zero a b h e =
    let none_left : a ≡ 0 = omega arith in
    (none_left, sym (zero-bit_or b) ∙ ap (λ t. bit_or t b) (sym none_left) ∙ e)
bit_or-eq-zero (suc bound) a b h e = elim (ℕ_discrete a 0) [
  | yes z ↦ (z, sym (zero-bit_or b) ∙ ap (λ t. bit_or t b) (sym z) ∙ e)
  | no some_left ↦
      let step = bit_or_step a b in
      let rest = bit_or-eq-zero bound (a / 2) (b / 2) (omega arith) (omega (arith, step, e)) in
      (omega (arith, step, e, rest), omega (arith, step, e, rest))
]

-- A disjunction of bytes is a byte.
pub bit_or_bound : (k a b : ℕ) → a < two_to k → b < two_to k → bit_or a b < two_to k
unfolding two_to
bit_or_bound zero a b h h' =
    let z : a ≡ 0 = omega arith in
    let e = ap (λ t. bit_or t b) z ∙ zero-bit_or b in omega (arith, e)
bit_or_bound (suc k) a b h h' =
    omega (arith, bit_or_step a b, bit_or_bound k (a / 2) (b / 2) (omega arith) (omega arith))

differ_lem : (x y : ℕ) → differ x y ≡ x - y + (y - x)
differ_lem zero y = omega arith
differ_lem (suc x) zero = omega arith
differ_lem (suc x) (suc y) = omega (arith, differ_lem x y)

zero-bit_xor : (b : ℕ) → bit_xor 0 b ≡ b
zero-bit_xor b = bit_xor-bitwise 0 b

bit_xor_step :
    (a b : ℕ) → bit_xor a b ≡ bit_xor (a / 2) (b / 2) * 2 + (a % 2 - b % 2 + (b % 2 - a % 2))
bit_xor_step zero b = omega (arith, zero-bit_xor b, zero-bit_xor (b / 2))
bit_xor_step (suc a) b = omega (
  arith,
  digits_step (λ right. right) differ bit_xor bit_xor-bitwise a b,
  differ_lem (suc a % 2) (b % 2),
)

-- Numbers whose digits do not differ are equal.
pub bit_xor-eq-zero : (bound a b : ℕ) → a ≤ bound → bit_xor a b ≡ 0 → a ≡ b
bit_xor-eq-zero zero a b h e =
    let z : a ≡ 0 = omega arith in
    let w : b ≡ 0 = sym (zero-bit_xor b) ∙ ap (λ t. bit_xor t b) (sym z) ∙ e in omega (arith, w)
bit_xor-eq-zero (suc bound) a b h e = elim (ℕ_discrete a 0) [
  | yes z ↦
      let w : b ≡ 0 = sym (zero-bit_xor b) ∙ ap (λ t. bit_xor t b) (sym z) ∙ e in
      omega (arith, w, z)
  | no some_left ↦
      let step = bit_xor_step a b in
      let rest = bit_xor-eq-zero bound (a / 2) (b / 2) (omega arith) (omega (arith, step, e)) in
      omega (arith, step, e, rest)
]

pub bit_xor_bound : (k a b : ℕ) → a < two_to k → b < two_to k → bit_xor a b < two_to k
unfolding two_to
bit_xor_bound zero a b h h' =
    let z : a ≡ 0 = omega arith in
    let e = ap (λ t. bit_xor t b) z ∙ zero-bit_xor b in omega (arith, e)
bit_xor_bound (suc k) a b h h' =
    omega (arith, bit_xor_step a b, bit_xor_bound k (a / 2) (b / 2) (omega arith) (omega arith))
