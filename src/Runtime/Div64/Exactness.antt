-- ===== src/Runtime/Div64/Exactness.antt =====
-- The restoring division of kernel/parts/div64_runtime.inc is exact.
use zenov_os.Prelude.{
  ℕ, zero, suc, ◌+◌, ◌-◌, ◌*◌, ◌/◌, ◌%◌, ◌<◌, ◌≤◌, ◌≡◌, ◌≢◌, refl, ◌∙◌, arith, false, ◌&&◌, inl,
  inr, Bool-cases, ◌==◌, bit_and, bit_or, u32, u64, leb,
}
use native.Mathlib.Nat.{
  div-div-eq-div-mul, mul-add-div_right, div-eq_of_lt, mod-add-div', div-le_self, mul_assoc,
}
use zenov_os.Prelude.Bits.{two_to, bit_and-one, bit_or-even, bit_or-low, bit_or_comm}
use zenov_os.Runtime.Div64.{divide_bits, udivmoddi4, udivdi3, umoddi3}

-- Quotient and remainder.
IsDivision : ℕ → ℕ → ℕ × ℕ → Type 0
IsDivision numerator denominator result =
    (result.0 * denominator + result.1 ≡ numerator) × (result.1 < denominator)

abbrev shifted_in : ℕ → ℕ → ℕ → ℕ
shifted_in n bit r = bit_or (u64 (r * 2)) (bit_and (n / two_to bit) 1)

-- The next bit of the numerator is shifted in without a loss.
shifted_in_lem :
    (n bit r : ℕ)
    → n / two_to bit < 18446744073709551616
    → r ≤ n / two_to bit / 2
    → shifted_in n bit r ≡ r * 2 + n / two_to bit % 2
shifted_in_lem n bit r small h =
    let one = bit_and-one (n / two_to bit) in
    let join = bit_or-even (u64 (r * 2)) (n / two_to bit % 2) (omega arith) (omega arith) in
    rw one (omega (arith, join))

two_to_positive : (k : ℕ) → two_to k < two_to k * 2
unfolding two_to
two_to_positive zero = omega arith
two_to_positive (suc k) = let less = two_to_positive k in omega arith

set_bit :
    (bit q m : ℕ) → q ≡ m * (two_to bit * 2) → bit_or q (two_to bit) ≡ (m * 2 + 1) * two_to bit
unfolding two_to
set_bit bit q m e =
    let low = bit_or-low (suc bit) (two_to bit) q m (two_to_positive bit) e in
    omega (arith, low, bit_or_comm q (two_to bit), mul_assoc m (two_to bit) 2, e)

divide_bits-IsDivision :
    (bits n d q r m : ℕ)
    → n < 18446744073709551616
    → r < d
    → q ≡ m * two_to bits
    → n / two_to bits ≡ m * d + r
    → IsDivision n d (divide_bits bits n d q r)
unfolding divide_bits IsDivision two_to
divide_bits-IsDivision zero n d q r m small h eq ed =
    let same : q ≡ m = omega (arith, eq) in
    let whole : m * d + r ≡ n = omega (arith, ed) in (rw same whole, h)
divide_bits-IsDivision (suc bit) n d q r m small h eq ed =
    let halves = div-div-eq-div-mul n (two_to bit) 2 in
    let below : n / two_to bit < 18446744073709551616 = omega (arith, div-le_self n (two_to bit)) in
    let prefix : n / two_to bit / 2 ≡ m * d + r = halves ∙ ed in
    let value = shifted_in_lem n bit r below (omega (arith, prefix)) in
    elim (Bool-cases (leb d (shifted_in n bit r))) [
      | inl fits ↦
          rw (divide_bits, fits)
            (divide_bits-IsDivision bit n d (bit_or q (two_to bit)) (shifted_in n bit r - d)
              (m * 2 + 1) small (omega (arith, value, h)) (set_bit bit q m eq)
              (ground (arith, value, prefix)))
      | inr short ↦
          rw (divide_bits, short)
            (divide_bits-IsDivision bit n d q (shifted_in n bit r) (m * 2) small (ground arith)
              (omega (arith, eq, mul_assoc m (two_to bit) 2)) (omega (arith, value, prefix)))
    ]

-- A quotient and a remainder are the built-in ones.
division_unique : (n d q r : ℕ) → q * d + r ≡ n → r < d → (q ≡ n / d) × (r ≡ n % d)
division_unique n d q r e h =
    let positive : 0 < d = omega arith in
    let quotient : n / d ≡ q + r / d = rw (← e) (mul-add-div_right positive q r) in
    let none_over = div-eq_of_lt h in
    let same : q ≡ n / d = omega (arith, quotient, none_over) in
    let rest = mod-add-div' n d in
    let rest' : n % d + q * d ≡ n = rw same rest in (same, omega (arith, rest', e))

-- The two words that the loop starts with.
divide_bits_64 :
    (n d : ℕ) → n < 18446744073709551616 → 0 < d → IsDivision n d (divide_bits 64 n d 0 0)
unfolding two_to
divide_bits_64 n d small positive =
    let none_yet : n / two_to 64 ≡ 0 = div-eq_of_lt small in
    divide_bits-IsDivision 64 n d 0 0 0 small positive (omega arith) (omega (arith, none_yet))

-- For all 64-bit words, and a denominator that is not zero, the division gives the quotient and the
-- remainder, whichever of its two ways it goes.
pub udivmoddi4_lem :
    (n d : ℕ)
    → n < 18446744073709551616
    → d < 18446744073709551616
    → d ≢ 0
    → (udivdi3 n d ≡ n / d) × (umoddi3 n d ≡ n % d)
unfolding udivdi3 umoddi3 udivmoddi4 IsDivision
udivmoddi4_lem n d hn hd nonzero =
    let some_denominator : (d == 0) ≡ false = ground arith in
    elim (Bool-cases (n / 4294967296 == 0 && d / 4294967296 == 0)) [
      | inl short ↦
          let low : u32 n ≡ n = ground arith in
          let low' : u32 d ≡ d = ground arith in
          rw (udivdi3, umoddi3, udivmoddi4, some_denominator, short, low, low') (refl, refl)
      | inr long ↦
          let (whole, rest) = divide_bits_64 n d hn (omega arith) in
          rw (udivdi3, umoddi3, udivmoddi4, some_denominator, long)
            (division_unique n d _ _ whole rest)
    ]
