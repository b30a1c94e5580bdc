-- ===== src/Runtime/Div64/Signs.antt =====
-- The signed division of kernel/parts/div64_runtime.inc.
use zenov_os.Prelude.{
  ℕ, zero, suc, ◌+◌, ◌/◌, ◌<◌, ◌≤◌, ◌≡◌, ◌≢◌, refl, arith, Bool, true, false, not, ◌⊎◌, inl, inr,
  Bool-cases, ◌==◌, if◌then◌else◌, u64, ltb,
}
use native.Mathlib.Nat.{div-le_self, div-lt_self}
use zenov_os.Prelude.Int.{ℤ, pos, negsuc, pos_part, neg_part, sub_ℕ, ◌+ℤ◌, ◌-ℤ◌, ltb_ℤ}
use zenov_os.Runtime.Div64.{divdi3, magnitude, to_int64}
use zenov_os.Runtime.Div64.Exactness.{udivmoddi4_lem}

-- A value of `int64_t`.
abbrev pub IsInt64 : ℤ → Type 0
IsInt64 n = (pos_part n < 9223372036854775808) × (neg_part n ≤ 9223372036854775808)

abbrev pub absolute : ℤ → ℕ
absolute n = pos_part n + neg_part n

abbrev pub signs_differ : ℤ → ℤ → Bool
signs_differ n d = if ltb_ℤ n (pos 0) then not (ltb_ℤ d (pos 0)) else ltb_ℤ d (pos 0)

-- The quotient that is cut towards zero.
abbrev pub quotient_of : ℤ → ℤ → ℤ
quotient_of n d =
    if signs_differ n d then sub_ℕ 0 (absolute n / absolute d) else pos (absolute n / absolute d)

magnitude_lem : (n : ℤ) → IsInt64 n → magnitude n ≡ absolute n
unfolding ◌+ℤ◌ ◌-ℤ◌
magnitude_lem (pos n) h = ground arith
magnitude_lem (negsuc zero) h = refl
magnitude_lem (negsuc (suc n)) h = ground arith

-- The last step: the quotient's sign.
signed_lem :
    (quotient : ℕ)
    → quotient ≤ 9223372036854775808
    → pos 0 -ℤ to_int64 (u64 (quotient + 18446744073709551615)) -ℤ pos 1 ≡ sub_ℕ 0 quotient
unfolding ◌-ℤ◌
signed_lem zero h = refl
signed_lem (suc quotient) h =
    let before : u64 (suc quotient + 18446744073709551615) ≡ quotient = omega arith in
    let small : ltb quotient 9223372036854775808 ≡ true = ground arith in
    rw (before, small) (ground arith)

not_zero : (x : ℕ) → x ≢ 0 → (x == 0) ≡ false
not_zero x h = ground arith

absolute_bound : (n : ℤ) → IsInt64 n → absolute n ≤ 9223372036854775808
absolute_bound (pos n) h = omega arith
absolute_bound (negsuc n) h = omega arith

-- Where the signs agree, the quotient has a place among the positive numbers.
small_quotient :
    (n d : ℤ)
    → IsInt64 n
    → (neg_part n < 9223372036854775808) ⊎ (neg_part d ≢ 1)
    → signs_differ n d ≡ false
    → ltb (absolute n / absolute d) 9223372036854775808 ≡ true
small_quotient (pos n) d h fits agree =
    let bound = div-le_self n (absolute d) in ground (arith, bound)
small_quotient (negsuc n) (pos d) h fits agree = absurd (ground arith)
small_quotient (negsuc n) (negsuc d) h (inl small) agree =
    let bound = div-le_self (suc n) (suc d) in ground (arith, bound)
small_quotient (negsuc n) (negsuc d) h (inr more) agree =
    let positive : 0 < suc n = omega arith in
    let several : 1 < suc d = omega arith in
    let bound = div-lt_self positive several in ground (arith, bound)

-- The signed division cuts the quotient towards zero, for all values of `int64_t` but a zero
-- denominator and the one quotient that has no place there, the least number by -1.
pub divdi3_lem :
    (n d : ℤ)
    → IsInt64 n
    → IsInt64 d
    → absolute d ≢ 0
    → (neg_part n < 9223372036854775808) ⊎ (neg_part d ≢ 1)
    → divdi3 n d ≡ quotient_of n d
unfolding divdi3
divdi3_lem n d hn hd nonzero fits =
    let some_denominator = not_zero (absolute d) nonzero in
    let bn = absolute_bound n hn in
    let bd = absolute_bound d hd in
    let exact =
      (udivmoddi4_lem (absolute n) (absolute d) (omega (arith, bn)) (omega (arith, bd))
        nonzero).0 in
    let small = div-le_self (absolute n) (absolute d) in
    elim (Bool-cases (signs_differ n d)) [
      | inl differ ↦
          rw (divdi3, some_denominator, magnitude_lem n hn, magnitude_lem d hd, exact, differ)
            (signed_lem (absolute n / absolute d) (omega (arith, small, bn)))
      | inr agree ↦
          let low = small_quotient n d hn fits agree in
          rw (divdi3, some_denominator, magnitude_lem n hn, magnitude_lem d hd, exact, agree, low)
            refl
    ]
