-- ===== src/Runtime/Div64.antt =====
-- kernel/parts/div64_runtime.inc: division of 64-bit words. A remainder that is returned through a
-- pointer is the second component.
pub mod Exactness
pub mod Signs
use zenov_os.Prelude.{
  ℕ, zero, suc, ◌+◌, ◌-◌, ◌*◌, ◌/◌, ◌%◌, ◌<◌, ◌≤◌, ◌≡◌, ◌≢◌, refl, sym, ap, subst, ◌∙◌, Option,
  none, some, arith, List, [], ◌∷◌, Bool, true, false, not, ◌&&◌, ◌||◌, ◌⊎◌, inl, inr, get_or, set,
  length, length-set, get_or-set_self, get_or-set_ne, get_or-set_default, get_or-replicate,
  length-replicate, count_if, count_if-set, count_if-le, to_nat, ℕ_discrete, Option-cases,
  Bool-cases, ◌==◌, ◌/=◌, if◌then◌else◌, bit_and, bit_or, bit_xor, ◌↔◌, take, drop, map, ◌++◌,
  length-append, u32, u64, u16, u8, ltb, leb, replicate,
}
use zenov_os.Prelude.Bits.{two_to}
use zenov_os.Prelude.Int.{ℤ, pos, negsuc, pos_part, neg_part, ◌+ℤ◌, ◌-ℤ◌, ltb_ℤ}

-- The loop from bit `bits - 1` down to bit 0, on the quotient and the remainder.
unfoldable pub divide_bits : ℕ → ℕ → ℕ → ℕ → ℕ → ℕ × ℕ
unfolding two_to
divide_bits zero numerator denominator quotient remainder = (quotient, remainder)
divide_bits (suc bit) numerator denominator quotient remainder =
    let shifted = bit_or (u64 (remainder * 2)) (bit_and (numerator / two_to bit) 1) in
    let fits = leb denominator shifted in
    divide_bits bit numerator denominator (if fits then bit_or quotient (two_to bit) else quotient)
      (if fits then shifted - denominator else shifted)

unfoldable pub udivmoddi4 : ℕ → ℕ → ℕ × ℕ
unfolding divide_bits
udivmoddi4 numerator denominator =
    if denominator == 0
    then (0, 0)
    else if numerator / 4294967296 == 0 && denominator / 4294967296 == 0
    then (u32 numerator / u32 denominator, u32 numerator % u32 denominator)
    else divide_bits 64 numerator denominator 0 0

unfoldable pub udivdi3 : ℕ → ℕ → ℕ
unfolding udivmoddi4
udivdi3 numerator denominator = (udivmoddi4 numerator denominator).0

unfoldable pub umoddi3 : ℕ → ℕ → ℕ
unfolding udivmoddi4
umoddi3 numerator denominator = (udivmoddi4 numerator denominator).1

-- Casts between `int64_t` and `uint64_t`.
abbrev pub to_uint64 : ℤ → ℕ
to_uint64 (pos n) = u64 n
to_uint64 (negsuc n) = 18446744073709551615 - n

abbrev pub to_int64 : ℕ → ℤ
to_int64 n = if ltb n 9223372036854775808 then pos n else negsuc (18446744073709551615 - n)

abbrev pub magnitude : ℤ → ℕ
magnitude n = if ltb_ℤ n (pos 0) then u64 (to_uint64 (pos 0 -ℤ (n +ℤ pos 1)) + 1) else to_uint64 n

unfoldable pub divdi3 : ℤ → ℤ → ℤ
unfolding udivdi3
divdi3 numerator denominator =
    let negative =
      if ltb_ℤ numerator (pos 0)
      then not (ltb_ℤ denominator (pos 0))
      else ltb_ℤ denominator (pos 0) in
    let quotient = udivdi3 (magnitude numerator) (magnitude denominator) in
    if pos_part denominator + neg_part denominator == 0
    then pos 0
    else if not negative
    then to_int64 quotient
    else pos 0 -ℤ to_int64 (u64 (quotient + 18446744073709551615)) -ℤ pos 1
