-- ===== src/Runtime/Tests.antt =====
-- The theorems on kernel/parts/div64_runtime.inc at concrete inputs.
use zenov_os.Prelude.{ℕ, ◌/◌, ◌%◌, ◌≡◌, inl, arith}
use zenov_os.Prelude.Int.{pos, negsuc}
use zenov_os.Runtime.Div64.{udivdi3, umoddi3, divdi3}
use zenov_os.Runtime.Div64.Exactness.{udivmoddi4_lem}
use zenov_os.Runtime.Div64.Signs.{divdi3_lem}

abbrev long_word : ℕ
long_word = 9223372036854775813

udivmoddi4_lem_example :
    (udivdi3 long_word 3000000007 ≡ long_word / 3000000007)
    × (umoddi3 long_word 3000000007 ≡ long_word % 3000000007)
udivmoddi4_lem_example =
    udivmoddi4_lem long_word 3000000007 (omega arith) (omega arith) (λ e. omega (arith, e))

-- -7 / 2 is -3.
divdi3_lem_example : divdi3 (negsuc 6) (pos 2) ≡ negsuc 2
divdi3_lem_example =
    divdi3_lem (negsuc 6) (pos 2) (omega arith, omega arith) (omega arith, omega arith)
      (λ e. omega (arith, e)) (inl (omega arith))
