-- ===== src/Storage/LivePacker/Scan.antt =====
-- The scans of the packer: the zeros in front of a chunk, and its end.
use zenov_os.Prelude.{
  ℕ, zero, suc, ◌+◌, ◌≡◌, ◌<◌, refl, ap, inl, inr, [], ◌∷◌, ◌++◌, length, drop, replicate, ◌==◌,
  arith, Bool-cases, length-append,
}
use zenov_os.Prelude.Bytes.{Bytes}
use zenov_os.Storage.LivePacker.Chunks.{leading_zeros, last_nonzero}

pub replicate-leading_zeros :
    (xs : Bytes) → replicate (leading_zeros xs) 0 ++ drop (leading_zeros xs) xs ≡ xs
unfolding leading_zeros
replicate-leading_zeros [] = refl
replicate-leading_zeros (x ∷ xs) = elim (Bool-cases (x == 0)) [
  | inl e ↦
      let same : 0 ≡ x = ground arith in
      rw e (rw (replicate-leading_zeros xs) (ap (λ t. t ∷ xs) same))
  | inr e ↦ rw e refl
]

pub last_nonzero_bounds :
    (xs : Bytes) (i last : ℕ) → last < i → last_nonzero xs i last < i + length xs
unfolding last_nonzero
last_nonzero_bounds [] i last h = omega arith
last_nonzero_bounds (x ∷ xs) i last h = ground (
  arith,
  last_nonzero_bounds xs (i + 1) i (omega arith),
  last_nonzero_bounds xs (i + 1) last (omega arith),
)

length-zeros : (n : ℕ) → length (replicate {A = ℕ} n 0) ≡ n
length-zeros zero = refl
length-zeros (suc n) = ap suc (length-zeros n)

pub length-leading_zeros :
    (bytes : Bytes) → leading_zeros bytes + length (drop (leading_zeros bytes) bytes) ≡ length bytes
length-leading_zeros bytes =
    let n = leading_zeros bytes in
    omega (
      arith,
      length-zeros n,
      length-append (replicate {A = ℕ} n 0) (drop n bytes),
      ap length (replicate-leading_zeros bytes),
    )
