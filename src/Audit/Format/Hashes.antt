-- ===== src/Audit/Format/Hashes.antt =====
-- The hashes of the audit journal: what `same_hash` decides, and what is hashed for a record.
use zenov_os.Prelude.{
  ℕ, zero, suc, ◌+◌, ◌/◌, ◌<◌, ◌≡◌, refl, sym, ap, ◌∙◌, arith, [], ◌∷◌, ◌++◌, true, inl, inr,
  length, length-append, bit_or, bit_xor, u8, u64, ltb, ◌==◌, Bool-cases,
}
use zenov_os.Prelude.Bits.{two_to, bit_or-eq-zero, bit_or_bound, bit_xor-eq-zero, bit_xor_bound}
use zenov_os.Prelude.Bytes.{Bytes, all_bytes}
use zenov_os.Prelude.Bytes.Laws.{all_bytes-append}
use zenov_os.Audit.Digest.{
  Sha256, sha_init, sha_update, sha_final, sha256, add_bytes, transform_full, put_byte, store_be32,
  store_state,
}
use zenov_os.Package.Sha256.{Words}
use zenov_os.Audit.Format.{Record, difference_of, same_hash, record_hash, metadata_of, domain}

-- Thirty-two bytes.
unfoldable pub IsHash : Bytes → Type 0
IsHash hash = (length hash ≡ 32) × (all_bytes (λ b. ltb b 256) hash ≡ true)

difference_lem :
    (size difference : ℕ) (left right : Bytes)
    → difference < 256
    → length left ≡ size
    → length right ≡ size
    → all_bytes (λ b. ltb b 256) left ≡ true
    → all_bytes (λ b. ltb b 256) right ≡ true
    → difference_of size difference left right ≡ 0
    → (difference ≡ 0) × (left ≡ right)
unfolding difference_of all_bytes two_to
difference_lem zero d [] [] low a b l r h = (h, refl)
difference_lem zero d [] (y ∷ ys) low a b l r h = absurd (omega arith)
difference_lem zero d (x ∷ xs) ys low a b l r h = absurd (omega arith)
difference_lem (suc n) d [] ys low a b l r h = absurd (omega arith)
difference_lem (suc n) d (x ∷ xs) [] low a b l r h = absurd (omega arith)
difference_lem (suc n) d (x ∷ xs) (y ∷ ys) low a b l r h =
    let x_low : x < 256 = ground arith in
    let y_low : y < 256 = ground arith in
    let xor_low = bit_xor_bound 8 x y x_low y_low in
    let or_low = bit_or_bound 8 d (bit_xor x y) low xor_low in
    let rest =
      difference_lem n (u8 (bit_or d (bit_xor x y))) xs ys (omega arith) (omega arith) (omega arith)
        (ground arith) (ground arith) h in
    let none : bit_or d (bit_xor x y) ≡ 0 = omega (arith, or_low, rest.0) in
    let both = bit_or-eq-zero d d (bit_xor x y) (omega arith) none in
    let same = bit_xor-eq-zero x x y (omega arith) both.1 in
    (both.0, ap (λ t. t ∷ xs) same ∙ ap (λ t. y ∷ t) rest.1)

-- `same_hash` decides whether two hashes are equal.
pub same_hash_lem :
    (left right : Bytes) → IsHash left → IsHash right → same_hash left right ≡ true → left ≡ right
unfolding same_hash IsHash
same_hash_lem left right l r h =
    let none : difference_of 32 0 left right ≡ 0 = ground arith in
    (difference_lem 32 0 left right (omega arith) l.0 r.0 l.1 r.1 none).1

store_be32_bytes : (v : ℕ) → all_bytes (λ b. ltb b 256) (store_be32 v) ≡ true
unfolding store_be32 all_bytes
store_be32_bytes v =
    let low : (n : ℕ) → ltb (u8 n) 256 ≡ true = λ n. ground arith in
    rw (low (v / 16777216), low (v / 65536), low (v / 256), low v) refl

pub joined :
    (xs ys : Bytes)
    → all_bytes (λ b. ltb b 256) xs ≡ true
    → all_bytes (λ b. ltb b 256) ys ≡ true
    → all_bytes (λ b. ltb b 256) (xs ++ ys) ≡ true
joined xs ys h k = rw (all_bytes-append (λ b. ltb b 256) xs ys, h, k) refl

store_state-IsHash : (s : Words) → IsHash (store_state s)
unfolding IsHash store_state
store_state-IsHash s = (
  unfold store_be32 in refl,
  joined _ _
      (joined _ _
        (joined _ _
          (joined _ _
            (joined _ _
              (joined _ _ (joined _ _ (store_be32_bytes s.a) (store_be32_bytes s.b))
                (store_be32_bytes s.c))
              (store_be32_bytes s.d))
            (store_be32_bytes s.e))
          (store_be32_bytes s.f))
        (store_be32_bytes s.g))
      (store_be32_bytes s.h),
)

pub record_hash-IsHash : (r : Record) (previous : Bytes) → IsHash (record_hash r previous)
unfolding record_hash sha_final
record_hash-IsHash r previous = store_state-IsHash _

-- Updates one after the other.
byte_total :
    (c : Sha256) (x n : ℕ)
    → transform_full (put_byte (record c { total = n }) x)
      ≡ record (transform_full (put_byte c x)) { total = n }
unfolding transform_full
byte_total c x n = elim (Bool-cases (c.used + 1 == 64)) [ inl e ↦ rw e refl | inr e ↦ rw e refl ]

add_bytes_total :
    (c : Sha256) (xs : Bytes) (n : ℕ)
    → add_bytes (record c { total = n }) xs ≡ record (add_bytes c xs) { total = n }
unfolding add_bytes
add_bytes_total c [] n = refl
add_bytes_total c (x ∷ xs) n =
    ap (λ t. add_bytes t xs) (byte_total c x n)
    ∙ add_bytes_total (transform_full (put_byte c x)) xs n

add_bytes-append :
    (c : Sha256) (xs ys : Bytes) → add_bytes (add_bytes c xs) ys ≡ add_bytes c (xs ++ ys)
unfolding add_bytes
add_bytes-append c [] ys = refl
add_bytes-append c (x ∷ xs) ys = add_bytes-append (transform_full (put_byte c x)) xs ys

sha_update-append :
    (c : Sha256) (xs ys : Bytes) → sha_update (sha_update c xs) ys ≡ sha_update c (xs ++ ys)
unfolding sha_update
sha_update-append c xs ys =
    let n = u64 (c.total + length xs) in
    let whole : u64 (n + length ys) ≡ u64 (c.total + length (xs ++ ys)) =
      omega (arith, length-append xs ys) in
    ap (λ (t : Sha256). add_bytes (record t { total = u64 (t.total + length ys) }) ys)
      (add_bytes_total c xs n)
    ∙ add_bytes_total (add_bytes c xs) ys (u64 (n + length ys))
    ∙ ap (λ (t : Sha256). record t { total = u64 (n + length ys) }) (add_bytes-append c xs ys)
    ∙ ap (λ k. record (add_bytes c (xs ++ ys)) { total = k }) whole
    ∙ sym (add_bytes_total c (xs ++ ys) (u64 (c.total + length (xs ++ ys))))

-- The bytes that are hashed for a record behind the hash of the one before.
unfoldable pub hashed : Record → Bytes → Bytes
hashed r previous = (((domain ++ previous) ++ metadata_of r) ++ r.path) ++ r.digest

pub record_hash-sha256 :
    (r : Record) (previous : Bytes) → record_hash r previous ≡ sha256 (hashed r previous)
unfolding record_hash sha256 hashed
record_hash-sha256 r previous =
    let first = sha_update-append sha_init domain previous in
    let second = sha_update-append sha_init (domain ++ previous) (metadata_of r) in
    let third = sha_update-append sha_init ((domain ++ previous) ++ metadata_of r) r.path in
    let fourth =
      sha_update-append sha_init (((domain ++ previous) ++ metadata_of r) ++ r.path) r.digest in
    ap (λ t. sha_final (sha_update (sha_update (sha_update t (metadata_of r)) r.path) r.digest))
      first
    ∙ ap (λ t. sha_final (sha_update (sha_update t r.path) r.digest)) second
    ∙ ap (λ t. sha_final (sha_update t r.digest)) third
    ∙ ap sha_final fourth
