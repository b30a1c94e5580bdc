-- ===== src/Package/Sha256/Streaming.antt =====
-- The buffer of tools/zenpkg/sha256.hpp: chunks that are copied are bytes that are taken one by one.
use zenov_os.Prelude.{
  ℕ, zero, suc, ◌+◌, ◌-◌, ◌<◌, ◌≤◌, ◌≡◌, refl, sym, ap, ◌∙◌, arith, [], ◌∷◌, true, false, not, inl,
  inr, length, Bool-cases, ◌==◌, take, drop, ◌++◌, length-append, ltb, leb,
}
use zenov_os.Prelude.Bytes.{Bytes}
use zenov_os.Prelude.Result.{ok, err, ◌>>=◌, require_lem}
use zenov_os.Package.Sha256.{
  Sha256, copy_in, transform_full, copy_chunk, absorb, min_size, update, bytes, put_byte,
}

-- One byte more.
unfoldable pub push : Sha256 → ℕ → Sha256
unfolding transform_full
push context x = transform_full (put_byte context x)

unfoldable pub pushes : Sha256 → Bytes → Sha256
unfolding push
pushes context [] = context
pushes context (x ∷ xs) = pushes (push context x) xs

abbrev pub copied : Sha256 → Bytes → Sha256
copied context xs = record context {
  block = copy_in context.block context.block_size xs;
  block_size = context.block_size + length xs;
}

pub transform_full_short :
    (context : Sha256) → context.block_size < 64 → transform_full context ≡ context
unfolding transform_full
transform_full_short context h =
    let e : (context.block_size == 64) ≡ false = ground arith in rw e refl

transform_full_size :
    (context : Sha256) → context.block_size ≤ 64 → (transform_full context).block_size < 64
unfolding transform_full
transform_full_size context h = ground arith

pub push_size :
    (context : Sha256) (x : ℕ) → context.block_size < 64 → (push context x).block_size < 64
unfolding push
push_size context x h = transform_full_size (put_byte context x) (omega arith)

pub pushes_size :
    (context : Sha256) (xs : Bytes) → context.block_size < 64 → (pushes context xs).block_size < 64
unfolding pushes
pushes_size context [] h = h
pushes_size context (x ∷ xs) h = pushes_size (push context x) xs (push_size context x h)

pub pushes-append :
    (context : Sha256) (xs ys : Bytes) → pushes context (xs ++ ys) ≡ pushes (pushes context xs) ys
unfolding pushes
pushes-append context [] ys = refl
pushes-append context (x ∷ xs) ys = pushes-append (push context x) xs ys

-- Bytes that fit into the block are copied, and the block is transformed if they fill it.
pub pushes-copied :
    (context : Sha256) (xs : Bytes)
    → context.block_size < 64
    → context.block_size + length xs ≤ 64
    → pushes context xs ≡ transform_full (copied context xs)
unfolding pushes push copy_in
pushes-copied context [] h room =
    let e : context.block_size + 0 ≡ context.block_size = omega arith in
    rw e (sym (transform_full_short context h))
pushes-copied context (x ∷ []) h room = refl
pushes-copied context (x ∷ y ∷ ys) h room =
    let short = transform_full_short (put_byte context x) (omega arith) in
    let e : context.block_size + suc (suc (length ys)) ≡ context.block_size + 1 + suc (length ys) =
      omega arith in
    rw (short, e) (pushes-copied (put_byte context x) (y ∷ ys) (omega arith) (omega arith))

pub take-drop : (n : ℕ) (xs : Bytes) → take n xs ++ drop n xs ≡ xs
take-drop zero xs = refl
take-drop (suc n) [] = refl
take-drop (suc n) (x ∷ xs) = ap (λ t. x ∷ t) (take-drop n xs)

pub length-take : (n : ℕ) (xs : Bytes) → n ≤ length xs → length (take n xs) ≡ n
length-take zero xs h = refl
length-take (suc n) [] h = absurd (omega arith)
length-take (suc n) (x ∷ xs) h = ap suc (length-take n xs (omega arith))

pub length-drop : (n : ℕ) (xs : Bytes) → length (drop n xs) ≡ length xs - n
length-drop zero xs = omega arith
length-drop (suc n) [] = omega arith
length-drop (suc n) (x ∷ xs) = omega (arith, length-drop n xs)

-- A chunk is pushed.
copy_chunk_lem :
    (context : Sha256) (chunk : ℕ) (input : Bytes)
    → context.block_size < 64
    → context.block_size + chunk ≤ 64
    → chunk ≤ length input
    → copy_chunk context chunk input ≡ pushes context (take chunk input)
unfolding copy_chunk
copy_chunk_lem context chunk input h room fits =
    let len = length-take chunk input fits in
    let e = pushes-copied context (take chunk input) h (rw len room) in sym (rw len at e)

-- The loop of `update` ends: on a block that is not full, any fuel of at least the length of the input
-- gives the same context, the one after the bytes have been taken one by one, each time with the
-- transformation of a block that is full.
pub absorb_lem :
    (fuel : ℕ) (context : Sha256) (input : Bytes)
    → context.block_size < 64
    → length input ≤ fuel
    → absorb fuel context input ≡ pushes context input
unfolding absorb pushes
absorb_lem zero context [] h enough = refl
absorb_lem zero context (x ∷ xs) h enough = absurd (omega arith)
absorb_lem (suc fuel) context [] h enough = refl
absorb_lem (suc fuel) context (x ∷ xs) h enough =
    let input = x ∷ xs in
    let chunk = min_size (64 - context.block_size) (length input) in
    let bounds : (context.block_size + chunk ≤ 64) × (chunk ≤ length input) × (1 ≤ chunk) =
      ground arith in
    let e = copy_chunk_lem context chunk input h bounds.0 bounds.1 in
    let some_left : (suc (length xs) == 0) ≡ false = ground arith in
    rw some_left (
      rw e (
        absorb_lem fuel (pushes context (take chunk input)) (drop chunk input)
          (pushes_size context (take chunk input) h)
          (omega (arith, length-drop chunk input, bounds.2))
        ∙ sym (pushes-append context (take chunk input) (drop chunk input))
        ∙ ap (λ t. pushes context t) (take-drop chunk input)))

push_total :
    (context : Sha256) (x n : ℕ)
    → push (record context { total_bytes = n }) x ≡ record (push context x) { total_bytes = n }
unfolding push transform_full
push_total context x n = elim (Bool-cases (context.block_size + 1 == 64)) [
  | inl e ↦ rw e refl
  | inr e ↦ rw e refl
]

pub pushes_total :
    (context : Sha256) (xs : Bytes) (n : ℕ)
    → pushes (record context { total_bytes = n }) xs
      ≡ record (pushes context xs) { total_bytes = n }
unfolding pushes
pushes_total context [] n = refl
pushes_total context (x ∷ xs) n =
    ap (λ t. pushes t xs) (push_total context x n) ∙ pushes_total (push context x) xs n

push_kept : (context : Sha256) (x : ℕ) → (push context x).finalized ≡ context.finalized
unfolding push transform_full
push_kept context x = elim (Bool-cases (context.block_size + 1 == 64)) [
  | inl e ↦ rw e refl
  | inr e ↦ rw e refl
]

pub pushes_kept :
    (context : Sha256) (xs : Bytes) → (pushes context xs).finalized ≡ context.finalized
unfolding pushes
pushes_kept context [] = refl
pushes_kept context (x ∷ xs) = pushes_kept (push context x) xs ∙ push_kept context x

-- A successful update.
unfoldable pub updated : Sha256 → Bytes → Sha256
updated context xs = record (pushes context xs) { total_bytes = context.total_bytes + length xs }

pub update_lem :
    (context : Sha256) (xs : Bytes)
    → context.finalized ≡ false
    → context.block_size < 64
    → context.total_bytes + length xs < 18446744073709551616
    → update context (bytes xs) ≡ ok (updated context xs)
unfolding update updated
update_lem context xs running h small =
    let fits : leb (length xs) (18446744073709551615 - context.total_bytes) ≡ true = ground arith in
    require_lem _ _ _ (ap not running)
    ∙ require_lem _ _ _ fits
    ∙ ap ok (
        absorb_lem (length xs) (record context { total_bytes = context.total_bytes + length xs }) xs
          h (omega arith)
        ∙ pushes_total context xs (context.total_bytes + length xs))

update_over :
    (context : Sha256) (xs : Bytes)
    → context.finalized ≡ false
    → context.total_bytes < 18446744073709551616
    → 18446744073709551615 < context.total_bytes + length xs
    → update context (bytes xs) ≡ err "SHA-256 input length overflow"
unfolding update
update_over context xs running word large =
    let full : leb (length xs) (18446744073709551615 - context.total_bytes) ≡ false =
      ground arith in
    rw (running, full) refl

update_ended :
    (context : Sha256) (xs : Bytes)
    → context.finalized ≡ true
    → update context (bytes xs) ≡ err "SHA-256 context already finalized"
unfolding update
update_ended context xs ended = rw ended refl

updated-append :
    (context : Sha256) (xs ys : Bytes)
    → updated (updated context xs) ys ≡ updated context (xs ++ ys)
unfolding updated
updated-append context xs ys =
    let n = context.total_bytes + length xs in
    let total : n + length ys ≡ context.total_bytes + length (xs ++ ys) =
      omega (arith, length-append xs ys) in
    rw total (
      ap (λ (t : Sha256). record t { total_bytes = context.total_bytes + length (xs ++ ys) })
        (pushes_total (pushes context xs) ys n
          ∙ ap (λ (t : Sha256). record t { total_bytes = n }) (sym (pushes-append context xs ys))))

-- Two updates are one with the bytes of both, also where they fail: for every context whose block is
-- not full and whose count of bytes is a 64-bit word.
pub update-append :
    (context : Sha256) (xs ys : Bytes)
    → context.block_size < 64
    → context.total_bytes < 18446744073709551616
    → (update context (bytes xs) >>= λ next. update next (bytes ys))
      ≡ update context (bytes (xs ++ ys))
update-append context xs ys h word = elim (Bool-cases context.finalized) [
  | inl ended ↦ rw (update_ended context xs ended, update_ended context (xs ++ ys) ended) refl
  | inr running ↦ elim (Bool-cases (ltb (context.total_bytes + length xs) 18446744073709551616)) [
    | inr over ↦
        rw
          (
            update_over context xs running word (ground arith),
            update_over context (xs ++ ys) running word (ground (arith, length-append xs ys)),
          )
          refl
    | inl first ↦
        let kept : (updated context xs).finalized ≡ false =
          unfold updated in (pushes_kept context xs ∙ running) in
        let size : (updated context xs).block_size < 64 =
          unfold updated in (pushes_size context xs h) in
        let total : (updated context xs).total_bytes ≡ context.total_bytes + length xs =
          unfold updated in refl in
        rw (update_lem context xs running h (ground arith))
          (elim (Bool-cases
            (ltb (context.total_bytes + length xs + length ys) 18446744073709551616)) [
              | inr over ↦
                  rw
                    (
                      update_over (updated context xs) ys kept (ground (arith, total))
                          (ground (arith, total)),
                      update_over context (xs ++ ys) running word
                          (ground (arith, length-append xs ys)),
                    )
                    refl
              | inl both ↦
                  rw
                    (
                      update_lem (updated context xs) ys kept size (ground (arith, total)),
                      update_lem context (xs ++ ys) running h (ground (arith, length-append xs ys)),
                    )
                    (ap ok (updated-append context xs ys))
            ])
  ]
]
