-- ===== src/Storage/LivePack/Decoding.antt =====
-- The decompressor of kernel/parts/storage_live_image.inc stays within its output and needs no more
-- rounds than there are input bytes.
use zenov_os.Prelude.{
  ℕ, zero, suc, ◌+◌, ◌-◌, ◌/◌, ◌%◌, ◌<◌, ◌≤◌, ◌≡◌, refl, ap, ◌∙◌, Option, none, some, arith, List,
  [], ◌∷◌, true, false, inl, inr, get_or, length, Option-cases, Bool-cases, ◌==◌, ◌/=◌,
  length-append, leb,
}
use mathlib.Core.List.{reverse, reverse-cons}
use native.Mathlib.Nat.{suc-add}
use zenov_os.Storage.LivePack.{
  Image, Cursor, byte_at, copy_match, decode_literal, decode_match, decode_token, decode_bits,
  decode_groups, finish_pack, live_decompress_pack,
}

length-copy_match :
    (n distance : ℕ) (output : List ℕ) → length (copy_match n distance output) ≡ n + length output
unfolding copy_match
length-copy_match zero distance output = omega arith
length-copy_match (suc n) distance output =
    omega (arith, length-copy_match n distance (get_or output (distance - 1) 0 ∷ output))

-- What a step of the decoder keeps: it reads on within the input, and the output fits.
record IsStep (compressed : List ℕ) (capacity : ℕ) (c c' : Cursor) : Type 0 where
  reads : c.input ≤ c'.input
  within : c'.input ≤ length compressed
  fits : length c'.output ≤ capacity

decode_literal-IsStep :
    (compressed : List ℕ) (capacity : ℕ) (c c' : Cursor)
    → length c.output < capacity
    → decode_literal compressed c ≡ some c'
    → IsStep compressed capacity c c'
unfolding decode_literal
decode_literal-IsStep compressed capacity c c' h e = ground arith

decode_match-IsStep :
    (compressed : List ℕ) (capacity : ℕ) (c c' : Cursor)
    → decode_match compressed capacity c ≡ some c'
    → IsStep compressed capacity c c'
unfolding decode_match
decode_match-IsStep compressed capacity c c' e = grind (arith, length-copy_match)

decode_token-IsStep :
    (flags : ℕ) (compressed : List ℕ) (capacity : ℕ) (c c' : Cursor)
    → length c.output < capacity
    → decode_token flags compressed capacity c ≡ some c'
    → IsStep compressed capacity c c'
decode_token-IsStep flags compressed capacity c c' h e = elim (Bool-cases (flags % 2 == 1)) [
  | inl t ↦ decode_literal-IsStep compressed capacity c c' h (rw (token_true t) at e)
  | inr t ↦ decode_match-IsStep compressed capacity c c' (rw (token_false t) at e)
]
  where
    token_true :
        (flags % 2 == 1) ≡ true
        → decode_token flags compressed capacity c ≡ decode_literal compressed c
    token_true t = unfold decode_token in rw t refl

    token_false :
        (flags % 2 == 1) ≡ false
        → decode_token flags compressed capacity c ≡ decode_match compressed capacity c
    token_false t = unfold decode_token in rw t refl

decode_bits-IsStep :
    (bits flags : ℕ) (compressed : List ℕ) (capacity : ℕ) (c c' : Cursor)
    → c.input ≤ length compressed
    → length c.output ≤ capacity
    → decode_bits bits flags compressed capacity c ≡ some c'
    → IsStep compressed capacity c c'
unfolding decode_bits
decode_bits-IsStep zero flags compressed capacity c c' i h e = ground arith
decode_bits-IsStep (suc bits) flags compressed capacity c c' i h e =
    elim (Bool-cases (leb capacity (length c.output))) [
      | inl full ↦ ground arith
      | inr room ↦ elim (Option-cases (decode_token flags compressed capacity c)) [
        | inl bad ↦ cc (rw (room, bad, decode_bits) at e)
        | inr (d, good) ↦
            let first = decode_token-IsStep flags compressed capacity c d (ground arith) good in
            let rest =
              decode_bits-IsStep bits (flags / 2) compressed capacity d c' first.within first.fits
                (rw (room, good, decode_bits) at e) in
            record {
              reads = omega (arith, first.reads, rest.reads);
              within = rest.within;
              fits = rest.fits;
            }
      ]
    ]

-- One round of the outer loop.
abbrev group : List ℕ → ℕ → Cursor → Option Cursor
group compressed capacity c =
    decode_bits 8 (byte_at compressed c.input) compressed capacity
      (record c { input = c.input + 1 })

group-IsStep :
    (compressed : List ℕ) (capacity : ℕ) (c d : Cursor)
    → c.input < length compressed
    → length c.output ≤ capacity
    → group compressed capacity c ≡ some d
    → IsStep compressed capacity (record c { input = c.input + 1 }) d
group-IsStep compressed capacity c d i h e =
    decode_bits-IsStep 8 (byte_at compressed c.input) compressed capacity
      (record c { input = c.input + 1 }) d (omega arith) h e

decode_groups_exact :
    (fuel : ℕ) (compressed : List ℕ) (capacity : ℕ) (c c' : Cursor)
    → length c.output ≤ capacity
    → decode_groups fuel compressed capacity c ≡ some c'
    → length c'.output ≡ capacity
unfolding decode_groups
decode_groups_exact zero compressed capacity c c' h e = cc
decode_groups_exact (suc fuel) compressed capacity c c' h e =
    elim (Bool-cases (leb capacity (length c.output))) [
      | inl full ↦ ground arith
      | inr room ↦ elim (Bool-cases (leb (length compressed) c.input)) [
        | inl short ↦ cc (rw (room, short) at e)
        | inr more ↦ elim (Option-cases (group compressed capacity c)) [
          | inl bad ↦ cc (rw (room, more, bad, decode_groups) at e)
          | inr (d, good) ↦
              decode_groups_exact fuel compressed capacity d c'
                (group-IsStep compressed capacity c d (ground arith) h good).fits
                (rw (room, more, good, decode_groups) at e)
        ]
      ]
    ]

-- Once the fuel covers the input that is left, more of it changes nothing.
decode_groups_fuel :
    (fuel more : ℕ) (compressed : List ℕ) (capacity : ℕ) (c : Cursor)
    → c.input ≤ length compressed
    → length c.output ≤ capacity
    → length compressed < c.input + fuel
    → decode_groups (fuel + more) compressed capacity c ≡ decode_groups fuel compressed capacity c
unfolding decode_groups
decode_groups_fuel zero more compressed capacity c i h enough = absurd (omega arith)
decode_groups_fuel (suc fuel) more compressed capacity c i h enough =
    rw (suc-add fuel more) (elim (Bool-cases (leb capacity (length c.output))) [
      | inl full ↦ rw full refl
      | inr room ↦ elim (Bool-cases (leb (length compressed) c.input)) [
        | inl short ↦ rw (room, short) refl
        | inr left ↦ elim (Option-cases (group compressed capacity c)) [
          | inl bad ↦ rw (room, left, bad, decode_groups) refl
          | inr (d, good) ↦
              let step = group-IsStep compressed capacity c d (ground arith) h good in
              rw (room, left, good, decode_groups)
                (decode_groups_fuel fuel more compressed capacity d step.within step.fits
                  (omega (arith, step.reads)))
        ]
      ]
    ])

-- The fuel of `live_decompress_pack` is enough: with any larger fuel the loop gives the same result.
pub decode_groups_enough :
    (more : ℕ) (compressed : List ℕ) (capacity : ℕ)
    → decode_groups
        (length compressed + 1 + more)
        compressed
        capacity
        (record { input = 0; output = [] })
      ≡ decode_groups
          (length compressed + 1)
          compressed
          capacity
          (record { input = 0; output = [] })
decode_groups_enough more compressed capacity =
    decode_groups_fuel (length compressed + 1) more compressed capacity _ (omega arith)
      (omega arith) (omega arith)

length-reverse : (xs : List ℕ) → length (reverse xs) ≡ length xs
length-reverse [] = refl
length-reverse (x ∷ xs) =
    omega
      (arith, ap length (reverse-cons x xs), length-append (reverse xs) (x ∷ []), length-reverse xs)

finish_pack_exact :
    (compressed : List ℕ) (capacity : ℕ) (o : Option Cursor) (out : List ℕ)
    → ((c : Cursor) → o ≡ some c → length c.output ≡ capacity)
    → finish_pack compressed o ≡ some out
    → length out ≡ capacity
unfolding finish_pack
finish_pack_exact compressed capacity none out exact e = cc
finish_pack_exact compressed capacity (some c) out exact e =
    elim (Bool-cases (c.input == length compressed)) [
      | inl all ↦
          let same : reverse c.output ≡ out = cc (rw all at e) in
          rw (← same) (length-reverse c.output ∙ exact c refl)
      | inr some_left ↦ cc (rw some_left at e)
    ]

-- Whatever the compressed bytes are, a decompression that succeeds fills the output exactly, and its
-- capacity is the size of the pack.
pub live_decompress_pack_exact :
    (image : Image) (capacity : ℕ) (out : List ℕ)
    → live_decompress_pack image capacity ≡ some out
    → (length out ≡ capacity) × (capacity ≡ image.pack_bytes)
unfolding live_decompress_pack
live_decompress_pack_exact image capacity out e = elim (Bool-cases (capacity /= image.pack_bytes)) [
  | inl other ↦ cc (rw other at e)
  | inr same ↦ (
    finish_pack_exact image.compressed capacity _ out
        (λ c found.
          decode_groups_exact (length image.compressed + 1) image.compressed capacity
            (record { input = 0; output = [] }) c (omega arith) found)
        (rw same at e),
    ground arith,
  )
]
