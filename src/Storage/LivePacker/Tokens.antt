-- ===== src/Storage/LivePacker/Tokens.antt =====
-- Each token and each group that lzss_compress of tools/live_image_pack.cpp emits is read back by the
-- decompressor of kernel/parts/storage_live_image.inc.
use zenov_os.Prelude.{
  ℕ, suc, ◌+◌, ◌-◌, ◌*◌, ◌/◌, ◌%◌, ◌<◌, ◌≤◌, ◌≡◌, refl, ap, some, arith, List, [], ◌∷◌, true, false,
  inl, inr, length, Bool-cases, ◌==◌, bit_and, bit_or, ◌++◌, u16, u8, ltb, leb,
}
use zenov_os.Prelude.Bits.{two_to, bit_or-low, bit_or-sixteen, bit_and-fifteen}
use zenov_os.Storage.LivePack.{Cursor, byte_at, decode_literal, decode_match, decode_token}
use zenov_os.Storage.LivePacker.{Best, Packer, find_match, match_code, pack_token}
use zenov_os.Storage.LivePacker.Search.{
  AreBefore, IsMatch, find_match_lem, insert_position-AreBefore, insert_positions-AreBefore,
}
use zenov_os.Storage.LivePacker.Prefixes.{rprefix, length-rprefix, copy_match-rprefix, Holds}

-- The decoder's state after the first `p` bytes of the output.
abbrev pub cursor : List ℕ → ℕ → ℕ → Cursor
cursor input i p = record { input = i; output = rprefix input p }

-- The word of a match, and its two bytes put together again.
match_code_lem :
    (distance run : ℕ)
    → 1 ≤ distance
    → distance ≤ 4096
    → 3 ≤ run
    → run ≤ 18
    → match_code (record { best_length = run; best_distance = distance })
      ≡ (distance - 1) * 16 + (run - 3)
match_code_lem distance run a b c d =
    let e = bit_or-sixteen ((distance - 1) * 16) (run - 3) (omega arith) (omega arith) in
    omega (arith, e)

code_bytes : (code : ℕ) → code < 65536 → bit_or (u8 code) (u16 (u8 (code / 256) * 256)) ≡ code
unfolding two_to
code_bytes code h =
    let e =
      bit_or-low 8 (u8 code) (u16 (u8 (code / 256) * 256)) (code / 256) (omega arith)
        (omega arith) in
    omega (arith, e)

-- A match is read back.
decode_match-reads :
    (compressed input : List ℕ) (i p : ℕ) (best : Best)
    → IsMatch input p best
    → Holds compressed i (u8 (match_code best) ∷ u8 (match_code best / 256) ∷ [])
    → decode_match compressed (length input) (cursor input i p)
      ≡ some (cursor input (i + 2) (p + best.best_length))
unfolding decode_match
decode_match-reads compressed input i p best m h =
    let zero_at : i + 0 ≡ i = omega arith in
    let lo : byte_at compressed i ≡ u8 (match_code best) = rw zero_at at (h.same 0 (omega arith)) in
    let hi = h.same 1 (omega arith) in
    let code =
      match_code_lem best.best_distance best.best_length m.near m.in_window m.at_least m.at_most in
    let whole =
      code_bytes (match_code best)
        (omega (arith, code, m.near, m.in_window, m.at_least, m.at_most)) in
    let far : leb (length compressed) (i + 1) ≡ false = ground (arith, h.within) in
    let distance : match_code best / 16 + 1 ≡ best.best_distance =
      omega (arith, code, m.near, m.in_window, m.at_least, m.at_most) in
    let run : bit_and (match_code best) 15 + 3 ≡ best.best_length = omega (
      arith,
      bit_and-fifteen (match_code best),
      code,
      m.near,
      m.in_window,
      m.at_least,
      m.at_most,
    ) in
    let behind : ltb p best.best_distance ≡ false = ground (arith, m.behind) in
    let inside : ltb (length input) (p + best.best_length) ≡ false = ground (arith, m.inside) in
    rw (far, lo, hi, whole, distance, run, length-rprefix input p, behind, inside)
      (ap (λ out. some (record { input = i + 2; output = out }))
        (copy_match-rprefix best.best_length best.best_distance input p m.near m.behind m.agrees))

decode_literal-reads :
    (compressed input : List ℕ) (i p : ℕ)
    → Holds compressed i (byte_at input p ∷ [])
    → decode_literal compressed (cursor input i p) ≡ some (cursor input (i + 1) (p + 1))
unfolding decode_literal rprefix
decode_literal-reads compressed input i p h =
    let zero_at : i + 0 ≡ i = omega arith in
    let here : byte_at compressed i ≡ byte_at input p = rw zero_at at (h.same 0 (omega arith)) in
    let next : p + 1 ≡ suc p = omega arith in
    let far : leb (length compressed) i ≡ false = ground (arith, h.within) in
    rw (far, here, next) refl

-- What a token emits, and what the decoder makes of it.
pub record IsToken (input : List ℕ) (weight : ℕ) (p p' : Packer) : Type 0 where
  pub bit : ℕ
  pub new : List ℕ
  pub bit_bound : bit < 2
  pub emits : p'.bytes ≡ p.bytes ++ new
  pub flags_set : p'.flags ≡ p.flags + bit * weight
  pub before : AreBefore p'.position p'.chains
  pub moves : p.position < p'.position
  pub inside : p'.position ≤ length input
  pub reads :
      (flags : ℕ) (compressed : List ℕ) (i : ℕ)
      → flags % 2 ≡ bit
      → Holds compressed i new
      → decode_token flags compressed (length input) (cursor input i p.position)
        ≡ some (cursor input (i + length new) p'.position)

pub pack_token-IsToken :
    (k : ℕ) (input : List ℕ) (p : Packer)
    → length input < 18446744073709551616
    → AreBefore p.position p.chains
    → p.position < length input
    → p.flags < two_to k
    → two_to k ≤ 128
    → IsToken input (two_to k) p (pack_token input (two_to k) p)
unfolding pack_token decode_token
pack_token-IsToken k input p fits v h small byte =
    elim (Bool-cases (leb 3 (find_match input p.chains p.position).best_length)) [
      | inl long ↦
          let m = find_match_lem input p.chains p.position fits v h (ground arith) in
          let start = m.at_least in
          rw long (record {
            bit = 0;
            new =
                u8 (match_code (find_match input p.chains p.position))
                ∷ u8 (match_code (find_match input p.chains p.position) / 256)
                ∷ [];
            bit_bound = omega arith;
            emits = refl;
            flags_set = omega arith;
            before = insert_positions-AreBefore _ input p.position p.chains v;
            moves = omega arith;
            inside = m.inside;
            reads = λ flags compressed i e held.
                let even : (flags % 2 == 1) ≡ false = ground (arith, e) in
                rw even (decode_match-reads compressed input i p.position _ m held);
          })
      | inr short ↦
          let set_flag = bit_or-low k p.flags (two_to k) 1 small (omega arith) in
          rw short (record {
            bit = 1;
            new = byte_at input p.position ∷ [];
            bit_bound = omega arith;
            emits = refl;
            flags_set = omega (arith, set_flag);
            before = insert_position-AreBefore input p.position p.chains v;
            moves = omega arith;
            inside = omega arith;
            reads = λ flags compressed i e held.
                let odd : (flags % 2 == 1) ≡ true = ground (arith, e) in
                rw odd (decode_literal-reads compressed input i p.position held);
          })
    ]
