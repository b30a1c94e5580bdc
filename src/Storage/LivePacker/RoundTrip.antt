-- ===== src/Storage/LivePacker/RoundTrip.antt =====
-- The compression of tools/live_image_pack.cpp and the decompression of
-- kernel/parts/storage_live_image.inc together.
use zenov_os.Prelude.{
  ℕ, zero, suc, ◌+◌, ◌*◌, ◌/◌, ◌%◌, ◌<◌, ◌≤◌, ◌≡◌, refl, ap, ◌∙◌, Option, some, arith, List, [],
  ◌∷◌, true, false, ◌⊎◌, inl, inr, length, Bool-cases, ◌==◌, ◌/=◌, ◌++◌, length-append, ltb, leb,
}
use native.Mathlib.Nat.{mul_assoc}
use zenov_os.Prelude.Bits.{two_to}
use zenov_os.Storage.LivePack.{
  Image, MeetsAsserts, Cursor, byte_at, decode_bits, decode_groups, finish_pack,
  live_decompress_pack,
}
use zenov_os.Storage.LivePacker.{
  Chains, Packer, no_chains, pack_token, pack_bits, pack_groups, lzss_compress,
}
use zenov_os.Storage.LivePacker.Search.{AreBefore, no_chains-AreBefore}
use zenov_os.Storage.LivePacker.Prefixes.{
  rprefix, length-rprefix, reverse-rprefix_all, Holds, Holds-left, Holds-right, Holds-self,
}
use zenov_os.Storage.LivePacker.Tokens.{cursor, IsToken, pack_token-IsToken}

-- What the rest of a group emits, and what the decoder makes of it.
record IsRun (bits : ℕ) (input : List ℕ) (weight : ℕ) (p p' : Packer) : Type 0 where
  flags_left : ℕ
  new : List ℕ
  emits : p'.bytes ≡ p.bytes ++ new
  flags_set : p'.flags ≡ p.flags + flags_left * weight
  before : AreBefore p'.position p'.chains
  moves : p.position ≤ p'.position
  inside : p'.position ≤ length input
  reads :
      (compressed : List ℕ) (i : ℕ)
      → Holds compressed i new
      → decode_bits bits flags_left compressed (length input) (cursor input i p.position)
        ≡ some (cursor input (i + length new) p'.position)

append_none : (xs : List ℕ) → xs ≡ xs ++ []
append_none [] = refl
append_none (x ∷ xs) = ap (λ t. x ∷ t) (append_none xs)

append_assoc : (xs ys zs : List ℕ) → (xs ++ ys) ++ zs ≡ xs ++ (ys ++ zs)
append_assoc [] ys zs = refl
append_assoc (x ∷ xs) ys zs = ap (λ t. x ∷ t) (append_assoc xs ys zs)

-- The decoder stops where its bits or the room of its output are used up.
decode_bits_stops :
    (bits flags : ℕ) (input compressed : List ℕ) (i p : ℕ)
    → (bits ≡ 0) ⊎ (p ≡ length input)
    → decode_bits bits flags compressed (length input) (cursor input i p)
      ≡ some (cursor input (i + 0) p)
unfolding decode_bits
decode_bits_stops zero flags input compressed i p e =
    let stay : i + 0 ≡ i = omega arith in rw stay refl
decode_bits_stops (suc bits) flags input compressed i p (inl e) = absurd (omega arith)
decode_bits_stops (suc bits) flags input compressed i p (inr e) =
    let stay : i + 0 ≡ i = omega arith in
    let full : leb (length input) p ≡ true = ground arith in
    rw (stay, length-rprefix input p, full) refl

-- Nothing more is emitted.
stops :
    (bits : ℕ) (input : List ℕ) (weight : ℕ) (p : Packer)
    → AreBefore p.position p.chains
    → p.position ≤ length input
    → (bits ≡ 0) ⊎ (p.position ≡ length input)
    → IsRun bits input weight p p
stops bits input weight p v h e = record {
  flags_left = 0;
  new = [];
  emits = append_none p.bytes;
  flags_set = omega arith;
  before = v;
  moves = omega arith;
  inside = h;
  reads = λ compressed i held. decode_bits_stops bits 0 input compressed i p.position e;
}

bit_le : (bit weight : ℕ) → bit < 2 → bit * weight ≤ weight
bit_le zero weight h = omega arith
bit_le (suc zero) weight h = omega arith
bit_le (suc (suc bit)) weight h = absurd (omega arith)

two_to_mono : (k n : ℕ) → two_to k ≤ two_to (k + n)
unfolding two_to
two_to_mono k zero = let e : k + 0 ≡ k = omega arith in rw e (omega arith)
two_to_mono k (suc n) =
    let e : k + suc n ≡ suc (k + n) = omega arith in
    let below = two_to_mono k n in rw e (omega (arith, below))

-- A token and the rest of its group.
token-IsRun :
    (bits k : ℕ) (input : List ℕ) (p p1 p2 : Packer)
    → p.position < length input
    → IsToken input (two_to k) p p1
    → IsRun bits input (two_to k * 2) p1 p2
    → IsRun (suc bits) input (two_to k) p p2
unfolding decode_bits
token-IsRun bits k input p p1 p2 more t r =
    let grouped = mul_assoc r.flags_left (two_to k) 2 in
    record {
      flags_left = t.bit + r.flags_left * 2;
      new = t.new ++ r.new;
      emits = r.emits ∙ ap (λ b. b ++ r.new) t.emits ∙ append_assoc p.bytes t.new r.new;
      flags_set = omega (arith, r.flags_set, t.flags_set, grouped);
      before = r.before;
      moves = omega (arith, t.moves, r.moves);
      inside = r.inside;
      reads = λ compressed i held.
          let low : (t.bit + r.flags_left * 2) % 2 ≡ t.bit = omega (arith, t.bit_bound) in
          let high : (t.bit + r.flags_left * 2) / 2 ≡ r.flags_left = omega (arith, t.bit_bound) in
          let first =
            t.reads (t.bit + r.flags_left * 2) compressed i low
              (Holds-left compressed i t.new r.new held) in
          let rest =
            r.reads compressed (i + length t.new) (Holds-right compressed i t.new r.new held) in
          let room : leb (length input) p.position ≡ false = ground arith in
          let total : i + length (t.new ++ r.new) ≡ i + length t.new + length r.new =
            omega (arith, length-append t.new r.new) in
          rw (length-rprefix input p.position, room, first, high, total) rest;
    }

pack_bits-IsRun :
    (bits k : ℕ) (input : List ℕ) (p : Packer)
    → length input < 18446744073709551616
    → AreBefore p.position p.chains
    → p.position ≤ length input
    → p.flags < two_to k
    → two_to (k + bits) ≤ 256
    → IsRun bits input (two_to k) p (pack_bits bits input (two_to k) p)
unfolding pack_bits two_to
pack_bits-IsRun zero k input p fits v h small byte = stops 0 input (two_to k) p v h (inl refl)
pack_bits-IsRun (suc bits) k input p fits v h small byte =
    elim (Bool-cases (ltb p.position (length input))) [
      | inr done ↦ rw done (stops (suc bits) input (two_to k) p v h (inr (ground arith)))
      | inl more ↦
          let e : k + suc bits ≡ suc (k + bits) = omega arith in
          let e' : suc k + bits ≡ suc (k + bits) = omega arith in
          let half : two_to (k + bits) * 2 ≤ 256 = rw e at byte in
          let byte' : two_to (suc k + bits) ≤ 256 = rw e' half in
          let t =
            pack_token-IsToken k input p fits v (ground arith) small
              (omega (arith, two_to_mono k bits, half)) in
          let r =
            pack_bits-IsRun bits (suc k) input (pack_token input (two_to k) p) fits t.before
              t.inside (omega (arith, t.flags_set, bit_le t.bit (two_to k) t.bit_bound)) byte' in
          rw more (token-IsRun bits k input p _ _ (ground arith) t r)
    ]

-- A group's first token is not empty.
pack_bits_moves :
    (input : List ℕ) (p : Packer)
    → length input < 18446744073709551616
    → AreBefore p.position p.chains
    → p.position < length input
    → p.flags ≡ 0
    → p.position < (pack_bits 8 input 1 p).position
unfolding pack_bits two_to
pack_bits_moves input p fits v more clear =
    let t = pack_token-IsToken 0 input p fits v more (omega arith) (omega arith) in
    let r =
      pack_bits-IsRun 7 1 input (pack_token input 1 p) fits t.before t.inside
        (omega (arith, t.flags_set, t.bit_bound)) (omega arith) in
    let on : ltb p.position (length input) ≡ true = ground arith in
    rw on (omega (arith, t.moves, r.moves))

abbrev opened : ℕ → Chains → Packer
opened position chains = record { position = position; chains = chains; flags = 0; bytes = [] }

-- One group, and then what follows.
decode_group :
    (input compressed tail : List ℕ) (position i rounds : ℕ) (chains : Chains) (g : Packer)
    (result : Option Cursor)
    → position < length input
    → IsRun 8 input 1 (opened position chains) g
    → Holds compressed i (g.flags ∷ g.bytes ++ tail)
    → decode_groups rounds compressed
        (length input)
        (cursor input (i + 1 + length g.bytes) g.position)
      ≡ result
    → decode_groups (suc rounds) compressed (length input) (cursor input i position) ≡ result
unfolding decode_groups
decode_group input compressed tail position i rounds chains g result more r held next =
    let zero_at : i + 0 ≡ i = omega arith in
    let here : byte_at compressed i ≡ g.flags = rw zero_at at (held.same 0 (omega arith)) in
    let flags : g.flags ≡ r.flags_left = omega (arith, r.flags_set) in
    let body = Holds-right compressed i (g.flags ∷ []) (g.bytes ++ tail) held in
    let new = Holds-left compressed (i + 1) g.bytes tail body in
    let bits = r.reads compressed (i + 1) (rw r.emits at new) in
    let room : leb (length input) position ≡ false = ground arith in
    let far : leb (length compressed) i ≡ false = ground (arith, held.within) in
    rw (length-rprefix input position, room, far, here, flags, bits, ← r.emits) next

-- The decoder reads the groups from any place where they stand, up to the end of the output.
pack_groups-reads :
    (fuel : ℕ) (input : List ℕ) (position : ℕ) (chains : Chains) (compressed : List ℕ)
    (i rounds : ℕ)
    → length input < 18446744073709551616
    → AreBefore position chains
    → position ≤ length input
    → length input ≤ position + fuel
    → Holds compressed i (pack_groups fuel input position chains)
    → length (pack_groups fuel input position chains) < rounds
    → decode_groups rounds compressed (length input) (cursor input i position)
      ≡ some (cursor input (i + length (pack_groups fuel input position chains)) (length input))
unfolding pack_groups decode_groups two_to
pack_groups-reads fuel input position chains compressed i zero fits v h enough held less =
    absurd (omega arith)
pack_groups-reads zero input position chains compressed i (suc rounds) fits v h enough held less =
    let stay : i + 0 ≡ i = omega arith in
    let full : leb (length input) position ≡ true = ground arith in
    let end : position ≡ length input = omega arith in
    rw (length-rprefix input position, full, stay, end) refl
pack_groups-reads (suc fuel) input position chains compressed i (suc rounds) fits v h enough held
      less =
    elim (Bool-cases (ltb position (length input))) [
      | inr done ↦
          let stay : i + 0 ≡ i = omega arith in
          let full : leb (length input) position ≡ true = ground arith in
          let end : position ≡ length input = ground arith in
          rw (length-rprefix input position, full, done, stay, end) refl
      | inl more ↦
          let g = pack_bits 8 input 1 (opened position chains) in
          let below : position < length input = ground arith in
          let r =
            pack_bits-IsRun 8 0 input (opened position chains) fits v h (omega arith)
              (omega arith) in
          let moves = pack_bits_moves input (opened position chains) fits v below refl in
          let tail = pack_groups fuel input g.position g.chains in
          let held' : Holds compressed i (g.flags ∷ g.bytes ++ tail) = rw more at held in
          let less' : suc (length (g.bytes ++ tail)) < suc rounds = rw more at less in
          let body = Holds-right compressed i (g.flags ∷ []) (g.bytes ++ tail) held' in
          let total = length-append g.bytes tail in
          let place : i + suc (length (g.bytes ++ tail)) ≡ i + 1 + length g.bytes + length tail =
            omega (arith, total) in
          rw (more, place)
            (decode_group input compressed tail position i rounds chains g _ below r held' (
              pack_groups-reads fuel input g.position g.chains compressed (i + 1 + length g.bytes)
                rounds fits r.before r.inside (omega (arith, moves))
                (Holds-right compressed (i + 1) g.bytes tail body) (omega (arith, total, less'))))
    ]

-- What the build host compresses, the kernel unpacks: for every image that meets the kernel's
-- static_asserts (a payload of fewer than 32768 bytes, a pack of 65536 bytes at most, no more sectors
-- than the overlay's map has entries), where its pack has the input's size and its payload is the
-- compressed input, the decompression, with a capacity of the input's size, succeeds and gives the
-- input back.
pub live_decompress_pack-lzss_compress :
    (image : Image) (input : List ℕ)
    → MeetsAsserts image
    → image.pack_bytes ≡ length input
    → image.compressed ≡ lzss_compress input
    → live_decompress_pack image (length input) ≡ some input
unfolding live_decompress_pack lzss_compress finish_pack rprefix
live_decompress_pack-lzss_compress image input asserts size packed =
    let (payload, workspace, sectors) = asserts in
    let fits : length input < 18446744073709551616 = omega (arith, workspace, size) in
    let same : (length input /= length input) ≡ false = ground arith in
    let all = pack_groups (length input) input 0 no_chains in
    let start : 0 + length all ≡ length all = omega arith in
    let unpacked =
      pack_groups-reads (length input) input 0 no_chains all 0 (length all + 1) fits
        no_chains-AreBefore (omega arith) (omega arith) (Holds-self all) (omega arith) in
    let reads : decode_groups (length all + 1) all (length input)
          (record { input = 0; output = [] })
        ≡ some (cursor input (length all) (length input)) =
      rw start at unpacked in
    let packed' : image.compressed ≡ all = packed in
    let whole : (length all == length all) ≡ true = ground arith in
    rw (size, same, packed', reads, whole) (ap some (reverse-rprefix_all input))
