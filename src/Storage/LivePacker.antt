-- ===== src/Storage/LivePacker.antt =====
-- tools/live_image_pack.cpp, lzss_compress: the compression of the Live image on the build host. The
-- hash table and the chains are functions; an entry that is negative as an `int32_t` is `none`.
pub mod Search
pub mod Prefixes
pub mod Tokens
pub mod RoundTrip
pub mod Chunks
pub mod Table
pub mod Layout
pub mod Scan
pub mod Validity
pub mod Sparse
use zenov_os.Prelude.{
  ℕ, zero, suc, ◌+◌, ◌-◌, ◌*◌, ◌/◌, ◌%◌, Option, none, some, List, [], ◌∷◌, ◌++◌, Bool, true, false,
  ◌&&◌, length, bit_and, bit_or, u8, u16, u32, ltb, leb, ◌==◌, if◌then◌else◌,
}
use zenov_os.Storage.LivePack.{byte_at}

abbrev pub lz_window : ℕ
lz_window = 4096

abbrev pub lz_min_match : ℕ
lz_min_match = 3

abbrev pub lz_max_match : ℕ
lz_max_match = 18

abbrev pub lz_chain_limit : ℕ
lz_chain_limit = 128

-- `head` and `previous`.
pub record Chains : Type 0 where
  pub head : ℕ → Option ℕ
  pub previous : ℕ → Option ℕ

abbrev pub no_chains : Chains
no_chains = record { head = λ hash. none; previous = λ position. none }

unfoldable pub lz_hash : List ℕ → ℕ → ℕ
lz_hash input position =
    let a = byte_at input position in
    let b = byte_at input (position + 1) in
    let c = byte_at input (position + 2) in
    bit_and (u32 (u32 (u32 (u32 (a * 251) + b) * 251) + c)) 0xffff

-- `static_cast<int32_t>(position)`, for the test that it is not negative.
unfoldable pub as_int32 : ℕ → Option ℕ
as_int32 position = if ltb (u32 position) 0x8000_0000 then some (u32 position) else none

abbrev pub replace : (ℕ → Option ℕ) → ℕ → Option ℕ → ℕ → Option ℕ
replace entries at value i = if i == at then value else entries i

unfoldable pub insert_position : List ℕ → ℕ → Chains → Chains
insert_position input position chains =
    if ltb (length input) (position + lz_min_match)
    then chains
    else let hash = lz_hash input position in
      record {
        head = replace chains.head hash (as_int32 position);
        previous = replace chains.previous position (chains.head hash);
      }

-- How many bytes agree, at most `limit`.
unfoldable pub match_length : ℕ → List ℕ → ℕ → ℕ → ℕ
match_length zero input source position = 0
match_length (suc limit) input source position =
    let more = match_length limit input (source + 1) (position + 1) in
    if byte_at input source == byte_at input position then suc more else 0

pub record Best : Type 0 where
  pub best_length : ℕ
  pub best_distance : ℕ

-- `position - source` on a 64-bit `size_t`.
abbrev pub distance_to : ℕ → ℕ → ℕ
distance_to position source = (position + 18446744073709551616 - source) % 18446744073709551616

abbrev pub match_limit : List ℕ → ℕ → ℕ
match_limit input position =
    if ltb (length input - position) lz_max_match then length input - position else lz_max_match

-- The walk along a chain: `visits` counts down from `lz_chain_limit`.
unfoldable pub search_chain : ℕ → List ℕ → (ℕ → Option ℕ) → ℕ → Option ℕ → Best → Best
search_chain zero input previous position candidate best = best
search_chain (suc visits) input previous position none best = best
search_chain (suc visits) input previous position (some source) best =
    let distance = distance_to position source in
    let run = match_length (match_limit input position) input source position in
    let better = ltb best.best_length run && leb lz_min_match run in
    let best' = if better then record { best_length = run; best_distance = distance } else best in
    let rest = search_chain visits input previous position (previous source) best' in
    if ltb lz_window distance then best else if better && run == lz_max_match then best' else rest

unfoldable pub find_match : List ℕ → Chains → ℕ → Best
unfolding search_chain
find_match input chains position =
    if leb (position + lz_min_match) (length input)
    then search_chain lz_chain_limit input chains.previous position
        (chains.head (lz_hash input position)) (record { best_length = 0; best_distance = 0 })
    else record { best_length = 0; best_distance = 0 }

unfoldable pub insert_positions : ℕ → List ℕ → ℕ → Chains → Chains
insert_positions zero input position chains = chains
insert_positions (suc n) input position chains =
    insert_positions n input (position + 1) (insert_position input position chains)

abbrev pub match_code : Best → ℕ
match_code best = u16 (bit_or ((best.best_distance - 1) * 16) (best.best_length - lz_min_match))

-- The packer between two tokens: the input position, the chains, the flags, and the bytes that the
-- group has so far.
pub record Packer : Type 0 where
  pub position : ℕ
  pub chains : Chains
  pub flags : ℕ
  pub bytes : List ℕ

-- One token; `weight` is `1U << bit`.
unfoldable pub pack_token : List ℕ → ℕ → Packer → Packer
pack_token input weight p =
    let best = find_match input p.chains p.position in
    if leb lz_min_match best.best_length
    then record {
      position = p.position + best.best_length;
      chains = insert_positions best.best_length input p.position p.chains;
      flags = p.flags;
      bytes = p.bytes ++ (u8 (match_code best) ∷ u8 (match_code best / 256) ∷ []);
    }
    else record {
      position = p.position + 1;
      chains = insert_position input p.position p.chains;
      flags = u8 (bit_or p.flags weight);
      bytes = p.bytes ++ (byte_at input p.position ∷ []);
    }

unfoldable pub pack_bits : ℕ → List ℕ → ℕ → Packer → Packer
pack_bits zero input weight p = p
pack_bits (suc bits) input weight p =
    let rest = pack_bits bits input (weight * 2) (pack_token input weight p) in
    if ltb p.position (length input) then rest else p

-- The groups from a position on. Each group moves on, so the fuel `length input` is enough.
unfoldable pub pack_groups : ℕ → List ℕ → ℕ → Chains → List ℕ
pack_groups zero input position chains = []
pack_groups (suc fuel) input position chains =
    let group =
      pack_bits 8 input 1
        (record { position = position; chains = chains; flags = 0; bytes = [] }) in
    let rest = pack_groups fuel input group.position group.chains in
    if ltb position (length input) then group.flags ∷ group.bytes ++ rest else []

unfoldable pub lzss_compress : List ℕ → List ℕ
unfolding pack_groups
lzss_compress input = pack_groups (length input) input 0 no_chains
