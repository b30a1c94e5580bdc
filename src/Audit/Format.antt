-- ===== src/Audit/Format.antt =====
-- The journal of tools/zenov_audit_format.hpp: its records, the chain of their hashes, and `verify`.
pub mod Hashes
pub mod Chain
use zenov_os.Prelude.{
  ℕ, zero, suc, ◌+◌, ◌-◌, ◌*◌, ◌/◌, ◌%◌, List, [], ◌∷◌, ◌++◌, Bool, true, false, not, ◌&&◌, ◌||◌,
  take, drop, length, get_or, replicate, bit_or, bit_xor, u8, u32, ltb, leb, ◌==◌, if◌then◌else◌,
}
use zenov_os.Prelude.Bytes.{Bytes, codes, str_eq, all_bytes}
use zenov_os.Audit.Digest.{sha_init, sha_update, sha_final, sha256}

abbrev pub capacity : ℕ
capacity = 64

pub record Header : Type 0 where
  pub magic : Bytes
  pub schema : ℕ
  pub header_size : ℕ
  pub record_size : ℕ
  pub header_capacity : ℕ
  pub count : ℕ
  pub next_index : ℕ
  pub next_sequence : ℕ
  pub anchor_hash : Bytes
  pub head_hash : Bytes
  pub reserved : Bytes

pub record Record : Type 0 where
  pub sequence : ℕ
  pub tick : ℕ
  pub action : ℕ
  pub verdict : ℕ
  pub path_length : ℕ
  pub path : Bytes
  pub digest : Bytes
  pub hash : Bytes
  pub record_reserved : Bytes

pub record Journal : Type 0 where
  pub header : Header
  pub records : List Record

-- The differences of two hashes of `size` bytes.
unfoldable pub difference_of : ℕ → ℕ → Bytes → Bytes → ℕ
difference_of zero difference left right = difference
difference_of (suc size) difference left right =
    difference_of size (u8 (bit_or difference (bit_xor (get_or left 0 0) (get_or right 0 0))))
      (drop 1 left) (drop 1 right)

unfoldable pub same_hash : Bytes → Bytes → Bool
same_hash left right = difference_of 32 0 left right == 0

abbrev pub expected_abc : Bytes
expected_abc =
    0xba ∷ 0x78 ∷ 0x16 ∷ 0xbf ∷ 0x8f ∷ 0x01 ∷ 0xcf ∷ 0xea ∷ 0x41 ∷ 0x41 ∷ 0x40 ∷ 0xde ∷ 0x5d ∷ 0xae
    ∷ 0x22 ∷ 0x23 ∷ 0xb0 ∷ 0x03 ∷ 0x61 ∷ 0xa3 ∷ 0x96 ∷ 0x17 ∷ 0x7a ∷ 0x9c ∷ 0xb4 ∷ 0x10 ∷ 0xff
    ∷ 0x61 ∷ 0xf2 ∷ 0x00 ∷ 0x15 ∷ 0xad ∷ []

unfoldable pub sha256_self_test : Bool
sha256_self_test = same_hash (sha256 (codes "abc")) expected_abc

-- The loop of `fnv1a` behind a value.
unfoldable pub fnv1a_from : ℕ → Bytes → ℕ
fnv1a_from hash [] = hash
fnv1a_from hash (x ∷ xs) = fnv1a_from (u32 (bit_xor hash x * 16777619)) xs

unfoldable pub fnv1a : Bytes → ℕ
fnv1a input = fnv1a_from 2166136261 input

unfoldable pub value_of : ℕ → Bytes → ℕ
value_of value [] = value
value_of value (x ∷ xs) = value_of (u8 (bit_or value x)) xs

unfoldable pub all_zero : Bytes → Bool
all_zero input = value_of 0 input == 0

abbrev pub store_le16 : ℕ → Bytes
store_le16 value = u8 value ∷ u8 (value / 256) ∷ []

abbrev pub store_le32 : ℕ → Bytes
store_le32 value = u8 value ∷ u8 (value / 256) ∷ u8 (value / 65536) ∷ u8 (value / 16777216) ∷ []

abbrev pub domain : Bytes
domain = codes "ZENOV-AUDIT-V1" ++ (0 ∷ 0 ∷ [])

abbrev pub metadata_of : Record → Bytes
metadata_of r =
    store_le32 r.sequence
    ++ store_le32 r.tick
    ++ (r.action ∷ r.verdict ∷ [])
    ++ store_le16 r.path_length

unfoldable pub record_hash : Record → Bytes → Bytes
record_hash r previous = sha_final (
    sha_update
      (sha_update (sha_update (sha_update (sha_update sha_init domain) previous) (metadata_of r))
        r.path)
      r.digest)

abbrev pub no_record : Record
no_record = record {
  sequence = 0;
  tick = 0;
  action = 0;
  verdict = 0;
  path_length = 0;
  path = replicate 48 0;
  digest = replicate 32 0;
  hash = replicate 32 0;
  record_reserved = replicate 4 0;
}

abbrev pub initialize_empty : Journal
initialize_empty = record {
  header = record {
    magic = codes "ZGAL";
    schema = 1;
    header_size = 96;
    record_size = 128;
    header_capacity = capacity;
    count = 0;
    next_index = 0;
    next_sequence = 1;
    anchor_hash = replicate 32 0;
    head_hash = replicate 32 0;
    reserved = replicate 8 0;
  };
  records = replicate 64 no_record;
}

-- The checks on the header alone.
unfoldable pub header_valid : Header → Bool
header_valid h =
    str_eq h.magic (codes "ZGAL")
    && h.schema == 1
    && h.header_size == 96
    && h.record_size == 128
    && h.header_capacity == capacity
    && leb h.count capacity
    && ltb h.next_index capacity
    && not (h.next_sequence == 0)
    && all_zero h.reserved

-- The checks on a record but for its hash: `path` ends with its length.
unfoldable pub record_valid : Record → ℕ → Bool
record_valid r expected =
    r.sequence == expected
    && leb r.action 9
    && leb r.verdict 5
    && not (r.path_length == 0)
    && ltb r.path_length 48
    && get_or r.path r.path_length 0 == 0
    && all_zero r.record_reserved
    && all_bytes (λ c. c == 0) (drop (r.path_length + 1) r.path)

-- The loop over the records from `index` on, with the hash of the last one.
unfoldable pub verify_from : ℕ → ℕ → ℕ → List Record → Bytes → Bytes → Bool
verify_from zero index sequence records previous head = same_hash previous head
verify_from (suc rounds) index sequence records previous head =
    let r = get_or records (index % capacity) no_record in
    let computed = record_hash r previous in
    let rest = verify_from rounds (index + 1) (sequence + 1) records computed head in
    if record_valid r (u32 sequence) && same_hash computed r.hash then rest else false

unfoldable pub verify : Journal → Bool → Bool
verify journal require_nonempty =
    let h = journal.header in
    let first = if h.count == capacity then h.next_index else 0 in
    if not (header_valid h)
    then false
    else if require_nonempty && h.count == 0
    then false
    else if h.count == 0
    then h.next_index == 0 && h.next_sequence == 1 && all_zero h.anchor_hash && all_zero h.head_hash
    else if leb h.next_sequence h.count
    then false
    else if ltb h.count capacity && (not (h.next_index == h.count) || not (all_zero h.anchor_hash))
    then false
    else verify_from h.count first (h.next_sequence - h.count) journal.records h.anchor_hash
        h.head_hash
