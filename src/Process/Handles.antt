-- ===== src/Process/Handles.antt =====
-- kernel/parts/process_handles.inc: a process's table of eight handles. A handle word carries an
-- index and the generation of its entry. A function that fills output references returns `Option`
-- of them; the array loops become recursions on the rest of the array and its first index.
pub mod Codec
pub mod Invariant
pub mod Allocation
pub mod Stale
use zenov_os.Prelude.{
  ℕ, ◌+◌, ◌-◌, ◌*◌, ◌/◌, Bool, true, false, not, ◌&&◌, ◌||◌, Option, none, some, List, [], ◌∷◌,
  bit_and, bit_or, u16, u32, ltb, leb, ◌==◌, ◌/=◌, if◌then◌else◌, get_or, set, replicate, count_if,
}

abbrev pub handle_capacity : ℕ
handle_capacity = 8

abbrev pub handle_index_mask : ℕ
handle_index_mask = 0xff

-- `1 << 8`, by which the generation is shifted.
abbrev pub handle_generation_unit : ℕ
handle_generation_unit = 256

abbrev pub right_wait : ℕ
right_wait = 1

abbrev pub right_query : ℕ
right_query = 2

abbrev pub rights_all : ℕ
rights_all = 3

-- The bits of a `uint8_t` that `~rights_all` keeps.
abbrev pub rights_none : ℕ
rights_none = 0xfc

pub record ObjectKey : Type 0 where
  pub slot : ℕ
  pub generation : ℕ

pub record Entry : Type 0 where
  pub used : Bool
  pub rights : ℕ
  pub generation : ℕ
  pub object : ObjectKey

pub record Table : Type 0 where
  pub entries : List Entry
  pub generations : List ℕ

abbrev pub no_key : ObjectKey
no_key = record { slot = 0; generation = 0 }

-- `Entry{}`.
abbrev pub no_entry : Entry
no_entry = record { used = false; rights = 0; generation = 0; object = no_key }

-- `Table{}`.
abbrev pub empty_table : Table
empty_table = record {
  entries = replicate handle_capacity no_entry;
  generations = replicate handle_capacity 0;
}

unfoldable pub key_equal : ObjectKey → ObjectKey → Bool
key_equal left right = left.slot == right.slot && left.generation == right.generation

abbrev pub key_valid : ObjectKey → Bool
key_valid key = key.generation /= 0

unfoldable pub next_generation : ℕ → ℕ
next_generation current = let next = u16 (current + 1) in if next == 0 then 1 else next

unfoldable pub encode : ℕ → ℕ → ℕ
encode index generation =
    if leb handle_capacity index || generation == 0
    then 0
    else bit_or (u32 (generation * handle_generation_unit)) (index + 1)

-- The index and the generation.
unfoldable pub decode : ℕ → Option (ℕ × ℕ)
decode handle =
    let encoded_index = bit_and handle handle_index_mask in
    let generation = u16 (handle / handle_generation_unit) in
    if encoded_index == 0 || ltb handle_capacity encoded_index || generation == 0
    then none
    else some (encoded_index - 1, generation)

-- The first entry that is free, where the scan stands at `index`.
unfoldable pub find_free : ℕ → List Entry → Option ℕ
find_free index [] = none
find_free index (entry ∷ rest) = if entry.used then find_free (index + 1) rest else some index

abbrev pub fill : Table → ObjectKey → ℕ → ℕ → ℕ → Table
fill table object rights index generation = record {
  entries =
      set table.entries index
        (record { used = true; rights = rights; generation = generation; object = object });
  generations = set table.generations index generation;
}

abbrev pub allocate_at : Table → ObjectKey → ℕ → Option ℕ → ℕ × Table
allocate_at table object rights none = (0, table)
allocate_at table object rights (some index) =
    let generation = next_generation (get_or table.generations index 0) in
    (encode index generation, fill table object rights index generation)

-- The handle, 0 on failure, and the table.
unfoldable pub allocate : Table → ObjectKey → ℕ → ℕ × Table
allocate table object rights =
    if not (key_valid object) || rights == 0 || bit_and rights rights_none /= 0
    then (0, table)
    else allocate_at table object rights (find_free 0 table.entries)

abbrev pub resolve_at : Table → ℕ → Option (ℕ × ℕ) → Option ObjectKey
resolve_at table required_rights none = none
resolve_at table required_rights (some (index, generation)) =
    let entry = get_or table.entries index no_entry in
    if not entry.used
      || entry.generation /= generation
      || bit_and entry.rights required_rights /= required_rights
      || not (key_valid entry.object)
    then none
    else some entry.object

unfoldable pub resolve : Table → ℕ → ℕ → Option ObjectKey
resolve table handle required_rights = resolve_at table required_rights (decode handle)

abbrev pub close_at : Table → Option (ℕ × ℕ) → Option (ObjectKey × Table)
close_at table none = none
close_at table (some (index, generation)) =
    let entry = get_or table.entries index no_entry in
    if not entry.used || entry.generation /= generation || not (key_valid entry.object)
    then none
    else some (entry.object, record table { entries = set table.entries index no_entry })

-- The object that the handle named, and the table without it.
unfoldable pub close : Table → ℕ → Option (ObjectKey × Table)
close table handle = close_at table (decode handle)

unfoldable pub active_count : Table → ℕ
active_count table = count_if (λ entry. entry.used) table.entries
