-- ===== src/Prelude/Bytes.antt =====
-- Texts as lists of bytes, with what the programs use of the C++ library: comparison, search,
-- character classes of the "C" locale, and sorted lists of texts.
pub mod Laws
pub mod Sorting
use Prim.Native.Char.{code}
use Prim.Native.String.{String}
use Prim.Native.Nat.{ℕ, zero, suc, ◌+◌, ◌-◌}
use mathlib.Core.Bool.{Bool, true, false, not, ◌&&◌, ◌||◌}
use mathlib.Core.List.{List, [], ◌∷◌, ◌++◌, reverse}
use mathlib.Core.Option.{Option, none, some}
use zenov_os.Prelude.Tests.{ltb, leb, ◌==◌, if◌then◌else◌}
use zenov_os.Prelude.Lists.{take, drop, length}

abbrev pub Bytes : Type 0
Bytes = List ℕ

-- The bytes of an ASCII literal.
abbrev pub codes : String → Bytes
codes String.[] = []
codes (String.◌∷◌ c s) = code c ∷ codes s

-- `left == right` on strings.
unfoldable pub str_eq : Bytes → Bytes → Bool
str_eq [] [] = true
str_eq [] (y ∷ ys) = false
str_eq (x ∷ xs) [] = false
str_eq (x ∷ xs) (y ∷ ys) = x == y && str_eq xs ys

-- `left < right` on strings: by bytes, and a prefix comes first.
unfoldable pub str_less : Bytes → Bytes → Bool
str_less xs [] = false
str_less [] (y ∷ ys) = true
str_less (x ∷ xs) (y ∷ ys) = if ltb x y then true else if x == y then str_less xs ys else false

-- `value.find(c)`.
unfoldable pub find_byte : ℕ → Bytes → Option ℕ
find_byte c [] = none
find_byte c (x ∷ xs) =
    let rest = find_byte c xs in
    if x == c then some 0 else elim rest [ none ↦ none | some i ↦ some (suc i) ]

unfoldable pub starts_with : Bytes → Bytes → Bool
unfolding str_eq
starts_with value prefix =
    leb (length prefix) (length value) && str_eq (take (length prefix) value) prefix

-- `std::isdigit`, `std::isalnum`, `std::isspace`, `std::isxdigit`, `std::isupper`.
abbrev pub is_digit : ℕ → Bool
is_digit c = leb b'0' c && leb c b'9'

abbrev pub is_upper : ℕ → Bool
is_upper c = leb b'A' c && leb c b'Z'

abbrev pub is_alnum : ℕ → Bool
is_alnum c = is_digit c || is_upper c || leb b'a' c && leb c b'z'

abbrev pub is_space : ℕ → Bool
is_space c = c == 32 || leb 9 c && leb c 13

unfoldable pub all_bytes : (ℕ → Bool) → Bytes → Bool
all_bytes p [] = true
all_bytes p (x ∷ xs) = p x && all_bytes p xs

-- `set.count(value)` and `std::find(...) != end`.
unfoldable pub member : Bytes → List Bytes → Bool
unfolding str_eq
member value [] = false
member value (x ∷ xs) = str_eq x value || member value xs

-- The first byte, and the last.
abbrev pub front : Bytes → ℕ
front [] = 0
front (x ∷ xs) = x

unfoldable pub back : Bytes → ℕ
back [] = 0
back (x ∷ []) = x
back (x ∷ y ∷ ys) = back (y ∷ ys)

unfoldable pub skip_spaces : Bytes → Bytes
skip_spaces [] = []
skip_spaces (x ∷ xs) = if is_space x then skip_spaces xs else x ∷ xs

-- `std::sort` on strings: the sorted list does not depend on the method.
unfoldable pub insert_sorted : Bytes → List Bytes → List Bytes
unfolding str_less
insert_sorted x [] = x ∷ []
insert_sorted x (y ∷ ys) = if str_less y x then y ∷ insert_sorted x ys else x ∷ y ∷ ys

unfoldable pub sort_texts : List Bytes → List Bytes
unfolding insert_sorted
sort_texts [] = []
sort_texts (x ∷ xs) = insert_sorted x (sort_texts xs)
