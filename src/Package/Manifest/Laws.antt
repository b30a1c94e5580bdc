-- ===== src/Package/Manifest/Laws.antt =====
-- The text of a manifest, line by line: what is written as pairs is read as writes of the keys.
use zenov_os.Prelude.{
  ℕ, suc, ◌+◌, ◌≡◌, refl, ap, ◌∙◌, arith, List, [], ◌∷◌, ◌++◌, Bool, true, false, not, ◌&&◌, ◌||◌,
  inl, inr, length, leb, ◌==◌, Bool-cases,
}
use zenov_os.Prelude.Bytes.{Bytes, is_space, front, back, all_bytes}
use zenov_os.Prelude.Bytes.Laws.{
  all_bytes-append, append_assoc, Without, find_byte-append, take-append, drop-append_one,
}
use zenov_os.Prelude.Result.{Result, ok, err, ◌>>=◌}
use zenov_os.Package.Common.{trim}
use zenov_os.Package.Common.Trim.{is_trimmed, trim_lem}
use zenov_os.Package.Manifest.{
  ParseState, lines_of, pop_return, parse_line, parse_lines, parse_pair, set_key, pair_line,
  pair_lines,
}

-- A value that a line can hold: not empty, no space at its ends, no newline.
unfoldable pub is_value : Bytes → Bool
unfolding is_trimmed
is_value value = is_trimmed value && all_bytes (λ c. not (c == 10)) value

-- Small letters and underscores.
abbrev pub key_byte : ℕ → Bool
key_byte c = leb 97 c && leb c 122 || c == 95

unfoldable pub is_key : Bytes → Bool
is_key key = not (length key == 0) && all_bytes key_byte key

abbrev pub pair_text : Bytes → Bytes → Bytes
pair_text key value = key ++ (b'=' ∷ value)

pub all_bytes_mono :
    (p q : ℕ → Bool) (xs : Bytes)
    → ((x : ℕ) → p x ≡ true → q x ≡ true)
    → all_bytes p xs ≡ true
    → all_bytes q xs ≡ true
unfolding all_bytes
all_bytes_mono p q [] f h = refl
all_bytes_mono p q (x ∷ xs) f h =
    let first = f x (ground arith) in
    let rest = all_bytes_mono p q xs f (ground arith) in rw (first, rest) refl

back-append : (xs ys : Bytes) (y : ℕ) → back (xs ++ y ∷ ys) ≡ back (y ∷ ys)
unfolding back
back-append [] ys y = refl
back-append (x ∷ []) ys y = refl
back-append (x ∷ z ∷ zs) ys y = back-append (z ∷ zs) ys y

lines_of-append :
    (xs rest : Bytes) → Without 10 xs → lines_of (xs ++ 10 ∷ rest) ≡ xs ∷ lines_of rest
unfolding lines_of all_bytes
lines_of-append [] rest h = refl
lines_of-append (x ∷ xs) rest h =
    let e : (x == 10) ≡ false = ground arith in
    let ih = lines_of-append xs rest (ground arith) in rw (e, ih) refl

pop_return_kept : (line : Bytes) → is_space (back line) ≡ false → pop_return line ≡ line
unfolding pop_return
pop_return_kept line h =
    let e : (back line == 13) ≡ false = ground arith in
    elim (Bool-cases (length line == 0)) [ inl n ↦ rw n refl | inr n ↦ rw (n, e) refl ]

key_front :
    (key ys : Bytes)
    → is_key key ≡ true
    → (is_space (front (key ++ ys)) ≡ false)
      × ((front (key ++ ys) == b'#') ≡ false)
      × ((length (key ++ ys) == 0) ≡ false)
unfolding is_key all_bytes
key_front [] ys h = cc
key_front (k ∷ ks) ys h = (ground arith, ground arith, ground arith)

front_all :
    (p : ℕ → Bool) (xs : Bytes)
    → (length xs == 0) ≡ false
    → all_bytes p xs ≡ true
    → p (front xs) ≡ true
unfolding all_bytes
front_all p [] n h = cc
front_all p (x ∷ xs) n h = ground arith

back_all :
    (p : ℕ → Bool) (xs : Bytes)
    → (length xs == 0) ≡ false
    → all_bytes p xs ≡ true
    → p (back xs) ≡ true
unfolding all_bytes back
back_all p [] n h = cc
back_all p (x ∷ []) n h = ground arith
back_all p (x ∷ y ∷ ys) n h = back_all p (y ∷ ys) (ground arith) (ground arith)

-- A text of bytes that are no spaces has none at its ends.
pub trimmed_all :
    (p : ℕ → Bool) (xs : Bytes)
    → ((x : ℕ) → p x ≡ true → is_space x ≡ false)
    → (length xs == 0) ≡ false
    → all_bytes p xs ≡ true
    → is_trimmed xs ≡ true
unfolding is_trimmed
trimmed_all p xs f n h =
    rw (n, f (front xs) (front_all p xs n h), f (back xs) (back_all p xs n h)) refl

key_trimmed : (key : Bytes) → is_key key ≡ true → is_trimmed key ≡ true
unfolding is_key
key_trimmed key h = trimmed_all key_byte key (λ x e. ground arith) (ground arith) (ground arith)

key-Without : (c : ℕ) (key : Bytes) → is_key key ≡ true → key_byte c ≡ false → Without c key
unfolding is_key
key-Without c key h e =
    all_bytes_mono key_byte (λ x. not (x == c)) key (λ x k. ground arith) (ground arith)

pair_back :
    (key value : Bytes) → is_trimmed value ≡ true → is_space (back (pair_text key value)) ≡ false
unfolding is_trimmed back
pair_back key [] h = cc
pair_back key (v ∷ vs) h = rw (back-append key (v ∷ vs) b'=') (ground arith)

ends_trimmed :
    (line : Bytes)
    → (is_space (front line) ≡ false)
      × ((front line == b'#') ≡ false)
      × ((length line == 0) ≡ false)
    → is_space (back line) ≡ false
    → is_trimmed line ≡ true
unfolding is_trimmed
ends_trimmed line first last = rw (first.2, first.0, last) refl

pair_lem :
    (key value : Bytes) (state : ParseState)
    → is_key key ≡ true
    → is_trimmed value ≡ true
    → parse_pair (pair_text key value) state ≡ set_key key value state
unfolding parse_pair
pair_lem key value state k v =
    let equal = find_byte-append b'=' key value (key-Without b'=' key k refl) in
    let size : length key + 1 ≡ suc (length key) = omega arith in
    let some_key : (length key == 0) ≡ false = unfold is_key in (ground arith) in
    let some_value : (length value == 0) ≡ false = unfold is_trimmed in (ground arith) in
    rw (equal, parse_pair)
      (rw
        (
          some_key,
          size,
          take-append key (b'=' ∷ value),
          drop-append_one key value b'=',
          trim_lem key (key_trimmed key k),
          trim_lem value v,
          some_value,
        )
        refl)

-- A line that the canonical form writes is a write of its key.
parse_line_pair :
    (key value : Bytes) (state : ParseState)
    → is_key key ≡ true
    → is_value value ≡ true
    → parse_line (pair_text key value) state ≡ set_key key value state
unfolding parse_line is_value
parse_line_pair key value state k v =
    let line = pair_text key value in
    let first = key_front key (b'=' ∷ value) k in
    let trimmed : is_trimmed value ≡ true = ground arith in
    let last = pair_back key value trimmed in
    let whole : trim (pop_return line) ≡ line =
      ap trim (pop_return_kept line last) ∙ trim_lem line (ends_trimmed line first last) in
    rw (whole, first.2, first.1) (pair_lem key value state k trimmed)

-- The texts that are left to be read, behind a state.
unfoldable pub parse_text : Bytes → ParseState → Result ParseState
parse_text text state = parse_lines (lines_of text) state

pair_text-Without :
    (key value : Bytes)
    → is_key key ≡ true
    → is_value value ≡ true
    → Without 10 (pair_text key value)
unfolding is_value all_bytes
pair_text-Without key value k v =
    let first = key-Without 10 key k refl in
    rw (all_bytes-append (λ c. not (c == 10)) key (b'=' ∷ value), first) (ground arith)

parse_text-pair_line :
    (key value rest : Bytes) (state : ParseState)
    → is_key key ≡ true
    → is_value value ≡ true
    → parse_text (pair_line key value ++ rest) state
      ≡ (set_key key value state >>= λ next. parse_text rest next)
unfolding parse_text parse_lines
parse_text-pair_line key value rest state k v =
    let shape : pair_line key value ++ rest ≡ pair_text key value ++ 10 ∷ rest =
      append_assoc (pair_text key value) (10 ∷ []) rest in
    let lines = lines_of-append (pair_text key value) rest (pair_text-Without key value k v) in
    ap (λ t. parse_lines (lines_of t) state) shape
    ∙ ap (λ t. parse_lines t state) lines
    ∙ ap (λ r. r >>= λ next. parse_text rest next) (parse_line_pair key value state k v)

-- The writes of a list of pairs, in order.
unfoldable pub set_pairs : List (Bytes × Bytes) → ParseState → Result ParseState
set_pairs [] state = ok state
set_pairs ((key, value) ∷ pairs) state = set_key key value state >>= λ next. set_pairs pairs next

unfoldable pub are_pairs : List (Bytes × Bytes) → Bool
are_pairs [] = true
are_pairs ((key, value) ∷ pairs) = is_key key && is_value value && are_pairs pairs

continue_lem :
    (r : Result ParseState) (f g h : ParseState → Result ParseState)
    → ((s : ParseState) → f s ≡ (g s >>= h))
    → (r >>= f) ≡ ((r >>= g) >>= h)
continue_lem (ok s) f g h e = e s
continue_lem (err m) f g h e = refl

pub parse_text-pair_lines :
    (pairs : List (Bytes × Bytes)) (rest : Bytes) (state : ParseState)
    → are_pairs pairs ≡ true
    → parse_text (pair_lines pairs ++ rest) state
      ≡ (set_pairs pairs state >>= λ next. parse_text rest next)
unfolding pair_lines set_pairs are_pairs
parse_text-pair_lines [] rest state h = refl
parse_text-pair_lines ((key, value) ∷ pairs) rest state h =
    let key_ok : is_key key ≡ true = ground arith in
    let value_ok : is_value value ≡ true = ground arith in
    let rest_ok : are_pairs pairs ≡ true = ground arith in
    ap (λ t. parse_text t state) (append_assoc (pair_line key value) (pair_lines pairs) rest)
    ∙ parse_text-pair_line key value (pair_lines pairs ++ rest) state key_ok value_ok
    ∙ continue_lem (set_key key value state) (λ s. parse_text (pair_lines pairs ++ rest) s)
        (λ s. set_pairs pairs s) (λ s. parse_text rest s)
        (λ s. parse_text-pair_lines pairs rest s rest_ok)
