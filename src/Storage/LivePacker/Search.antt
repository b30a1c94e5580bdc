-- ===== src/Storage/LivePacker/Search.antt =====
-- Which matches the search of lzss_compress in tools/live_image_pack.cpp finds.
use zenov_os.Prelude.{
  ℕ, zero, suc, ◌+◌, ◌-◌, ◌<◌, ◌≤◌, ◌≡◌, refl, Option, none, some, arith, List, Bool, true, false,
  ◌&&◌, inl, inr, length, Bool-cases, ◌==◌, if◌then◌else◌, u32, ltb, leb,
}
use zenov_os.Storage.LivePack.{byte_at}
use zenov_os.Storage.LivePacker.{
  Chains, Best, no_chains, lz_hash, as_int32, replace, insert_position, insert_positions,
  match_length, match_limit, distance_to, search_chain, find_match,
}

abbrev IsBelow : ℕ → (ℕ → Option ℕ) → Type 0
IsBelow bound entries = (i source : ℕ) → entries i ≡ some source → source < bound

-- Every entry of the chains lies before the position.
pub record AreBefore (position : ℕ) (chains : Chains) : Type 0 where
  pub heads : IsBelow position chains.head
  pub links : IsBelow position chains.previous

pub no_chains-AreBefore : AreBefore 0 no_chains
no_chains-AreBefore = record { heads = λ i source e. cc; links = λ i source e. cc }

as_int32_bound : (position source : ℕ) → as_int32 position ≡ some source → source ≤ position
unfolding as_int32
as_int32_bound position source e = elim (Bool-cases (ltb (u32 position) 0x8000_0000)) [
  | inl small ↦ let same : u32 position ≡ source = cc (rw small at e) in omega arith
  | inr large ↦ absurd (cc (rw large at e))
]

replace_bound :
    (bound : ℕ) (entries : ℕ → Option ℕ) (at : ℕ) (value : Option ℕ)
    → IsBelow bound entries
    → ((source : ℕ) → value ≡ some source → source < bound)
    → IsBelow bound (replace entries at value)
replace_bound bound entries at value h v i source e = elim (Bool-cases (i == at)) [
  | inl here ↦ v source (rw here at e)
  | inr other ↦ h i source (rw other at e)
]

later : (a b : ℕ) (entries : ℕ → Option ℕ) → a ≤ b → IsBelow a entries → IsBelow b entries
later a b entries h below i source e = let s = below i source e in omega arith

pub insert_position-AreBefore :
    (input : List ℕ) (position : ℕ) (chains : Chains)
    → AreBefore position chains
    → AreBefore (position + 1) (insert_position input position chains)
unfolding insert_position
insert_position-AreBefore input position chains v =
    elim (Bool-cases (ltb (length input) (position + 3))) [
      | inl short ↦ rw short (record {
        heads = later position (position + 1) chains.head (omega arith) v.heads;
        links = later position (position + 1) chains.previous (omega arith) v.links;
      })
      | inr room ↦ rw room (record {
        heads =
            replace_bound (position + 1) chains.head _ _
              (later position (position + 1) chains.head (omega arith) v.heads)
              (λ source e. let b = as_int32_bound position source e in omega arith);
        links =
            replace_bound (position + 1) chains.previous _ _
              (later position (position + 1) chains.previous (omega arith) v.links)
              (λ source e. let b = v.heads _ source e in omega arith);
      })
    ]

pub insert_positions-AreBefore :
    (n : ℕ) (input : List ℕ) (position : ℕ) (chains : Chains)
    → AreBefore position chains
    → AreBefore (position + n) (insert_positions n input position chains)
unfolding insert_positions
insert_positions-AreBefore zero input position chains v =
    let e : position + 0 ≡ position = omega arith in rw e v
insert_positions-AreBefore (suc n) input position chains v =
    let e : position + suc n ≡ position + 1 + n = omega arith in
    rw e (
      insert_positions-AreBefore n input (position + 1) _
        (insert_position-AreBefore input position chains v))

-- The bytes at two places agree for a length.
unfoldable pub Agree : List ℕ → ℕ → ℕ → ℕ → Type 0
Agree input source position run =
    (i : ℕ) → i < run → byte_at input (source + i) ≡ byte_at input (position + i)

Agree-suc :
    (input : List ℕ) (source position run : ℕ)
    → byte_at input source ≡ byte_at input position
    → Agree input (source + 1) (position + 1) run
    → Agree input source position (suc run)
unfolding Agree
Agree-suc input source position run same agree zero h =
    let a : source + 0 ≡ source = omega arith in
    let b : position + 0 ≡ position = omega arith in rw (a, b) same
Agree-suc input source position run same agree (suc i) h =
    let a : source + suc i ≡ source + 1 + i = omega arith in
    let b : position + suc i ≡ position + 1 + i = omega arith in rw (a, b) (agree i (omega arith))

match_length_lem :
    (limit : ℕ) (input : List ℕ) (source position : ℕ)
    → (match_length limit input source position ≤ limit)
      × Agree input source position (match_length limit input source position)
unfolding match_length Agree
match_length_lem zero input source position = (omega arith, λ i h. absurd (omega arith))
match_length_lem (suc limit) input source position =
    let (bound, agree) = match_length_lem limit input (source + 1) (position + 1) in
    elim (Bool-cases (byte_at input source == byte_at input position)) [
      | inr differ ↦ rw differ (omega arith, λ i h. absurd (omega arith))
      | inl same ↦ rw same (omega arith, Agree-suc input source position _ (ground arith) agree)
    ]

-- What a match is good for: the decoder can copy it.
pub record IsMatch (input : List ℕ) (position : ℕ) (best : Best) : Type 0 where
  pub near : 1 ≤ best.best_distance
  pub in_window : best.best_distance ≤ 4096
  pub behind : best.best_distance ≤ position
  pub at_least : 3 ≤ best.best_length
  pub at_most : best.best_length ≤ 18
  pub inside : position + best.best_length ≤ length input
  pub agrees : Agree input (position - best.best_distance) position best.best_length

pick_when :
    (P : Best → Type 0) (t : Bool) (a b : Best) → (t ≡ true → P a) → P b → P (if t then a else b)
pick_when P true a b h k = h refl
pick_when P false a b h k = k

abbrev Finds : List ℕ → ℕ → Best → Type 0
Finds input position best = 3 ≤ best.best_length → IsMatch input position best

module _ (input : List ℕ) (position : ℕ) (previous : ℕ → Option ℕ)
    (links : IsBelow position previous) (fits : length input < 18446744073709551616)
    (inside : position < length input) where
  -- A candidate that is better is a match.
  candidate_match :
      (source : ℕ)
      → source < position
      → distance_to position source ≤ 4096
      → Finds input position (record {
        best_length = match_length (match_limit input position) input source position;
        best_distance = distance_to position source;
      })
  candidate_match source before close long =
      let (bound, agree) = match_length_lem (match_limit input position) input source position in
      let exact : distance_to position source ≡ position - source = omega arith in
      let back : position - distance_to position source ≡ source = omega (arith, exact) in
      let limits : (match_limit input position ≤ 18)
          × (match_limit input position ≤ length input - position) =
        ground arith in
      record {
        near = omega (arith, exact);
        in_window = close;
        behind = omega (arith, exact);
        at_least = long;
        at_most = omega (arith, bound, limits.0);
        inside = omega (arith, bound, limits.1);
        agrees = rw back agree;
      }

  search_chain_lem :
      (visits : ℕ) (candidate : Option ℕ) (best : Best)
      → ((source : ℕ) → candidate ≡ some source → source < position)
      → Finds input position best
      → Finds input position (search_chain visits input previous position candidate best)
  unfolding search_chain
  search_chain_lem zero candidate best below v = v
  search_chain_lem (suc visits) none best below v = v
  search_chain_lem (suc visits) (some source) best below v =
      elim (Bool-cases (ltb 4096 (distance_to position source))) [
        | inl far ↦ rw far v
        | inr close ↦
            let run = match_length (match_limit input position) input source position in
            let better = ltb best.best_length run && leb 3 run in
            let found : Best = record {
              best_length = run;
              best_distance = distance_to position source;
            } in
            let next = if better then found else best in
            let next_ok : Finds input position next =
              pick_when (Finds input position) better found best
                (λ e. candidate_match source (below source refl) (ground arith)) v in
            rw close (
              pick_when (Finds input position) (better && run == 18) next _ (λ e. next_ok)
                (search_chain_lem visits (previous source) next (links source) next_ok))
      ]

-- A match that is found can be copied by the decoder.
pub find_match_lem :
    (input : List ℕ) (chains : Chains) (position : ℕ)
    → length input < 18446744073709551616
    → AreBefore position chains
    → position < length input
    → Finds input position (find_match input chains position)
unfolding find_match
find_match_lem input chains position fits v inside =
    elim (Bool-cases (leb (position + 3) (length input))) [
      | inr short ↦ rw short (λ h. absurd (omega arith))
      | inl room ↦ rw room (
          search_chain_lem input position chains.previous v.links fits inside 128 _ _
            (v.heads (lz_hash input position)) (λ h. absurd (omega arith)))
    ]
