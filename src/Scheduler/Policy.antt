-- ===== src/Scheduler/Policy.antt =====
-- kernel/parts/scheduler_policy.inc. A null array is `none`; `current` is an `int`, -1 where no
-- task runs, and the index of a round is taken for `current` not below -count, where the sum in the
-- source is not negative.
use zenov_os.Prelude.{
  ℕ, zero, suc, ◌+◌, ◌%◌, Option, none, some, List, Bool, false, not, ◌&&◌, ◌||◌, get_or, ◌==◌,
  if◌then◌else◌, u32, u8, ltb, leb,
}
use zenov_os.Prelude.Int.{ℤ, pos, negsuc, pos_part, ◌+ℤ◌, ltb_ℤ}

abbrev pub priority_levels : ℕ
priority_levels = 4

abbrev pub default_priority : ℕ
default_priority = 1

abbrev pub maximum_priority : ℕ
maximum_priority = 3

abbrev pub aging_ticks : ℕ
aging_ticks = 50

abbrev pub minimum_quantum_ticks : ℕ
minimum_quantum_ticks = 3

abbrev pub maximum_quantum_ticks : ℕ
maximum_quantum_ticks = minimum_quantum_ticks + maximum_priority

pub record Candidate : Type 0 where
  pub ready : Bool
  pub base_priority : ℕ
  pub dynamic_priority : ℕ
  pub wait_ticks : ℕ

unfoldable pub clamp_priority : ℕ → ℕ
clamp_priority priority = if ltb maximum_priority priority then maximum_priority else priority

unfoldable pub quantum_ticks : ℕ → ℕ
unfolding clamp_priority
quantum_ticks priority = u8 (minimum_quantum_ticks + clamp_priority priority)

unfoldable pub account_wait : Candidate → Candidate
account_wait candidate =
    if not candidate.ready
    then record candidate { wait_ticks = 0 }
    else let waited = u32 (candidate.wait_ticks + 1) in
      if leb aging_ticks waited && ltb candidate.dynamic_priority maximum_priority
      then record candidate { dynamic_priority = candidate.dynamic_priority + 1; wait_ticks = 0 }
      else record candidate { wait_ticks = waited }

unfoldable pub reset_after_run : Candidate → Candidate
unfolding clamp_priority
reset_after_run candidate = record candidate {
  dynamic_priority = clamp_priority candidate.base_priority;
  wait_ticks = 0;
}

abbrev pub no_candidate : Candidate
no_candidate = record { ready = false; base_priority = 0; dynamic_priority = 0; wait_ticks = 0 }

-- The index that a round at a distance looks at.
unfoldable pub index_at : ℤ → ℕ → ℕ → ℕ
unfolding ◌+ℤ◌
index_at current count distance = pos_part (current +ℤ pos (distance + count)) % count

-- The loop variables `selected` and `best`.
pub record Choice : Type 0 where
  pub selected : ℤ
  pub best : ℕ

-- One round of the loop of `select`.
unfoldable pub consider : List Candidate → ℕ → Choice → Choice
consider candidates index choice =
    let candidate = get_or candidates index no_candidate in
    if not candidate.ready
    then choice
    else if ltb_ℤ choice.selected (pos 0) || ltb choice.best candidate.dynamic_priority
    then record { selected = pos index; best = candidate.dynamic_priority }
    else choice

-- The rounds that are left, from `distance` on.
unfoldable pub select_from : ℕ → List Candidate → ℕ → ℤ → ℕ → Choice → Choice
select_from zero candidates count current distance choice = choice
select_from (suc rounds) candidates count current distance choice =
    select_from rounds candidates count current (distance + 1)
      (consider candidates (index_at current count distance) choice)

unfoldable pub select : Option (List Candidate) → ℕ → ℤ → ℤ
select none count current = negsuc 0
select (some candidates) count current =
    if count == 0
    then negsuc 0
    else (select_from count candidates count current 1
        (record { selected = negsuc 0; best = 0 })).selected
