-- ===== src/Universe/Resolver.antt =====
-- tools/zenuniverse/resolver.hpp: which packages a package needs, and in which order. A `const
-- Descriptor*` is the index of the descriptor in the list of records.
pub mod Providers
pub mod Resolve
pub mod Plans
pub mod Catalog
pub mod Steps
pub mod Order
pub mod Alternatives
pub mod Emission
pub mod Packages
pub mod Known
pub mod Fuel
pub mod Soundness
use zenov_os.Prelude.{
  ℕ, zero, suc, ◌+◌, ◌-◌, List, [], ◌∷◌, ◌++◌, Bool, true, false, not, ◌&&◌, ◌||◌, Option, none,
  some, length, get_or, ltb, ◌==◌, if◌then◌else◌,
}
use zenov_os.Prelude.Bytes.{Bytes, codes, str_eq, str_less, member, insert_sorted}
use zenov_os.Universe.Descriptor.{Descriptor}

pub record AlternativeDecision : Type 0 where
  pub expression : Bytes
  pub selected : Bytes
  pub satisfied : Bool

pub record Plan : Type 0 where
  pub order : List ℕ
  pub blocked : List Bytes
  pub diagnostics : List Bytes
  pub alternatives : List AlternativeDecision
  pub required_assets : List Bytes
  pub user_asset : Bool

-- `set.insert(value)` and `set.erase(value)` on a sorted list.
unfoldable pub set_insert : Bytes → List Bytes → List Bytes
set_insert value values = if member value values then values else insert_sorted value values

unfoldable pub set_erase : Bytes → List Bytes → List Bytes
set_erase value [] = []
set_erase value (x ∷ xs) = if str_eq x value then xs else x ∷ set_erase value xs

-- `set.insert(first, last)`.
unfoldable pub insert_all : List Bytes → List Bytes → List Bytes
unfolding set_insert
insert_all [] values = values
insert_all (x ∷ xs) values = insert_all xs (set_insert x values)

-- `push_back` of what is not there yet.
unfoldable pub push_new : Bytes → List Bytes → List Bytes
push_new value values = if member value values then values else values ++ (value ∷ [])

unfoldable pub has_index : ℕ → List ℕ → Bool
has_index i [] = false
has_index i (j ∷ js) = j == i || has_index i js

abbrev pub append_assets : Descriptor → Plan → Plan
append_assets d plan = record plan { required_assets = insert_all d.assets plan.required_assets }

abbrev pub append_blocker : Plan → Bytes → Plan
append_blocker plan reason = record plan { blocked = push_new reason plan.blocked }

abbrev pub append_diagnostic : Plan → Bytes → Plan
append_diagnostic plan message = record plan { diagnostics = push_new message plan.diagnostics }

-- What the functions share by reference: `active`, `emitted` and `plan`.
pub record Context : Type 0 where
  pub active : List Bytes
  pub emitted : List Bytes
  pub plan : Plan

abbrev pub block_with : Bytes → Context → Context
block_with reason context = record context { plan = append_blocker context.plan reason }

abbrev pub decide : Bytes → Bytes → Bool → Context → Context
decide expression selected satisfied context = record context {
  plan = record (context.plan) {
    alternatives =
        context.plan.alternatives
        ++ (record { expression = expression; selected = selected; satisfied = satisfied } ∷ []);
  };
}

pub record Attempt : Type 0 where
  pub option : Bytes
  pub context : Context
  pub added_blockers : ℕ
  pub added_packages : ℕ

unfoldable pub attempt_less : Attempt → Attempt → Bool
unfolding str_less
attempt_less left right =
    if not (left.added_blockers == right.added_blockers)
    then ltb left.added_blockers right.added_blockers
    else if not (left.added_packages == right.added_packages)
    then ltb left.added_packages right.added_packages
    else str_less left.option right.option

-- `std::min_element`: the first of the least.
unfoldable pub min_attempt : Attempt → List Attempt → Attempt
unfolding attempt_less
min_attempt best [] = best
min_attempt best (attempt ∷ attempts) =
    if attempt_less attempt best then min_attempt attempt attempts else min_attempt best attempts

-- The last blocker of a rejected attempt.
unfoldable pub last_reason : List Bytes → Bytes
last_reason [] = codes "unresolved"
last_reason (reason ∷ []) = reason
last_reason (reason ∷ next ∷ reasons) = last_reason (next ∷ reasons)

unfoldable pub reject : List Attempt → Plan → Plan
unfolding last_reason push_new member str_eq
reject [] plan = plan
reject (attempt ∷ attempts) plan = reject attempts (
    append_diagnostic plan (
      codes "alternative "
      ++ attempt.option
      ++ codes " rejected: "
      ++ last_reason attempt.context.plan.blocked))

unfoldable pub reject_all : Bytes → List Attempt → Context → Context
unfolding reject push_new
reject_all canonical attempts context =
    let blocked =
      append_blocker context.plan (codes "no satisfiable capability alternative: " ++ canonical) in
    decide canonical (codes "-") false (record context { plan = reject attempts blocked })

unfoldable pub choose : Bytes → List Attempt → Context → Context
unfolding min_attempt reject_all
choose canonical [] context = reject_all canonical [] context
choose canonical (attempt ∷ attempts) context =
    let best = min_attempt attempt attempts in
    if best.added_blockers == 0
    then decide canonical best.option true best.context
    else reject_all canonical (attempt ∷ attempts) context
