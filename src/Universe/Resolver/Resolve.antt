-- ===== src/Universe/Resolver/Resolve.antt =====
-- tools/zenuniverse/resolver.hpp: `resolve_capability` and `resolve_alternative`.
use zenov_os.Prelude.{
  ℕ, zero, suc, ◌-◌, List, [], ◌∷◌, ◌++◌, Bool, true, not, ◌&&◌, ◌||◌, Option, none, some, length,
  if◌then◌else◌,
}
use zenov_os.Prelude.Bytes.{Bytes, codes, str_eq, member}
use zenov_os.Prelude.Result.{Result, ok, err, ◌>>=◌}
use zenov_os.Universe.Capability.{parse_capability_alternatives, canonical_alternatives}
use zenov_os.Universe.Descriptor.{Descriptor}
use zenov_os.Universe.Resolver.Providers.{at_record, best_provider}
use zenov_os.Universe.Resolver.{
  Context, Attempt, set_insert, set_erase, insert_all, push_new, has_index, append_assets,
  append_blocker, block_with, decide, choose,
}

module _ (records : List Descriptor) (host_architecture : Bytes) (host : List Bytes) where
  abbrev pub has : Context → Bytes → Bool
  has context capability = member capability host || member capability context.emitted

  -- The first option that is there already.
  unfoldable pub first_present : Context → List Bytes → Option Bytes
  first_present context [] = none
  first_present context (option ∷ options) =
      if has context option then some option else first_present context options

  abbrev pub fits : Descriptor → Bool
  fits d = str_eq d.architecture (codes "any") || str_eq d.architecture host_architecture

  -- The blockers of a provider itself, and its assets.
  unfoldable pub inspect : Descriptor → Context → Context
  unfolding str_eq push_new insert_all
  inspect d context =
      let checked =
        if fits d
        then context.plan
        else append_blocker context.plan (
            codes "provider architecture mismatch: provider="
            ++ d.id
            ++ codes " package="
            ++ d.architecture
            ++ codes " host="
            ++ host_architecture) in
      let available =
        if str_eq d.availability (codes "available")
        then checked
        else append_blocker checked (
            codes "provider not available yet: "
            ++ d.id
            ++ codes " ("
            ++ d.availability
            ++ codes ")") in
      record context { plan = append_assets d available }

  -- The package, and what it provides.
  unfoldable pub emit : Bytes → ℕ → Context → Context
  emit capability i context =
      if member capability context.emitted then context else record context {
        emitted = insert_all (at_record records i).provides context.emitted;
        plan = record (context.plan) {
          order =
              if has_index i context.plan.order
              then context.plan.order
              else context.plan.order ++ (i ∷ []);
        };
      }

  abbrev pub leave : Bytes → Context → Context
  leave capability context = record context { active = set_erase capability context.active }

  -- What follows works for every function that resolves a capability.
  module _ (resolve : Bytes → Context → Result Context) where
    -- Each option is tried on a copy of the state.
    unfoldable pub try_options : Context → List Bytes → Result (List Attempt)
    try_options context [] = ok []
    try_options context (option ∷ options) = do
      after ← resolve option context
      attempts ← try_options context options
      ok (
          record {
            option = option;
            context = after;
            added_blockers = length after.plan.blocked - length context.plan.blocked;
            added_packages = length after.plan.order - length context.plan.order;
          }
          ∷ attempts)

    unfoldable pub resolve_alternative : Bytes → Context → Result Context
    unfolding first_present
    resolve_alternative expression context = do
      options ← parse_capability_alternatives expression
      canonical ← canonical_alternatives expression
      elim (first_present context options) [
        | some option ↦ ok (decide canonical option true context)
        | none ↦ try_options context options >>= λ attempts. ok (choose canonical attempts context)
      ]

    unfoldable pub resolve_all : List Bytes → Context → Result Context
    resolve_all [] context = ok context
    resolve_all (capability ∷ capabilities) context =
        resolve capability context >>= λ next. resolve_all capabilities next

    unfoldable pub resolve_alternatives : List Bytes → Context → Result Context
    resolve_alternatives [] context = ok context
    resolve_alternatives (expression ∷ expressions) context =
        resolve_alternative expression context >>= λ next. resolve_alternatives expressions next

    -- A runtime needs the native runtime.
    unfoldable pub resolve_native : Bytes → Descriptor → Context → Result Context
    unfolding str_eq
    resolve_native capability d context =
        if not (str_eq capability (codes "runtime.native"))
          && str_eq d.kind (codes "runtime")
          && str_eq d.runtime (codes "native")
        then resolve (codes "runtime.native") context
        else ok context

    unfoldable pub resolve_provider : Bytes → ℕ → Context → Result Context
    resolve_provider capability i context = do
      let d = at_record records i
      native ← resolve_native capability d (inspect d context)
      required ← resolve_all d.requirements native
      settled ← resolve_alternatives d.requirement_any required
      ok (emit capability i settled)

    -- A capability that is not there yet and that is not being resolved.
    unfoldable pub resolve_new : Bytes → Context → Result Context
    resolve_new capability context =
        let entered = record context { active = set_insert capability context.active } in
        elim (best_provider capability records host_architecture) [
          | none ↦ ok (
              leave capability
                (block_with (codes "missing capability provider: " ++ capability) entered))
          | some i ↦
              resolve_provider capability i entered >>= λ settled. ok (leave capability settled)
        ]

    -- One call, with a function for the calls in it.
    unfoldable pub resolve_step : Bytes → Context → Result Context
    resolve_step capability context =
        if has context capability
        then ok context
        else if member capability context.active
        then ok (block_with (codes "dependency cycle at " ++ capability) context)
        else resolve_new capability context

  -- The depth of the calls is bounded by the fuel.
  unfoldable pub resolve_capability : ℕ → Bytes → Context → Result Context
  resolve_capability zero capability context = err "out of fuel"
  resolve_capability (suc fuel) capability context =
      resolve_step (resolve_capability fuel) capability context
