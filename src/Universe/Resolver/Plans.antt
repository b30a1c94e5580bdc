-- ===== src/Universe/Resolver/Plans.antt =====
-- tools/zenuniverse/resolver.hpp: the plan for a package, and the plan for a runtime.
use zenov_os.Prelude.{ℕ, List, [], ◌∷◌, ◌++◌, Bool, false, if◌then◌else◌}
use zenov_os.Prelude.Bytes.{Bytes, codes, str_eq, member}
use zenov_os.Prelude.Result.{Result, ok, ◌>>=◌}
use zenov_os.Universe.Descriptor.{Descriptor, runtime_capability}
use zenov_os.Universe.Resolver.{Plan, Context, insert_all, push_new, append_assets, append_blocker}
use zenov_os.Universe.Resolver.Providers.{at_record}
use zenov_os.Universe.Resolver.Resolve.{fits, resolve_capability, resolve_all, resolve_alternatives}

abbrev pub empty_plan : Plan
empty_plan = record {
  order = [];
  blocked = [];
  diagnostics = [];
  alternatives = [];
  required_assets = [];
  user_asset = false;
}

-- One more than the capabilities that are known: the ones that are being resolved are distinct.
abbrev pub resolve_fuel : ℕ
resolve_fuel = 54

module _ (records : List Descriptor) (host_architecture : Bytes) (host : List Bytes) where
  -- The state before the first call.
  unfoldable pub open_plan : Descriptor → Context
  unfolding str_eq push_new insert_all
  open_plan application =
      let checked =
        if fits records host_architecture host application
        then empty_plan
        else append_blocker empty_plan (
            codes "architecture mismatch: package="
            ++ application.architecture
            ++ codes " host="
            ++ host_architecture) in
      record { active = []; emitted = host; plan = append_assets application checked }

  abbrev pub resolver : Bytes → Context → Result Context
  resolver capability context =
      resolve_capability records host_architecture host resolve_fuel capability context

  unfoldable pub make_plan : ℕ → Result Plan
  make_plan i = do
    let application = at_record records i
    running ← resolver (runtime_capability application) (open_plan application)
    required ← resolve_all records host_architecture host resolver application.requirements running
    settled ←
        resolve_alternatives records host_architecture host resolver application.requirement_any
          required
    ok (record (settled.plan) {
      order = settled.plan.order ++ (i ∷ []);
      user_asset = str_eq application.delivery (codes "user-supplied");
    })

  unfoldable pub make_runtime_plan : Bytes → Result Plan
  make_runtime_plan runtime = do
    settled ←
        resolver (codes "runtime." ++ runtime)
          (record { active = []; emitted = host; plan = empty_plan })
    ok settled.plan

unfoldable pub provider_accepts_artifact : Descriptor → Bytes → Bool
unfolding member
provider_accepts_artifact provider artifact = member artifact provider.accepts
