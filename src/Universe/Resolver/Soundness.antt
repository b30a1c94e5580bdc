-- ===== src/Universe/Resolver/Soundness.antt =====
-- A plan without blockers installs every package behind the packages that it needs.
use zenov_os.Prelude.{
  ℕ, zero, suc, ◌≡◌, refl, sym, ap, subst, ◌∙◌, inl, inr, List, [], ◌∷◌, ◌++◌, Bool, true, false,
  ◌&&◌, Bool-cases, Option-cases, and_intro,
}
use zenov_os.Prelude.Bytes.{Bytes, member}
use zenov_os.Prelude.Bytes.Sorting.{all_texts_mono}
use zenov_os.Prelude.Result.{Result, ok, bind-eq-ok, ok_injective}
use zenov_os.Universe.Capability.{parse_capability_alternatives}
use zenov_os.Universe.Descriptor.{Descriptor, runtime_capability}
use zenov_os.Universe.Resolver.{Context, Plan, set_insert, set_erase}
use zenov_os.Universe.Resolver.Providers.{at_record, best_provider}
use zenov_os.Universe.Resolver.Resolve.{
  has, fits, resolve_all, resolve_alternatives, resolve_provider, resolve_new, resolve_step,
  resolve_capability,
}
use zenov_os.Universe.Resolver.Plans.{resolver, resolve_fuel, open_plan, make_plan}
use zenov_os.Universe.Resolver.Order.{some_option_mono, is_provided, dependencies_met, order_met}
use zenov_os.Universe.Resolver.Steps.{
  IsMet, Resolves, Step-trans, Step-refl, Step-blocked, has-Step, push_new-ne-nil,
  resolve_all-Resolves,
}
use zenov_os.Universe.Resolver.Alternatives.{resolve_alternatives-Resolves}
use zenov_os.Universe.Resolver.Emission.{set_erase-set_insert}
use zenov_os.Universe.Resolver.Packages.{
  best_provider-provides, here-is_provided, resolve_provider-Resolves,
}

module _ (records : List Descriptor) (host_architecture : Bytes) (host : List Bytes) where
  abbrev here : Context → Bytes → Bool
  here context = has records host_architecture host context

  resolve_new-Resolves :
      (resolve : Bytes → Context → Result Context)
      → ((c : Bytes) (a b : Context)
          → resolve c a ≡ ok b
          → Resolves records host_architecture host (λ context. here context c) a b)
      → (c : Bytes) (a b : Context) → member c a.active ≡ false
      → resolve_new records host_architecture host resolve c a ≡ ok b
      → Resolves records host_architecture host (λ context. here context c) a b
  unfolding resolve_new
  resolve_new-Resolves resolve resolve_ok c a b new h =
      let entered : Context = record a { active = set_insert c a.active } in
      let closed = set_erase-set_insert c a.active new in
      elim (Option-cases (best_provider c records host_architecture)) [
        | inl e ↦
            let missing = ok_injective _ b (rw (e, resolve_new) at h) in
            subst (Resolves records host_architecture host (λ context. here context c) a) missing (
              Step-blocked records host_architecture host a _ (push_new-ne-nil _ a.plan.blocked)
                  refl closed,
              λ k. absurd (push_new-ne-nil _ a.plan.blocked k),
            )
        | inr (i, e) ↦
            let own = best_provider-provides c records host_architecture i e in
            let split =
              bind-eq-ok (resolve_provider records host_architecture host resolve c i entered) _
                (rw (e, resolve_new) at h) in
            let s = split.0 in
            let inner =
              resolve_provider-Resolves records host_architecture host resolve resolve_ok c i
                entered s own split.1 in
            subst (Resolves records host_architecture host (λ context. here context c) a)
              (ok_injective _ b split.2)
              (
                record {
                  kept = inner.0.kept;
                  more = inner.0.more;
                  sound = inner.0.sound;
                  restored = ap (set_erase c) inner.0.restored ∙ closed;
                },
                inner.1,
              )
      ]

  resolve_step-Resolves :
      (resolve : Bytes → Context → Result Context)
      → ((c : Bytes) (a b : Context)
          → resolve c a ≡ ok b
          → Resolves records host_architecture host (λ context. here context c) a b)
      → (c : Bytes) (a b : Context) → resolve_step records host_architecture host resolve c a ≡ ok b
      → Resolves records host_architecture host (λ context. here context c) a b
  unfolding resolve_step
  resolve_step-Resolves resolve resolve_ok c a b h = elim (Bool-cases (here a c)) [
    | inl e ↦
        let same = ok_injective a b (rw e at h) in
        subst (Resolves records host_architecture host (λ context. here context c) a) same
          (Step-refl records host_architecture host a, λ free. e)
    | inr e ↦ elim (Bool-cases (member c a.active)) [
      | inr new ↦ resolve_new-Resolves resolve resolve_ok c a b new (rw new at (rw e at h))
      | inl k ↦
          let cycle = ok_injective _ b (rw k at (rw e at h)) in
          subst (Resolves records host_architecture host (λ context. here context c) a) cycle (
            Step-blocked records host_architecture host a _ (push_new-ne-nil _ a.plan.blocked) refl
                refl,
            λ z. absurd (push_new-ne-nil _ a.plan.blocked z),
          )
    ]
  ]

  pub resolve_capability-Resolves :
      (fuel : ℕ) (c : Bytes) (a b : Context)
      → resolve_capability records host_architecture host fuel c a ≡ ok b
      → Resolves records host_architecture host (λ context. here context c) a b
  unfolding resolve_capability
  resolve_capability-Resolves zero c a b h = cc
  resolve_capability-Resolves (suc fuel) c a b h =
      resolve_step-Resolves (resolve_capability records host_architecture host fuel)
        (resolve_capability-Resolves fuel) c a b h

  -- A package with what it needs behind the host and the providers.
  abbrev pub is_met_by : List ℕ → Descriptor → Bool
  is_met_by providers d =
      fits records host_architecture host d
      && is_provided records host_architecture host providers (runtime_capability d)
      && dependencies_met records host_architecture host providers d

  open_plan-fits :
      (d : Descriptor)
      → (open_plan records host_architecture host d).plan.blocked ≡ []
      → fits records host_architecture host d ≡ true
  unfolding open_plan
  open_plan-fits d h = elim (Bool-cases (fits records host_architecture host d)) [
    | inl e ↦ e
    | inr e ↦ absurd (push_new-ne-nil _ [] (rw e at h))
  ]

  host-IsMet : IsMet records host_architecture host [] host
  unfolding order_met
  host-IsMet = record { met = refl; covers = λ c h. rw h refl }

  open_plan-IsMet :
      (d : Descriptor)
      → IsMet records host_architecture host
          (open_plan records host_architecture host d).plan.order
          (open_plan records host_architecture host d).emitted
  unfolding open_plan
  open_plan-IsMet d = elim (Bool-cases (fits records host_architecture host d)) [
    | inl e ↦ rw e host-IsMet
    | inr e ↦ rw e host-IsMet
  ]

  -- A plan without blockers ends with the application, behind packages that are available for the
  -- host and have what they need from the host and from the packages before them; the application
  -- fits the host and has its runtime, its requirements and an option of each of its alternatives.
  pub make_plan_lem :
      (i : ℕ) (plan : Plan)
      → make_plan records host_architecture host i ≡ ok plan
      → plan.blocked ≡ []
      → (providers : List ℕ) × (plan.order ≡ providers ++ (i ∷ []))
        × (order_met records host_architecture host [] providers ≡ true)
        × (is_met_by providers (at_record records i) ≡ true)
  unfolding make_plan
  make_plan_lem i plan h free =
      let d = at_record records i in
      let a = open_plan records host_architecture host d in
      let step = resolver records host_architecture host in
      let resolve_ok = resolve_capability-Resolves resolve_fuel in
      let running = bind-eq-ok (step (runtime_capability d) a) _ h in
      let required =
        bind-eq-ok (resolve_all records host_architecture host step d.requirements running.0) _
          running.2 in
      let settled =
        bind-eq-ok
          (resolve_alternatives records host_architecture host step d.requirement_any required.0) _
          required.2 in
      let s = settled.0 in
      let first = resolve_ok (runtime_capability d) a running.0 running.1 in
      let second =
        resolve_all-Resolves records host_architecture host step resolve_ok d.requirements running.0
          required.0 required.1 in
      let third =
        resolve_alternatives-Resolves records host_architecture host step resolve_ok
          d.requirement_any required.0 s settled.1 in
      let to_end =
        Step-trans records host_architecture host running.0 required.0 s second.0 third.0 in
      let all = Step-trans records host_architecture host a running.0 s first.0 to_end in
      let same = ok_injective _ plan settled.2 in
      let unblocked : s.plan.blocked ≡ [] = ap (λ p. p.blocked) same ∙ free in
      let inv = all.sound (open_plan-IsMet d) unblocked in
      let need = λ (x : Bytes). here-is_provided records host_architecture host s x inv in
      (
        s.plan.order,
        sym (ap (λ p. p.order) same),
        inv.met,
        and_intro _ _
            (and_intro _ _ (open_plan-fits d (all.kept unblocked)) (
              need (runtime_capability d) (
                has-Step records host_architecture host running.0 s (runtime_capability d) to_end
                  (first.1 (to_end.kept unblocked)))))
            (and_intro _ _
              (all_texts_mono (here required.0) _ d.requirements
                (λ x e. need x (has-Step records host_architecture host required.0 s x third.0 e))
                (second.1 (third.0.kept unblocked)))
              (all_texts_mono _ _ d.requirement_any
                (λ e h. some_option_mono (here s) _ (parse_capability_alternatives e) need h)
                (third.1 unblocked))),
      )
