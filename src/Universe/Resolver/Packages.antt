-- ===== src/Universe/Resolver/Packages.antt =====
-- A package is put into the order when all that it needs is there.
use zenov_os.Prelude.{
  ℕ, zero, suc, ◌≡◌, refl, sym, subst, ◌∙◌, inl, inr, List, [], Bool, true, false, not, ◌&&◌, ◌||◌,
  some, length, Bool-cases, Option-cases, and_intro, or_last,
}
use zenov_os.Prelude.Bytes.{Bytes, codes, str_eq, member}
use zenov_os.Prelude.Bytes.Laws.{str_eq_iff}
use zenov_os.Prelude.Bytes.Sorting.{all_texts, all_texts_mono}
use zenov_os.Prelude.Result.{Result, ok, bind-eq-ok, ok_injective}
use zenov_os.Universe.Capability.{parse_capability_alternatives}
use zenov_os.Universe.Descriptor.{Descriptor}
use zenov_os.Universe.Resolver.{Context}
use zenov_os.Universe.Resolver.Providers.{at_record, best_provider, best_of, better, is_better}
use zenov_os.Universe.Resolver.Resolve.{
  has, inspect, emit, resolve_native, resolve_all, resolve_alternatives, resolve_provider,
}
use zenov_os.Universe.Resolver.Order.{some_option_mono, is_provided, is_native, package_met}
use zenov_os.Universe.Resolver.Steps.{
  Step, IsMet, Resolves, Step-trans, Step-refl, has-Step, resolve_all-Resolves,
}
use zenov_os.Universe.Resolver.Alternatives.{alternative_has, resolve_alternatives-Resolves}
use zenov_os.Universe.Resolver.Emission.{
  is_ready, inspect-Resolves, emit-blocked, member-emit, member-emit_self, emit-IsMet,
}

-- The best provider provides the capability.
best_of-provides :
    (c : Bytes) (records : List Descriptor) (architecture : Bytes) (n i : ℕ)
    → best_of c records architecture n ≡ some i
    → member c (at_record records i).provides ≡ true
unfolding best_of better
best_of-provides c records architecture zero i h = cc
best_of-provides c records architecture (suc n) i h =
    elim (Option-cases (best_of c records architecture n)) [
      | inl e ↦ elim (Bool-cases (member c (at_record records n).provides)) [
        | inl k ↦
            let same : n ≡ i = cc (rw k at (rw e at h)) in
            subst (λ j. member c (at_record records j).provides ≡ true) same k
        | inr k ↦ cc (rw k at (rw e at h))
      ]
      | inr (best, e) ↦
          let kept : some best ≡ some i → member c (at_record records i).provides ≡ true =
            λ k. best_of-provides c records architecture n i (e ∙ k) in
          elim (Bool-cases (member c (at_record records n).provides)) [
            | inr k ↦ kept (rw k at (rw e at h))
            | inl k ↦
                elim (Bool-cases
                  (is_better (at_record records n) (at_record records best) architecture)) [
                    | inr z ↦ kept (rw z at (rw k at (rw e at h)))
                    | inl z ↦
                        let same : n ≡ i = cc (rw z at (rw k at (rw e at h))) in
                        subst (λ j. member c (at_record records j).provides ≡ true) same k
                  ]
          ]
    ]

pub best_provider-provides :
    (c : Bytes) (records : List Descriptor) (architecture : Bytes) (i : ℕ)
    → best_provider c records architecture ≡ some i
    → member c (at_record records i).provides ≡ true
unfolding best_provider
best_provider-provides c records architecture i h =
    best_of-provides c records architecture (length records) i h

native_or : (s k r z : Bool) → (not s && k && r) ≡ false → (not (k && r) || s || z) ≡ true
native_or true true true z h = refl
native_or true true false z h = refl
native_or true false r z h = refl
native_or false true true z h = cc
native_or false true false z h = refl
native_or false false r z h = refl

or_map :
    (x s t z w : Bool)
    → (s ≡ true → t ≡ true)
    → (z ≡ true → w ≡ true)
    → (x || s || z) ≡ true
    → (x || t || w) ≡ true
or_map true s t z w f g h = refl
or_map false true t z w f g h = rw (f refl) refl
or_map false false t z w f g h = or_last t w (g h)

module _ (records : List Descriptor) (host_architecture : Bytes) (host : List Bytes) where
  abbrev here : Context → Bytes → Bool
  here context = has records host_architecture host context

  -- What is there is provided by the host or by the order.
  pub here-is_provided :
      (a : Context) (c : Bytes)
      → IsMet records host_architecture host a.plan.order a.emitted
      → here a c ≡ true
      → is_provided records host_architecture host a.plan.order c ≡ true
  here-is_provided a c inv h = elim (Bool-cases (member c host)) [
    | inl e ↦ rw e refl
    | inr e ↦ inv.covers c (rw e at h)
  ]

  module _ (resolve : Bytes → Context → Result Context)
      (resolve_ok : (c : Bytes) (a b : Context)
        → resolve c a ≡ ok b
        → Resolves records host_architecture host (λ context. here context c) a b) where
    -- The native runtime is there, where the provider needs it.
    abbrev native_here : Bytes → Descriptor → Context → Bool
    native_here c d context =
        not (is_native records host_architecture host d)
        || str_eq c (codes "runtime.native")
        || here context (codes "runtime.native")

    pub resolve_native-Resolves :
        (c : Bytes) (d : Descriptor) (a b : Context)
        → resolve_native records host_architecture host resolve c d a ≡ ok b
        → Resolves records host_architecture host (native_here c d) a b
    unfolding resolve_native
    resolve_native-Resolves c d a b h =
        let s = str_eq c (codes "runtime.native") in
        let k = str_eq d.kind (codes "runtime") in
        let r = str_eq d.runtime (codes "native") in
        elim (Bool-cases (not s && k && r)) [
          | inl e ↦
              let called = resolve_ok (codes "runtime.native") a b (rw e at h) in
              (called.0, λ free. or_last (not (k && r) || s) _ (called.1 free))
          | inr e ↦
              let same = ok_injective a b (rw e at h) in
              (
                subst (Step records host_architecture host a) same
                    (Step-refl records host_architecture host a),
                λ free. native_or s k r _ e,
              )
        ]

    -- A package that has all that it needs there has it in the order.
    package_met-here :
        (c : Bytes) (d : Descriptor) (a : Context)
        → member c d.provides ≡ true
        → IsMet records host_architecture host a.plan.order a.emitted
        → is_ready records host_architecture host d ≡ true
        → native_here c d a ≡ true
        → all_texts (here a) d.requirements ≡ true
        → all_texts (λ e. alternative_has records host_architecture host e a) d.requirement_any
          ≡ true
        → package_met records host_architecture host a.plan.order d ≡ true
    package_met-here c d a own inv ready native required settled =
        let need = λ (x : Bytes). here-is_provided a x inv in
        let own_native : str_eq c (codes "runtime.native") ≡ true
            → member (codes "runtime.native") d.provides ≡ true =
          λ e.
            subst (λ t. member t d.provides ≡ true) ((str_eq_iff c (codes "runtime.native")).0 e)
              own in
        and_intro _ _
          (and_intro _ _ ready (
            or_map (not (is_native records host_architecture host d)) _ _ _ _ own_native
              (need (codes "runtime.native")) native))
          (and_intro _ _ (all_texts_mono (here a) _ d.requirements need required) (
            all_texts_mono _ _ d.requirement_any
              (λ e h. some_option_mono (here a) _ (parse_capability_alternatives e) need h)
              settled))

    pub resolve_provider-Resolves :
        (c : Bytes) (i : ℕ) (a b : Context)
        → member c (at_record records i).provides ≡ true
        → resolve_provider records host_architecture host resolve c i a ≡ ok b
        → Resolves records host_architecture host (λ context. here context c) a b
    unfolding resolve_provider
    resolve_provider-Resolves c i a b own h =
        let d = at_record records i in
        let inspected = inspect-Resolves records host_architecture host d a in
        let checked = inspect records host_architecture host d a in
        let native =
          bind-eq-ok (resolve_native records host_architecture host resolve c d checked) _ h in
        let required =
          bind-eq-ok (resolve_all records host_architecture host resolve d.requirements native.0) _
            native.2 in
        let settled =
          bind-eq-ok
            (resolve_alternatives records host_architecture host resolve d.requirement_any
              required.0)
            _ required.2 in
        let s = settled.0 in
        let first = resolve_native-Resolves c d checked native.0 native.1 in
        let second =
          resolve_all-Resolves records host_architecture host resolve resolve_ok d.requirements
            native.0 required.0 required.1 in
        let third =
          resolve_alternatives-Resolves records host_architecture host resolve resolve_ok
            d.requirement_any required.0 s settled.1 in
        let to_end =
          Step-trans records host_architecture host native.0 required.0 s second.0 third.0 in
        let after_checks =
          Step-trans records host_architecture host checked native.0 s first.0 to_end in
        let all = Step-trans records host_architecture host a checked s inspected.0 after_checks in
        let same = emit-blocked records host_architecture host c i s in
        let after = emit records host_architecture host c i s in
        let native_there : s.plan.blocked ≡ [] → native_here c d s ≡ true = λ free.
          or_map (not (is_native records host_architecture host d)) _ _ _ _ (λ e. e)
            (λ e.
              has-Step records host_architecture host native.0 s (codes "runtime.native") to_end e)
            (first.1 (to_end.kept free)) in
        let required_there : s.plan.blocked ≡ [] → all_texts (here s) d.requirements ≡ true =
          λ free.
            all_texts_mono (here required.0) (here s) d.requirements
              (λ x e. has-Step records host_architecture host required.0 s x third.0 e)
              (second.1 (third.0.kept free)) in
        let ready : s.plan.blocked ≡ []
            → IsMet records host_architecture host s.plan.order s.emitted
            → package_met records host_architecture host s.plan.order d ≡ true =
          λ free inv.
            package_met-here c d s own inv (inspected.1 (after_checks.kept free))
              (native_there free) (required_there free) (third.1 free) in
        subst (Resolves records host_architecture host (λ context. here context c) a)
          (ok_injective after b settled.2)
          (
            record {
              kept = λ e. all.kept (sym same.0 ∙ e);
              more = λ x e. member-emit records host_architecture host c x i s (all.more x e);
              sound = λ inv e.
                  let free = sym same.0 ∙ e in
                  let before = all.sound inv free in
                  emit-IsMet records host_architecture host c i s before (ready free before);
              restored = same.1 ∙ all.restored;
            },
            λ e.
                or_last (member c host) _
                  (member-emit_self records host_architecture host c i s own),
          )
