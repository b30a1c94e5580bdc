-- ===== src/Universe/Resolver/Alternatives.antt =====
-- What the resolution of a list of alternatives keeps and gives.
use zenov_os.Prelude.{
  ◌≡◌, ◌≢◌, refl, sym, subst, ◌∙◌, inl, inr, List, [], ◌∷◌, Bool, true, ◌==◌, none, some,
  Bool-cases, Option-cases, and_intro,
}
use zenov_os.Prelude.Bytes.{Bytes}
use zenov_os.Prelude.Bytes.Sorting.{all_texts}
use zenov_os.Prelude.Result.{Result, ok, ◌>>=◌, bind-eq-ok, ok_injective}
use zenov_os.Universe.Capability.{parse_capability_alternatives, canonical_alternatives}
use zenov_os.Universe.Descriptor.{Descriptor}
use zenov_os.Universe.Resolver.{
  Plan, Context, Attempt, min_attempt, decide, reject, reject_all, choose,
}
use zenov_os.Universe.Resolver.Resolve.{
  has, first_present, try_options, resolve_alternative, resolve_alternatives,
}
use zenov_os.Universe.Resolver.Order.{any_text, any_text-member, some_option, some_option_mono}
use zenov_os.Universe.Resolver.Steps.{
  Step, Step-trans, Step-blocked, Step-refl, has-Step, Resolves, push_new-ne-nil, AllTried,
  try_options-AllTried, min_attempt-Tried,
}

reject-blocked : (attempts : List Attempt) (p : Plan) → (reject attempts p).blocked ≡ p.blocked
unfolding reject
reject-blocked [] p = refl
reject-blocked (attempt ∷ attempts) p = reject-blocked attempts _

module _ (records : List Descriptor) (host_architecture : Bytes) (host : List Bytes) where
  abbrev here : Context → Bytes → Bool
  here context = has records host_architecture host context

  -- Some option is there.
  abbrev pub alternative_has : Bytes → Context → Bool
  alternative_has expression context =
      some_option (here context) (parse_capability_alternatives expression)

  first_present-eq-some :
      (context : Context) (options : List Bytes) (option : Bytes)
      → first_present records host_architecture host context options ≡ some option
      → any_text (here context) options ≡ true
  unfolding first_present any_text
  first_present-eq-some context [] option h = cc
  first_present-eq-some context (x ∷ xs) option h = elim (Bool-cases (here context x)) [
    | inl e ↦ rw e refl
    | inr e ↦ rw e (first_present-eq-some context xs option (rw e at h))
  ]

  reject_all-Step :
      (canonical : Bytes) (attempts : List Attempt) (a : Context)
      → (reject_all canonical attempts a).plan.blocked ≢ []
  unfolding reject_all
  reject_all-Step canonical attempts a e =
      push_new-ne-nil _ a.plan.blocked (sym (reject-blocked attempts _) ∙ e)

  reject_all-Resolves :
      (goal : Context → Bool) (canonical : Bytes) (attempts : List Attempt) (a : Context)
      → Resolves records host_architecture host goal a (reject_all canonical attempts a)
  unfolding reject_all
  reject_all-Resolves goal canonical attempts a =
      let blocked = reject_all-Step canonical attempts a in
      (
        Step-blocked records host_architecture host a (reject_all canonical attempts a) blocked refl
            refl,
        λ e. absurd (blocked e),
      )

  decide-Step :
      (expression selected : Bytes) (satisfied : Bool) (a : Context)
      → Step records host_architecture host a (decide expression selected satisfied a)
  decide-Step expression selected satisfied a = record {
    kept = λ e. e;
    more = λ c h. h;
    sound = λ inv e. inv;
    restored = refl;
  }

  module _ (resolve : Bytes → Context → Result Context)
      (resolve_ok : (c : Bytes) (a b : Context)
        → resolve c a ≡ ok b
        → Resolves records host_architecture host (λ context. here context c) a b) where
    choose-Resolves :
        (canonical : Bytes) (options : List Bytes) (attempts : List Attempt) (a : Context)
        → AllTried records host_architecture host a options attempts
        → Resolves records host_architecture host
            (λ context. any_text (here context) options)
            a
            (choose canonical attempts a)
    unfolding choose
    choose-Resolves canonical options [] a h =
        reject_all-Resolves (λ context. any_text (here context) options) canonical [] a
    choose-Resolves canonical options (attempt ∷ attempts) a h =
        let best = min_attempt attempt attempts in
        let tried =
          min_attempt-Tried records host_architecture host a options attempt attempts h.0 h.1 in
        elim (Bool-cases (best.added_blockers == 0)) [
          | inr e ↦ rw e (
              reject_all-Resolves (λ context. any_text (here context) options) canonical
                (attempt ∷ attempts) a)
          | inl e ↦ rw e (
            Step-trans records host_architecture host a best.context _ tried.1.0
                (decide-Step canonical best.option true best.context),
            λ free.
                any_text-member (here best.context) best.option options tried.0 (tried.1.1 free),
          )
        ]

    present_or_tried :
        (options : List Bytes) (canonical : Bytes) (a b : Context)
        → elim (first_present records host_architecture host a options) [
          | some option ↦ ok (decide canonical option true a)
          | none ↦ try_options records host_architecture host resolve a options >>= λ attempts.
              ok (choose canonical attempts a)
        ]
          ≡ ok b
        → Resolves records host_architecture host (λ context. any_text (here context) options) a b
    present_or_tried options canonical a b h =
        elim (Option-cases (first_present records host_architecture host a options)) [
          | inl e ↦
              let tried =
                bind-eq-ok (try_options records host_architecture host resolve a options) _
                  (rw e at h) in
              let attempts =
                try_options-AllTried records host_architecture host resolve resolve_ok a options
                  tried.0 tried.1 in
              subst
                (λ t.
                  Resolves records host_architecture host
                    (λ context. any_text (here context) options) a t)
                (ok_injective _ b tried.2) (choose-Resolves canonical options tried.0 a attempts)
          | inr (option, e) ↦
              subst
                (λ t.
                  Resolves records host_architecture host
                    (λ context. any_text (here context) options) a t)
                (ok_injective _ b (rw e at h))
                (
                  decide-Step canonical option true a,
                  λ free. first_present-eq-some a options option e,
                )
        ]

    pub resolve_alternative-Resolves :
        (expression : Bytes) (a b : Context)
        → resolve_alternative records host_architecture host resolve expression a ≡ ok b
        → Resolves records host_architecture host (alternative_has expression) a b
    unfolding resolve_alternative
    resolve_alternative-Resolves expression a b h =
        let parsed = bind-eq-ok (parse_capability_alternatives expression) _ h in
        let written = bind-eq-ok (canonical_alternatives expression) _ parsed.2 in
        let options = parsed.0 in
        let canonical = written.0 in
        let found = present_or_tried options canonical a b written.2 in
        (found.0, λ e. rw parsed.1 (unfold some_option in found.1 e))

    pub resolve_alternatives-Resolves :
        (es : List Bytes) (a b : Context)
        → resolve_alternatives records host_architecture host resolve es a ≡ ok b
        → Resolves records host_architecture host
            (λ context. all_texts (λ e. alternative_has e context) es)
            a
            b
    unfolding resolve_alternatives all_texts
    resolve_alternatives-Resolves [] a b h = (
      subst (Step records host_architecture host a) (ok_injective a b h)
          (Step-refl records host_architecture host a),
      λ e. refl,
    )
    resolve_alternatives-Resolves (c ∷ cs) a b h =
        let split =
          bind-eq-ok (resolve_alternative records host_architecture host resolve c a) _ h in
        let middle = split.0 in
        let first = resolve_alternative-Resolves c a middle split.1 in
        let rest = resolve_alternatives-Resolves cs middle b split.2 in
        (
          Step-trans records host_architecture host a middle b first.0 rest.0,
          λ e.
              and_intro _ _
                (some_option_mono (here middle) (here b) (parse_capability_alternatives c)
                  (λ x. has-Step records host_architecture host middle b x rest.0)
                  (first.1 (rest.0.kept e)))
                (rest.1 e),
        )
