-- ===== src/Universe/Resolver/Steps.antt =====
-- What a call of the resolver keeps: blockers stay, capabilities stay, and without blockers the order
-- stays one in which each package has what it needs before it.
use zenov_os.Prelude.{
  ℕ, ◌≡◌, ◌≢◌, refl, subst, ◌∙◌, inl, inr, List, [], ◌∷◌, Bool, true, Bool-cases, and_intro, arith,
}
use zenov_os.Prelude.Bytes.{Bytes, member}
use zenov_os.Prelude.Bytes.Laws.{str_eq_refl}
use zenov_os.Prelude.Bytes.Sorting.{all_texts}
use zenov_os.Prelude.Result.{Result, ok, bind-eq-ok, ok_injective}
use zenov_os.Universe.Descriptor.{Descriptor}
use zenov_os.Universe.Resolver.{Context, Attempt, push_new, min_attempt, attempt_less}
use zenov_os.Universe.Resolver.Resolve.{has, try_options, resolve_all}
use zenov_os.Universe.Resolver.Order.{is_provided, order_met}

pub push_new-ne-nil : (x : Bytes) (xs : List Bytes) → push_new x xs ≢ []
unfolding push_new member
push_new-ne-nil x [] e = cc
push_new-ne-nil x (y ∷ ys) e = elim (Bool-cases (member x (y ∷ ys))) [
  | inl there ↦ cc (rw there at e)
  | inr new ↦ cc (rw new at e)
]

module _ (records : List Descriptor) (host_architecture : Bytes) (host : List Bytes) where
  -- The order has what it needs, and provides what counts as provided.
  pub record IsMet (order : List ℕ) (emitted : List Bytes) : Type 0 where
    pub met : order_met records host_architecture host [] order ≡ true
    pub covers :
        (c : Bytes)
        → member c emitted ≡ true
        → is_provided records host_architecture host order c ≡ true

  pub record Step (before after : Context) : Type 0 where
    pub kept : after.plan.blocked ≡ [] → before.plan.blocked ≡ []
    pub more : (c : Bytes) → member c before.emitted ≡ true → member c after.emitted ≡ true
    pub sound :
        IsMet before.plan.order before.emitted
        → after.plan.blocked ≡ []
        → IsMet after.plan.order after.emitted
    pub restored : after.active ≡ before.active

  pub Step-refl : (context : Context) → Step context context
  Step-refl context = record {
    kept = λ e. e;
    more = λ c h. h;
    sound = λ inv e. inv;
    restored = refl;
  }

  pub Step-trans : (a b c : Context) → Step a b → Step b c → Step a c
  Step-trans a b c first second = record {
    kept = λ e. first.kept (second.kept e);
    more = λ x h. second.more x (first.more x h);
    sound = λ inv e. second.sound (first.sound inv (second.kept e)) e;
    restored = second.restored ∙ first.restored;
  }

  -- What is blocked now keeps nothing to be shown.
  pub Step-blocked :
      (a b : Context) → b.plan.blocked ≢ [] → b.emitted ≡ a.emitted → b.active ≡ a.active → Step a b
  Step-blocked a b blocked same active = record {
    kept = λ e. absurd (blocked e);
    more = λ c h. rw same h;
    sound = λ inv e. absurd (blocked e);
    restored = active;
  }

  -- A capability that is there stays there.
  pub has-Step :
      (a b : Context) (c : Bytes)
      → Step a b
      → has records host_architecture host a c ≡ true
      → has records host_architecture host b c ≡ true
  has-Step a b c step h = elim (Bool-cases (member c host)) [
    | inl e ↦ rw e refl
    | inr e ↦ rw e (step.more c (rw e at h))
  ]

  -- What a call for a capability gives.
  abbrev pub Resolves : (Context → Bool) → Context → Context → Type 0
  Resolves goal before after = Step before after × (after.plan.blocked ≡ [] → goal after ≡ true)

  -- The attempt was one of the options, resolved from the state before.
  abbrev pub Tried : Context → List Bytes → Attempt → Type 0
  Tried a options attempt =
      (member attempt.option options ≡ true)
      × Resolves (λ context. has records host_architecture host context attempt.option) a
          attempt.context

  abbrev pub AllTried : Context → List Bytes → List Attempt → Type 0
  AllTried a options [] = ◌≡◌ {A = ℕ} 0 0
  AllTried a options (attempt ∷ attempts) = Tried a options attempt × AllTried a options attempts

  tried_more :
      (a : Context) (option : Bytes) (options : List Bytes) (attempts : List Attempt)
      → AllTried a options attempts
      → AllTried a (option ∷ options) attempts
  unfolding member
  tried_more a option options [] h = refl
  tried_more a option options (attempt ∷ attempts) h =
      ((ground (arith, h.0.0), h.0.1), tried_more a option options attempts h.1)

  pub min_attempt-Tried :
      (a : Context) (options : List Bytes) (best : Attempt) (attempts : List Attempt)
      → Tried a options best
      → AllTried a options attempts
      → Tried a options (min_attempt best attempts)
  unfolding min_attempt
  min_attempt-Tried a options best [] h k = h
  min_attempt-Tried a options best (attempt ∷ attempts) h k =
      elim (Bool-cases (attempt_less attempt best)) [
        | inl e ↦ rw e (min_attempt-Tried a options attempt attempts k.0 k.1)
        | inr e ↦ rw e (min_attempt-Tried a options best attempts h k.1)
      ]

  module _ (resolve : Bytes → Context → Result Context)
      (resolve_ok : (c : Bytes) (a b : Context)
        → resolve c a ≡ ok b
        → Resolves (λ context. has records host_architecture host context c) a b) where
    pub resolve_all-Resolves :
        (cs : List Bytes) (a b : Context)
        → resolve_all records host_architecture host resolve cs a ≡ ok b
        → Resolves (λ context. all_texts (has records host_architecture host context) cs) a b
    unfolding resolve_all all_texts
    resolve_all-Resolves [] a b h = (subst (Step a) (ok_injective a b h) (Step-refl a), λ e. refl)
    resolve_all-Resolves (c ∷ cs) a b h =
        let split = bind-eq-ok (resolve c a) _ h in
        let middle = split.0 in
        let first = resolve_ok c a middle split.1 in
        let rest = resolve_all-Resolves cs middle b split.2 in
        (
          Step-trans a middle b first.0 rest.0,
          λ e. and_intro _ _ (has-Step middle b c rest.0 (first.1 (rest.0.kept e))) (rest.1 e),
        )

    pub try_options-AllTried :
        (a : Context) (options : List Bytes) (attempts : List Attempt)
        → try_options records host_architecture host resolve a options ≡ ok attempts
        → AllTried a options attempts
    unfolding try_options member
    try_options-AllTried a [] attempts h = subst (AllTried a []) (ok_injective [] attempts h) refl
    try_options-AllTried a (option ∷ options) attempts h =
        let split = bind-eq-ok (resolve option a) _ h in
        let after = split.0 in
        let others =
          bind-eq-ok (try_options records host_architecture host resolve a options) _ split.2 in
        let rest = try_options-AllTried a options others.0 others.1 in
        subst (AllTried a (option ∷ options)) (ok_injective _ attempts others.2) (
          (rw (str_eq_refl option) refl, resolve_ok option a after split.1),
          tried_more a option options others.0 rest,
        )
