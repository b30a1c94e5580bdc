-- ===== src/Universe/Resolver/Emission.antt =====
-- What the two ends of a call do: the checks of a provider, and the package put into the order.
use zenov_os.Prelude.{
  ℕ, ◌≡◌, refl, sym, ap, subst, inl, inr, List, [], ◌∷◌, ◌++◌, Bool, true, false, ◌&&◌, Bool-cases,
  arith,
}
use zenov_os.Prelude.Bytes.{Bytes, codes, str_eq, str_less, member, insert_sorted}
use zenov_os.Prelude.Bytes.Laws.{str_eq_refl}
use zenov_os.Universe.Descriptor.{Descriptor}
use zenov_os.Universe.Resolver.{Context, set_insert, set_erase, insert_all, has_index}
use zenov_os.Universe.Resolver.Providers.{at_record}
use zenov_os.Universe.Resolver.Resolve.{fits, inspect, emit}
use zenov_os.Universe.Resolver.Order.{
  member-insert_all, is_provided, provided_by, provided_by-append, has_index-provided_by,
  package_met, order_met-append,
}
use zenov_os.Universe.Resolver.Steps.{IsMet, Resolves, push_new-ne-nil}

set_erase-insert_sorted :
    (x : Bytes) (xs : List Bytes) → member x xs ≡ false → set_erase x (insert_sorted x xs) ≡ xs
unfolding set_erase insert_sorted member
set_erase-insert_sorted x [] h = rw (str_eq_refl x) refl
set_erase-insert_sorted x (y ∷ ys) h =
    let apart : str_eq y x ≡ false = ground arith in
    elim (Bool-cases (str_less y x)) [
      | inl e ↦ rw e (rw apart (ap (λ t. y ∷ t) (set_erase-insert_sorted x ys (ground arith))))
      | inr e ↦ rw e (rw (str_eq_refl x) refl)
    ]

pub set_erase-set_insert :
    (x : Bytes) (xs : List Bytes) → member x xs ≡ false → set_erase x (set_insert x xs) ≡ xs
unfolding set_insert
set_erase-set_insert x xs h = rw h (set_erase-insert_sorted x xs h)

module _ (records : List Descriptor) (host_architecture : Bytes) (host : List Bytes) where
  -- The provider itself brings no blocker.
  abbrev pub is_ready : Descriptor → Bool
  is_ready d = fits records host_architecture host d && str_eq d.availability (codes "available")

  inspect-blocked :
      (d : Descriptor) (a : Context)
      → (inspect records host_architecture host d a).plan.blocked ≡ []
      → (is_ready d ≡ true) × (a.plan.blocked ≡ [])
  unfolding inspect
  inspect-blocked d a h = elim (Bool-cases (str_eq d.availability (codes "available"))) [
    | inr e ↦ absurd (push_new-ne-nil _ _ (rw e at h))
    | inl e ↦ elim (Bool-cases (fits records host_architecture host d)) [
      | inr k ↦ absurd (push_new-ne-nil _ _ (rw k at (rw e at h)))
      | inl k ↦ (rw (k, e) refl, rw k at (rw e at h))
    ]
  ]

  inspect-order :
      (d : Descriptor) (a : Context)
      → (inspect records host_architecture host d a).plan.order ≡ a.plan.order
  unfolding inspect
  inspect-order d a = elim (Bool-cases (str_eq d.availability (codes "available"))) [
    | inr e ↦ rw e (elim (Bool-cases (fits records host_architecture host d)) [
      | inl k ↦ rw k refl
      | inr k ↦ rw k refl
    ])
    | inl e ↦ rw e (elim (Bool-cases (fits records host_architecture host d)) [
      | inl k ↦ rw k refl
      | inr k ↦ rw k refl
    ])
  ]

  pub inspect-Resolves :
      (d : Descriptor) (a : Context)
      → Resolves records host_architecture host
          (λ context. is_ready d)
          a
          (inspect records host_architecture host d a)
  unfolding inspect
  inspect-Resolves d a = (
    record {
      kept = λ e. (inspect-blocked d a e).1;
      more = λ c h. h;
      sound = λ inv e.
          subst (λ t. IsMet records host_architecture host t a.emitted) (sym (inspect-order d a))
            inv;
      restored = refl;
    },
    λ e. (inspect-blocked d a e).0,
  )

  abbrev after_emit : Bytes → ℕ → Context → Context
  after_emit c i a = emit records host_architecture host c i a

  pub emit-blocked :
      (c : Bytes) (i : ℕ) (a : Context)
      → ((after_emit c i a).plan.blocked ≡ a.plan.blocked) × ((after_emit c i a).active ≡ a.active)
  unfolding emit
  emit-blocked c i a = elim (Bool-cases (member c a.emitted)) [
    | inl e ↦ rw e (refl, refl)
    | inr e ↦ rw e (refl, refl)
  ]

  pub member-emit :
      (c x : Bytes) (i : ℕ) (a : Context)
      → member x a.emitted ≡ true
      → member x (after_emit c i a).emitted ≡ true
  unfolding emit
  member-emit c x i a h = elim (Bool-cases (member c a.emitted)) [
    | inl e ↦ rw e h
    | inr e ↦
        rw e (rw (member-insert_all x (at_record records i).provides a.emitted) (ground (arith, h)))
  ]

  pub member-emit_self :
      (c : Bytes) (i : ℕ) (a : Context)
      → member c (at_record records i).provides ≡ true
      → member c (after_emit c i a).emitted ≡ true
  unfolding emit
  member-emit_self c i a h = elim (Bool-cases (member c a.emitted)) [
    | inl e ↦ rw e e
    | inr e ↦ rw e (rw (member-insert_all c (at_record records i).provides a.emitted) (rw h refl))
  ]

  abbrev MetHere : List ℕ → List Bytes → Type 0
  MetHere order emitted = IsMet records host_architecture host order emitted

  covers_all :
      (i : ℕ) (order next : List ℕ) (emitted : List Bytes)
      → ((c : Bytes) → provided_by records order c ≡ true → provided_by records next c ≡ true)
      → ((c : Bytes)
          → member c (at_record records i).provides ≡ true
          → provided_by records next c ≡ true)
      → MetHere order emitted
      → (c : Bytes) → member c (insert_all (at_record records i).provides emitted) ≡ true
      → is_provided records host_architecture host next c ≡ true
  covers_all i order next emitted keep own inv c h =
      elim (Bool-cases (member c (at_record records i).provides)) [
        | inl e ↦ ground (arith, own c e)
        | inr e ↦
            let there : member c emitted ≡ true =
              rw e at (rw (member-insert_all c (at_record records i).provides emitted) at h) in
            elim (Bool-cases (member c host)) [
              | inl k ↦ rw k refl
              | inr k ↦ rw k (keep c (rw k at (inv.covers c there)))
            ]
      ]

  pub emit-IsMet :
      (c : Bytes) (i : ℕ) (a : Context)
      → MetHere a.plan.order a.emitted
      → package_met records host_architecture host a.plan.order (at_record records i) ≡ true
      → MetHere (after_emit c i a).plan.order (after_emit c i a).emitted
  unfolding emit
  emit-IsMet c i a inv ready = elim (Bool-cases (member c a.emitted)) [
    | inl e ↦ rw e inv
    | inr e ↦ rw e (elim (Bool-cases (has_index i a.plan.order)) [
      | inl k ↦ rw k (record {
        met = inv.met;
        covers =
            covers_all i a.plan.order a.plan.order a.emitted (λ x h. h)
              (λ x h. has_index-provided_by records a.plan.order i x k h) inv;
      })
      | inr k ↦ rw k (record {
        met = order_met-append records host_architecture host [] a.plan.order i inv.met ready;
        covers =
            covers_all i a.plan.order (a.plan.order ++ (i ∷ [])) a.emitted
              (λ x h. rw (provided_by-append records a.plan.order i x) (rw h refl))
              (λ x h. rw (provided_by-append records a.plan.order i x) (ground (arith, h))) inv;
      })
    ])
  ]
