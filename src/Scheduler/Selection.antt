-- ===== src/Scheduler/Selection.antt =====
-- What `select` of kernel/parts/scheduler_policy.inc chooses.
use zenov_os.Prelude.{
  ℕ, zero, suc, ◌+◌, ◌-◌, ◌%◌, ◌<◌, ◌≤◌, ◌≡◌, refl, sym, ap, subst, ◌∙◌, some, arith, List, Bool,
  true, false, ◌&&◌, ◌||◌, leb, ◌⊎◌, inl, inr, get_or, ltb→lt, ℕ_discrete, Bool-cases, ◌==◌, ltb,
}
use zenov_os.Prelude.Int.{ℤ, pos, negsuc, pos_part, neg_part, ◌+ℤ◌, ltb_ℤ}
use zenov_os.Scheduler.Policy.{
  Candidate, Choice, no_candidate, index_at, consider, select_from, select,
}

abbrev pub candidate_at : List Candidate → ℕ → Candidate
candidate_at cs i = get_or cs i no_candidate

-- A distance at which every ready candidate is no better than the chosen one, and worse where it
-- comes first.
abbrev IsBeaten : List Candidate → (ℕ → ℕ) → ℕ → ℕ → ℕ → Type 0
IsBeaten cs idx e best d =
    (candidate_at cs (idx d)).ready ≡ true
    → ((candidate_at cs (idx d)).dynamic_priority ≤ best)
      × (d < e → (candidate_at cs (idx d)).dynamic_priority < best)

-- The loop after the distances 1 to `k`, where distance `d` looks at index `idx d`.
data Stage (cs : List Candidate) (idx : ℕ → ℕ) (k : ℕ) (c : Choice) : Type 0 where
  nobody :
      c.selected ≡ negsuc 0
      → ((d : ℕ) → 1 ≤ d → d ≤ k → (candidate_at cs (idx d)).ready ≡ false)
      → Stage cs idx k c
  chosen :
      (e : ℕ)
      → 1 ≤ e
      → e ≤ k
      → c.selected ≡ pos (idx e)
      → (candidate_at cs (idx e)).ready ≡ true
      → (candidate_at cs (idx e)).dynamic_priority ≡ c.best
      → ((d : ℕ) → 1 ≤ d → d ≤ k → IsBeaten cs idx e c.best d)
      → Stage cs idx k c

-- What holds up to `k` and at `k + 1` holds up to `k + 1`.
extend :
    (P : ℕ → Type 0) (k : ℕ)
    → ((d : ℕ) → 1 ≤ d → d ≤ k → P d)
    → P (suc k)
    → (d : ℕ) → 1 ≤ d
    → d ≤ suc k
    → P d
extend P k before now d lo hi = elim (ℕ_discrete d (suc k)) [
  | yes e ↦ rw e now
  | no e ↦ before d lo (omega arith)
]

module _ (cs : List Candidate) (idx : ℕ → ℕ) (k : ℕ) (c : Choice) where
  take_new :
      (candidate_at cs (idx (suc k))).ready ≡ true
      → ((d : ℕ)
          → 1 ≤ d
          → d ≤ k
          → (candidate_at cs (idx d)).ready ≡ true
          → (candidate_at cs (idx d)).dynamic_priority
            < (candidate_at cs (idx (suc k))).dynamic_priority)
      → Stage cs idx (suc k) (record {
        selected = pos (idx (suc k));
        best = (candidate_at cs (idx (suc k))).dynamic_priority;
      })
  take_new r below = chosen (suc k) (omega arith) (omega arith) refl r refl (
      extend (IsBeaten cs idx (suc k) _) k
        (λ d lo hi ready. let less = below d lo hi ready in (omega arith, λ _. less))
        (λ ready. (omega arith, λ h. absurd (omega arith))))

  consider_takes :
      (candidate_at cs (idx (suc k))).ready ≡ true
      → (ltb_ℤ c.selected (pos 0) || ltb c.best (candidate_at cs (idx (suc k))).dynamic_priority)
        ≡ true
      → consider cs (idx (suc k)) c ≡ record {
        selected = pos (idx (suc k));
        best = (candidate_at cs (idx (suc k))).dynamic_priority;
      }
  unfolding consider
  consider_takes r t = ground arith

  consider_keeps :
      ((candidate_at cs (idx (suc k))).ready ≡ true
        → (ltb_ℤ c.selected (pos 0) || ltb c.best (candidate_at cs (idx (suc k))).dynamic_priority)
          ≡ false)
      → consider cs (idx (suc k)) c ≡ c
  unfolding consider
  consider_keeps t = ground arith

  consider-Stage : Stage cs idx k c → Stage cs idx (suc k) (consider cs (idx (suc k)) c)
  consider-Stage (nobody s none_ready) = elim (Bool-cases (candidate_at cs (idx (suc k))).ready) [
    | inr r ↦
        rw (consider_keeps (λ r'. absurd (cc (r, r'))))
          (nobody s (extend (λ d. (candidate_at cs (idx d)).ready ≡ false) k none_ready r))
    | inl r ↦
        rw (consider_takes r (ground arith))
          (take_new r (λ d lo hi ready. absurd (cc (ready, none_ready d lo hi))))
  ]
  consider-Stage (chosen e lo hi s ready best beaten) =
      elim (Bool-cases (candidate_at cs (idx (suc k))).ready) [
        | inr r ↦ rw (consider_keeps (λ r'. absurd (cc (r, r')))) (
            chosen e lo (omega arith) s ready best
              (extend (IsBeaten cs idx e c.best) k beaten (λ r'. absurd (cc (r, r')))))
        | inl r ↦ elim (Bool-cases (ltb c.best (candidate_at cs (idx (suc k))).dynamic_priority)) [
          | inl better ↦ rw (consider_takes r (ground arith)) (
              take_new r (λ d lo' hi' ready'.
                let b = (beaten d lo' hi' ready').0 in let up = ltb→lt _ _ better in omega arith))
          | inr worse ↦ rw (consider_keeps (λ r'. ground arith)) (
              chosen e lo (omega arith) s ready best (
                extend (IsBeaten cs idx e c.best) k beaten
                  (λ r'. (ground arith, λ h. absurd (omega arith)))))
        ]
      ]

select_from-Stage :
    (rounds : ℕ) (cs : List Candidate) (n : ℕ) (cur : ℤ) (k last : ℕ) (c : Choice)
    → k + rounds ≡ last
    → Stage cs (index_at cur n) k c
    → Stage cs (index_at cur n) last (select_from rounds cs n cur (suc k) c)
unfolding select_from
select_from-Stage zero cs n cur k last c e s = let e' : k ≡ last = omega arith in rw (← e') s
select_from-Stage (suc rounds) cs n cur k last c e s =
    let next : suc k + 1 ≡ suc (suc k) = omega arith in
    rw next (
      select_from-Stage rounds cs n cur (suc k) last (consider cs (index_at cur n (suc k)) c)
        (omega arith) (consider-Stage cs (index_at cur n) k c s))

-- A round before the wrap, and one after it.
mod_once : (x n j : ℕ) → x ≡ j + n → j < n → x % n ≡ j
mod_once x n j e h = grind arith

mod_twice : (x n j : ℕ) → x ≡ j + n + n → j < n → x % n ≡ j
mod_twice x n j e h = grind arith

index_sum :
    (cur : ℤ) (m : ℕ) → neg_part cur ≤ m → pos_part (cur +ℤ pos m) ≡ pos_part cur + m - neg_part cur
unfolding ◌+ℤ◌
index_sum cur m h = ground arith

index_at_lem :
    (cur : ℤ) (n d : ℕ)
    → neg_part cur ≤ d
    → index_at cur n d ≡ (pos_part cur + (d + n) - neg_part cur) % n
unfolding index_at
index_at_lem cur n d h = ap (λ (t : ℕ). t % n) (index_sum cur (d + n) (omega arith))

-- The index one after the current one, from which the rounds start.
abbrev after : ℤ → ℕ
after cur = pos_part cur + 1 - neg_part cur

index_near :
    (cur : ℤ) (n j : ℕ)
    → neg_part cur ≤ 1
    → (pos_part cur ≡ 0) ⊎ (neg_part cur ≡ 0)
    → after cur ≤ j
    → j < n
    → index_at cur n (j + 1 - after cur) ≡ j
index_near cur n j low one h hj =
    index_at_lem cur n (j + 1 - after cur) (omega arith) ∙ mod_once _ n j (omega arith) hj

index_far :
    (cur : ℤ) (n j : ℕ)
    → neg_part cur ≤ 1
    → pos_part cur < n
    → (pos_part cur ≡ 0) ⊎ (neg_part cur ≡ 0)
    → j < after cur
    → j < n
    → index_at cur n (j + n + 1 - after cur) ≡ j
index_far cur n j low high one h hj =
    index_at_lem cur n (j + n + 1 - after cur) (omega arith) ∙ mod_twice _ n j (omega arith) hj

one_part : (cur : ℤ) → (pos_part cur ≡ 0) ⊎ (neg_part cur ≡ 0)
one_part (pos c) = inr refl
one_part (negsuc c) = inl refl

-- The rounds reach every index.
index_at-onto :
    (cur : ℤ) (n j : ℕ)
    → neg_part cur ≤ 1
    → pos_part cur < n
    → j < n
    → (d : ℕ) × (1 ≤ d) × (d ≤ n) × (index_at cur n d ≡ j)
index_at-onto cur n j low high h = elim (Bool-cases (ltb j (after cur))) [
  | inl far ↦ (
    j + n + 1 - after cur,
    ground arith,
    ground arith,
    index_far cur n j low high (one_part cur) (ltb→lt _ _ far) h,
  )
  | inr near ↦ (
    j + 1 - after cur,
    ground arith,
    ground arith,
    index_near cur n j low (one_part cur) (ground arith) h,
  )
]

index_at-lt : (cur : ℤ) (n d : ℕ) → 0 < n → index_at cur n d < n
unfolding index_at
index_at-lt cur n d h = omega arith

-- The result in terms of the rounds.
abbrev ChoosesRound : List Candidate → ℕ → ℤ → ℤ → Type 0
ChoosesRound cs n cur r =
    ((r ≡ negsuc 0) × ((j : ℕ) → j < n → (candidate_at cs j).ready ≡ false))
    ⊎ ((e : ℕ) × (1 ≤ e)
        × (e ≤ n)
        × (r ≡ pos (index_at cur n e))
        × (index_at cur n e < n)
        × ((candidate_at cs (index_at cur n e)).ready ≡ true)
        × ((j : ℕ)
            → j < n
            → (candidate_at cs j).ready ≡ true
            → (candidate_at cs j).dynamic_priority
              ≤ (candidate_at cs (index_at cur n e)).dynamic_priority)
        × ((d : ℕ)
            → 1 ≤ d
            → d < e
            → (candidate_at cs (index_at cur n d)).ready ≡ true
            → (candidate_at cs (index_at cur n d)).dynamic_priority
              < (candidate_at cs (index_at cur n e)).dynamic_priority))

Stage-ChoosesRound :
    (cs : List Candidate) (n : ℕ) (cur : ℤ) (c : Choice)
    → 0 < n
    → neg_part cur ≤ 1
    → pos_part cur < n
    → Stage cs (index_at cur n) n c
    → ChoosesRound cs n cur c.selected
Stage-ChoosesRound cs n cur c h low high (nobody s none_ready) = inl (
  s,
  λ j hj. let (d, lo, hi, e) = index_at-onto cur n j low high hj in rw (← e) (none_ready d lo hi),
)
Stage-ChoosesRound cs n cur c h low high (chosen e lo hi s ready best beaten) = inr (
  e,
  lo,
  hi,
  s,
  index_at-lt cur n e h,
  ready,
  (λ j hj r.
      let (d, lo', hi', at) = index_at-onto cur n j low high hj in
      rw (best, ← at) (beaten d lo' hi' (rw at r)).0),
  (λ d lo' less r. rw best ((beaten d lo' (omega arith) r).1 less)),
)

-- The index behind the current one; -1 stands for no current task.
abbrev pub next_index : ℤ → ℕ
next_index (pos c) = c + 1
next_index (negsuc c) = 0

-- In a ring that is entered at `start`, index `j` is reached before index `i`: the indices from
-- `start` up come first, then those below it.
abbrev pub is_sooner : ℕ → ℕ → ℕ → Bool
is_sooner start j i =
    leb start j && (ltb i start || ltb j i) || ltb j start && ltb i start && ltb j i

-- Where the round at a distance looks, before the wrap and after it.
index_at-place :
    (cur : ℤ) (n d : ℕ)
    → neg_part cur ≤ 1
    → pos_part cur < n
    → 1 ≤ d
    → d ≤ n
    → ((next_index cur ≤ index_at cur n d) × (index_at cur n d + 1 ≡ next_index cur + d))
      ⊎ ((index_at cur n d < next_index cur) × (index_at cur n d + n + 1 ≡ next_index cur + d))
index_at-place (pos c) n d low high lo hi =
    let sum = index_at_lem (pos c) n d (omega arith) in
    elim (Bool-cases (ltb (c + d) n)) [
      | inl e ↦
          let near : index_at (pos c) n d ≡ c + d =
            sum ∙ mod_once (c + (d + n) - 0) n (c + d) (omega arith) (ltb→lt _ _ e) in
          inl (omega (arith, near), omega (arith, near))
      | inr e ↦
          let wraps : n ≤ c + d = ground arith in
          let far : index_at (pos c) n d ≡ c + d - n =
            sum ∙ mod_twice (c + (d + n) - 0) n (c + d - n) (omega arith) (omega arith) in
          inr (omega (arith, far), omega (arith, far))
    ]
index_at-place (negsuc c) n d low high lo hi =
    let near : index_at (negsuc c) n d ≡ d - 1 =
      index_at_lem (negsuc c) n d (omega arith)
      ∙ mod_once (0 + (d + n) - suc c) n (d - 1) (omega arith) (omega arith) in
    inl (omega arith, omega (arith, near))

-- What is reached before comes at a smaller distance.
is_sooner-lt :
    (cur : ℤ) (n d e : ℕ)
    → neg_part cur ≤ 1
    → pos_part cur < n
    → 1 ≤ d
    → d ≤ n
    → 1 ≤ e
    → e ≤ n
    → is_sooner (next_index cur) (index_at cur n d) (index_at cur n e) ≡ true
    → d < e
is_sooner-lt cur n d e low high lo hi lo' hi' h = elim (index_at-place cur n d low high lo hi) [
  | inl near ↦ elim (index_at-place cur n e low high lo' hi') [
    | inl near' ↦ let (p, q) = near in let (p', q') = near' in ground arith
    | inr far' ↦
        let (p, q) = near in
        let (p', q') = far' in let inside = index_at-lt cur n d (omega arith) in ground arith
  ]
  | inr far ↦ elim (index_at-place cur n e low high lo' hi') [
    | inl near' ↦ let (p, q) = far in let (p', q') = near' in ground arith
    | inr far' ↦
        let (p, q) = far in
        let (p', q') = far' in let inside = index_at-lt cur n d (omega arith) in ground arith
  ]
]

-- What a result of `select` promises: -1 where none is ready, otherwise the index of a ready
-- candidate; no ready one is better, and those that the ring reaches before are worse.
abbrev pub Chooses : List Candidate → ℕ → ℤ → ℤ → Type 0
Chooses cs n cur r =
    ((r ≡ negsuc 0) × ((j : ℕ) → j < n → (candidate_at cs j).ready ≡ false))
    ⊎ ((i : ℕ) × (i < n)
        × (r ≡ pos i)
        × ((candidate_at cs i).ready ≡ true)
        × ((j : ℕ)
            → j < n
            → (candidate_at cs j).ready ≡ true
            → (candidate_at cs j).dynamic_priority ≤ (candidate_at cs i).dynamic_priority)
        × ((j : ℕ)
            → j < n
            → (candidate_at cs j).ready ≡ true
            → is_sooner (next_index cur) j i ≡ true
            → (candidate_at cs j).dynamic_priority < (candidate_at cs i).dynamic_priority))

ChoosesRound-Chooses :
    (cs : List Candidate) (n : ℕ) (cur r : ℤ)
    → neg_part cur ≤ 1
    → pos_part cur < n
    → ChoosesRound cs n cur r
    → Chooses cs n cur r
ChoosesRound-Chooses cs n cur r low high (inl nobody_ready) = inl nobody_ready
ChoosesRound-Chooses cs n cur r low high (inr (e, lo, hi, same, less, ready, best, first)) = inr (
  index_at cur n e,
  less,
  same,
  ready,
  best,
  λ j hj r' h.
      let (d, lo', hi', at) = index_at-onto cur n j low high hj in
      let sooner : is_sooner (next_index cur) (index_at cur n d) (index_at cur n e) ≡ true =
        subst (λ t. is_sooner (next_index cur) t (index_at cur n e) ≡ true) (sym at) h in
      let before = is_sooner-lt cur n d e low high lo' hi' lo hi sooner in
      subst
        (λ t.
          (candidate_at cs t).dynamic_priority
          < (candidate_at cs (index_at cur n e)).dynamic_priority)
        at (first d lo' before (subst (λ t. (candidate_at cs t).ready ≡ true) (sym at) r')),
)

-- `select` over a table of `n` candidates with a current index below `n`, or -1, answers -1 where
-- none is ready, and otherwise the index of a ready candidate. No ready candidate has a higher
-- priority, and the ready ones that come before it in the ring, which starts behind the current
-- index, or at 0 where there is none, and ends with the current one, have a lower one.
pub select_lem :
    (cs : List Candidate) (n : ℕ) (cur : ℤ)
    → 0 < n
    → neg_part cur ≤ 1
    → pos_part cur < n
    → Chooses cs n cur (select (some cs) n cur)
unfolding select
select_lem cs n cur h low high =
    let z : (n == 0) ≡ false = ground arith in
    rw z (
      ChoosesRound-Chooses cs n cur _ low high (
        Stage-ChoosesRound cs n cur _ h low high (
          select_from-Stage n cs n cur 0 n (record { selected = negsuc 0; best = 0 }) (omega arith)
            (nobody refl (λ d lo hi. absurd (omega arith))))))
