-- ===== src/Jobs/Oldest.antt =====
-- The jobs that a worker may claim, the expiry of leases, and the job that a claim chooses: one that
-- waits and was created first.
use prime_server.Base.{
  ℕ, ◌≤◌, Str, true, false, none, some, List, [], ◌∷◌, ◌≡◌, refl, subst, ◌⊎◌, inl, inr, arith, All,
  All-keep, keep-All, keep-passes, sort-All, All-sort, IsSorted, sort-IsSorted, lookup, IsDistinct,
  entries-lookup, All-lookup, str_eq, Option-cases,
}
use mathlib.Core.Option.{some-injective}
use prime_server.Jobs.{
  waiting, queued, running, Job, Jobs, is_queued, expire, expire_all, lease_ended, is_older, first,
  next_queued,
}

module _ {R : Type 0} where
  -- A worker may take a job that waits, or one whose worker let its lease end.
  abbrev pub IsClaimable : ℕ → Job R → Type 0
  IsClaimable now job =
      (job.status ≡ queued) ⊎ ((job.status ≡ running) × (lease_ended job.lease_until now ≡ true))

  pub queued-expire :
      (now : ℕ) (job : Job R) → is_queued (expire now job).status ≡ true → IsClaimable now job
  unfolding expire
  queued-expire now job h = ground arith

  pub expire-queued :
      (now : ℕ) (job : Job R) → IsClaimable now job → is_queued (expire now job).status ≡ true
  unfolding expire
  expire-queued now job h = ground arith

  pub created_at-expire : (now : ℕ) (job : Job R) → (expire now job).created_at ≡ job.created_at
  unfolding expire
  created_at-expire now job = ground arith

  pub lookup-expire_all :
      (now : ℕ) (id : Str) (jobs : Jobs R)
      → lookup id (expire_all now jobs)
        ≡ elim (lookup id jobs) [ none ↦ none | some job ↦ some (expire now job) ]
  unfolding expire_all lookup
  lookup-expire_all now id [] = refl
  lookup-expire_all now id ((k, job) ∷ jobs) = ground (arith, lookup-expire_all now id jobs)

  pub expire_all-IsDistinct :
      (now : ℕ) (jobs : Jobs R) → IsDistinct jobs → IsDistinct (expire_all now jobs)
  unfolding expire_all
  expire_all-IsDistinct now [] d = tt
  expire_all-IsDistinct now ((k, job) ∷ jobs) (free, d) =
      (rw (lookup-expire_all now k jobs) (rw free), expire_all-IsDistinct now jobs d)

  pub expired :
      (now : ℕ) (id : Str) (jobs : Jobs R) (job : Job R)
      → lookup id jobs ≡ some job
      → lookup id (expire_all now jobs) ≡ some (expire now job)
  expired now id jobs job h = rw (lookup-expire_all now id jobs) (rw h refl)

  -- A job found in the table with leases expired.
  pub expired_before :
      (now : ℕ) (id : Str) (jobs : Jobs R) (job : Job R)
      → lookup id (expire_all now jobs) ≡ some job
      → (before : Job R) × (lookup id jobs ≡ some before) × (expire now before ≡ job)
  expired_before now id jobs job h = elim (Option-cases (lookup id jobs)) [
    | inl e ↦ ground (arith, lookup-expire_all now id jobs)
    | inr (before, e) ↦ (before, e, ground (arith, lookup-expire_all now id jobs))
  ]

  pub older_total : (a b : Str × Job R) → is_older a b ≡ false → is_older b a ≡ true
  older_total a b h = ground arith

  pub older_trans :
      (a b c : Str × Job R) → is_older a b ≡ true → is_older b c ≡ true → is_older a c ≡ true
  older_trans a b c h k = ground arith

  pub first-All {ℓ} :
      (P : Str × Job R → Type ℓ) (l : List (Str × Job R)) (e : Str × Job R)
      → All P l
      → first l ≡ some e
      → P e
  first-All P [] e h f = cc
  first-All P (x ∷ l) e h f = subst P (some-injective x e f) h.0

  pub first-least :
      (l : List (Str × Job R)) (e : Str × Job R)
      → IsSorted is_older l
      → first l ≡ some e
      → All (λ x. is_older e x ≡ true) l
  first-least [] e s f = tt
  first-least (x ∷ l) e s f =
      let same : x ≡ e = some-injective x e f in
      subst (λ y. All (λ z. is_older y z ≡ true) (x ∷ l)) same (ground arith, s.0)

  pub empty_All : (P : Str × Job R → Type 0) (l : List (Str × Job R)) → first l ≡ none → All P l
  empty_All P [] h = tt
  empty_All P (x ∷ l) h = cc

  module _ (jobs : Jobs R) (distinct : IsDistinct jobs) (e : Str × Job R)
      (chosen : next_queued jobs ≡ some e) where
    pub next_queued-found : lookup e.0 jobs ≡ some e.1
    unfolding next_queued
    next_queued-found =
        first-All (λ x. lookup x.0 jobs ≡ some x.1) _ e
          (sort-All is_older _ _ (keep-All _ _ jobs (entries-lookup jobs distinct))) chosen

    pub next_queued-queued : is_queued e.1.status ≡ true
    unfolding next_queued
    next_queued-queued =
        first-All (λ x. is_queued x.1.status ≡ true) _ e
          (sort-All is_older _ _ (keep-passes _ jobs)) chosen

    pub next_queued-oldest :
        (id : Str) (job : Job R)
        → lookup id jobs ≡ some job
        → is_queued job.status ≡ true
        → e.1.created_at ≤ job.created_at
    unfolding next_queued
    next_queued-oldest id job found waits =
        let least =
          first-least _ e (sort-IsSorted is_older older_total older_trans (waiting jobs)) chosen in
        let kept =
          All-keep (λ x. is_older e x ≡ true) _ jobs (All-sort is_older _ (waiting jobs) least) in
        let older =
          All-lookup (λ x. is_queued x.1.status ≡ true → is_older e x ≡ true) jobs id job kept found
            waits in
        ground arith
