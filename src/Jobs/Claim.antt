-- ===== src/Jobs/Claim.antt =====
-- What a worker gets from `claimRecovery`, and what happens to the other jobs.
use prime_server.Base.{
  ℕ, ◌≤◌, ◌<◌, Str, true, not, ◌||◌, is_safe, Option, none, some, ◌≡◌, ◌≢◌, refl, sym, ap, ◌∙◌,
  subst, arith, All-keep, All-sort, lookup, insert, lookup-insert_self, lookup-insert_other,
  IsDistinct, All-lookup, ltb, str_eq, ok, throw_if-then, ok-inj,
}
use mathlib.Core.Option.{some-injective}
use prime_server.Jobs.{
  waiting, running, Job, Jobs, is_queued, expire, expire_all, is_older, next_queued, claimed,
  hand_out, claim_recovery,
}
use prime_server.Jobs.Oldest.{
  IsClaimable, queued-expire, expire-queued, created_at-expire, expire_all-IsDistinct, expired,
  expired_before, empty_All, next_queued-found, next_queued-queued, next_queued-oldest,
}

module _ {R : Type 0} where
  pub record IsClaim (jobs jobs' : Jobs R) (now : ℕ) (worker_id : Str) (lease_ms : ℕ) (job : Job R)
      : Type 0 where
    pub key : Str
    pub before : Job R
    pub found : lookup key jobs ≡ some before
    pub claimable : IsClaimable now before
    pub oldest :
        (id : Str) (other : Job R)
        → lookup id jobs ≡ some other
        → IsClaimable now other
        → before.created_at ≤ other.created_at
    pub taken : job ≡ claimed (expire now before) worker_id now lease_ms
    pub stored : lookup key jobs' ≡ some job
    pub others :
        (id : Str) (other : Job R)
        → key ≢ id
        → lookup id jobs ≡ some other
        → lookup id jobs' ≡ some (expire now other)

  hand_out-none :
      (jobs : Jobs R) (worker_id : Str) (now lease_ms : ℕ) (o : Option (Str × Job R))
      {jobs' : Jobs R}
      → hand_out jobs worker_id now lease_ms o ≡ (jobs', none)
      → o ≡ none
  hand_out-none jobs worker_id now lease_ms none h = refl
  hand_out-none jobs worker_id now lease_ms (some e) h = cc

  -- The loop over an empty list of waiting jobs.
  nothing_waits :
      (jobs : Jobs R) (id : Str) (job : Job R)
      → next_queued jobs ≡ none
      → lookup id jobs ≡ some job
      → is_queued job.status ≡ true
      → ⊥
  unfolding next_queued
  nothing_waits jobs id job none_left found waits =
      let kept =
        All-keep (λ x. ⊥) _ jobs
          (All-sort is_older _ (waiting jobs) (empty_All (λ x. ⊥) _ none_left)) in
      All-lookup (λ x. is_queued x.1.status ≡ true → ⊥) jobs id job kept found waits

  module _ (jobs : Jobs R) (now : ℕ) (worker_id : Str) (lease_ms : ℕ) where
    hand_out-IsClaim :
        (jobs' : Jobs R) (job : Job R) (o : Option (Str × Job R))
        → IsDistinct jobs
        → next_queued (expire_all now jobs) ≡ o
        → hand_out (expire_all now jobs) worker_id now lease_ms o ≡ (jobs', some job)
        → IsClaim jobs jobs' now worker_id lease_ms job
    hand_out-IsClaim jobs' job none distinct chosen h = cc
    hand_out-IsClaim jobs' job (some (key, open_job)) distinct chosen h =
        let apart = expire_all-IsDistinct now jobs distinct in
        let (before, found, opened) =
          expired_before now key jobs open_job
            (next_queued-found (expire_all now jobs) apart (key, open_job) chosen) in
        let waits = next_queued-queued (expire_all now jobs) apart (key, open_job) chosen in
        let table : insert key (claimed open_job worker_id now lease_ms) (expire_all now jobs)
            ≡ jobs' =
          ap (λ (x : Jobs R × Option (Job R)). x.0) h in
        let taken : claimed open_job worker_id now lease_ms ≡ job =
          some-injective _ _ (ap (λ (x : Jobs R × Option (Job R)). x.1) h) in
        record {
          key = key;
          before = before;
          found = found;
          claimable =
              queued-expire now before (subst (λ j. is_queued j.status ≡ true) (sym opened) waits);
          oldest = λ id other at claimable.
              let le =
                next_queued-oldest (expire_all now jobs) apart (key, open_job) chosen id
                  (expire now other) (expired now id jobs other at)
                  (expire-queued now other claimable) in
              omega (
                arith,
                ap (λ (j : Job R). j.created_at) opened,
                created_at-expire now other,
                created_at-expire now before,
              );
          taken = sym taken ∙ ap (λ (j : Job R). claimed j worker_id now lease_ms) (sym opened);
          stored =
              subst (λ t. lookup key t ≡ some job) table
                (lookup-insert_self key _ (expire_all now jobs) ∙ ap some taken);
          others = λ id other apart_from at.
              subst (λ t. lookup id t ≡ some (expire now other)) table
                (lookup-insert_other key id _ (expire_all now jobs) apart_from
                  ∙ expired now id jobs other at);
        }

  -- The jobs after a claim that did not throw.
  claim_recovery-hand_out :
      (jobs : Jobs R) (now : ℕ) (worker_id : Str) (lease_ms : ℕ) {x : Jobs R × Option (Job R)}
      → claim_recovery jobs now worker_id lease_ms ≡ ok x
      → hand_out (expire_all now jobs) worker_id now lease_ms (next_queued (expire_all now jobs))
        ≡ x
  unfolding claim_recovery
  claim_recovery-hand_out jobs now worker_id lease_ms h =
      throw_if-then (not (is_safe lease_ms) || ltb lease_ms 1) _ _ h (λ legal done. ok-inj done)

  -- A claim on any jobs, in which no id stands twice, that hands out a job: the job waited or its
  -- lease had ended, and of all such jobs it is one that was created first; it is now running for this
  -- worker, with one more attempt and a lease from now, and is stored so; every other job is as it was,
  -- but that it waits again if its lease had ended.
  pub claim_recovery-IsClaim :
      (jobs jobs' : Jobs R) (now : ℕ) (worker_id : Str) (lease_ms : ℕ) (job : Job R)
      → IsDistinct jobs
      → claim_recovery jobs now worker_id lease_ms ≡ ok (jobs', some job)
      → IsClaim jobs jobs' now worker_id lease_ms job
  claim_recovery-IsClaim jobs jobs' now worker_id lease_ms job distinct h =
      hand_out-IsClaim jobs now worker_id lease_ms jobs' job _ distinct refl
        (claim_recovery-hand_out jobs now worker_id lease_ms h)

  -- A claim that hands out no job: none waits, and no lease has ended.
  pub claim_recovery-none :
      (jobs jobs' : Jobs R) (now : ℕ) (worker_id : Str) (lease_ms : ℕ) (id : Str) (job : Job R)
      → claim_recovery jobs now worker_id lease_ms ≡ ok (jobs', none)
      → lookup id jobs ≡ some job
      → ¬ IsClaimable now job
  claim_recovery-none jobs jobs' now worker_id lease_ms id job h at claimable =
      nothing_waits (expire_all now jobs) id (expire now job)
        (hand_out-none (expire_all now jobs) worker_id now lease_ms _
          (claim_recovery-hand_out jobs now worker_id lease_ms h))
        (expired now id jobs job at) (expire-queued now job claimable)

  live-expire :
      (now : ℕ) (job : Job R) (until : ℕ)
      → job.status ≡ running
      → job.lease_until ≡ some until
      → now < until
      → expire now job ≡ job
  unfolding expire
  live-expire now job until busy leased live = ground arith

  -- A claim leaves a job that does not wait.
  hand_out-kept :
      (jobs : Jobs R) (distinct : IsDistinct jobs) (worker_id : Str) (now lease_ms : ℕ) (id : Str)
      (job : Job R) (o : Option (Str × Job R))
      → next_queued jobs ≡ o
      → lookup id jobs ≡ some job
      → ¬ (is_queued job.status ≡ true)
      → lookup id (hand_out jobs worker_id now lease_ms o).0 ≡ some job
  hand_out-kept jobs distinct worker_id now lease_ms id job none chosen at busy = at
  hand_out-kept jobs distinct worker_id now lease_ms id job (some (key, other)) chosen at busy =
      lookup-insert_other key id _ jobs (λ e.
        let found = next_queued-found jobs distinct (key, other) chosen in
        let waits = next_queued-queued jobs distinct (key, other) chosen in
        let same : other ≡ job = some-injective _ _ (sym found ∙ ap (λ k. lookup k jobs) e ∙ at) in
        busy (subst (λ j. is_queued j.status ≡ true) same waits))
      ∙ at

  -- On jobs in which no id stands twice: while the lease of a running job runs, no claim by any worker
  -- touches the job.
  pub live_lease_kept :
      (jobs jobs' : Jobs R) (now : ℕ) (worker_id : Str) (lease_ms : ℕ) (taken : Option (Job R))
      (id : Str) (job : Job R) (until : ℕ)
      → IsDistinct jobs
      → claim_recovery jobs now worker_id lease_ms ≡ ok (jobs', taken)
      → lookup id jobs ≡ some job
      → job.status ≡ running
      → job.lease_until ≡ some until
      → now < until
      → lookup id jobs' ≡ some job
  live_lease_kept jobs jobs' now worker_id lease_ms taken id job until distinct h at busy leased
        live =
      let open_jobs : Jobs R = expire_all now jobs in
      let same : expire now job ≡ job = live-expire now job until busy leased live in
      let here : lookup id open_jobs ≡ some job = expired now id jobs job at ∙ ap some same in
      subst (λ (x : Jobs R × Option (Job R)). lookup id x.0 ≡ some job)
        (claim_recovery-hand_out jobs now worker_id lease_ms h)
        (hand_out-kept open_jobs (expire_all-IsDistinct now jobs distinct) worker_id now lease_ms id
          job _ refl here (λ waits. ground arith))
