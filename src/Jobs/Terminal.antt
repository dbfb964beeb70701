-- ===== src/Jobs/Terminal.antt =====
-- Sequences of calls on the recovery jobs, by any workers and clients: a job that has succeeded stays
-- as it is, and no id stands twice.
use prime_server.Base.{
  ℕ, Str, Bool, true, false, Option, none, some, List, [], ◌∷◌, ◌≡◌, refl, sym, ap, ◌∙◌, subst, inl,
  inr, arith, lookup, insert, lookup-insert_other, IsDistinct, insert-IsDistinct, str_eq, Result,
  ok, err, Bool-cases, Option-cases, is_empty, not, ◌||◌, is_safe, ltb,
}
use mathlib.Core.Option.{some-injective}
use prime_server.Jobs.{
  is_succeeded, is_queued, is_settled_or_waiting, JobStatus, expire, succeeded, Job, Jobs,
  enqueue_recovery, claim_recovery, complete_recovery, fail_recovery, expire_all, next_queued,
  hand_out,
}
use prime_server.Jobs.Oldest.{expire_all-IsDistinct, expired, next_queued-found, next_queued-queued}

-- A call with the clock at its time.
pub data JobCall (R : Type 0) : Type 0 where
  enqueue : (now : ℕ) (blob_id reason : Str) (missing : List ℕ) → JobCall R
  claim : (now : ℕ) (worker_id : Str) (lease_ms : ℕ) → JobCall R
  complete : (now : ℕ) (job_id : Str) (result : R) → JobCall R
  fail : (now : ℕ) (job_id error : Str) (retry : Bool) → JobCall R

open_unless : (s : JobStatus) → is_settled_or_waiting s ≡ false → is_succeeded s ≡ false
open_unless s h = ground arith

queued_open : (s : JobStatus) → is_queued s ≡ true → is_succeeded s ≡ false
queued_open s h = ground arith

module _ {R : Type 0} where
  abbrev pub jobs_after : {X : Type 0} → Jobs R → Result (Jobs R × X) → Jobs R
  jobs_after jobs (ok (jobs', _)) = jobs'
  jobs_after jobs (err _) = jobs

  -- `update`: a mutator that throws changes nothing.
  unfoldable pub apply : Jobs R → JobCall R → Jobs R
  apply jobs (enqueue now id reason missing) =
      jobs_after jobs (enqueue_recovery jobs now id reason missing)
  apply jobs (claim now worker lease) = jobs_after jobs (claim_recovery jobs now worker lease)
  apply jobs (complete now id result) = jobs_after jobs (complete_recovery jobs now id result)
  apply jobs (fail now id error retry) = jobs_after jobs (fail_recovery jobs now id error retry)

  unfoldable pub run : Jobs R → List (JobCall R) → Jobs R
  run jobs [] = jobs
  run jobs (c ∷ cs) = run (apply jobs c) cs

  -- What a call may do to the jobs.
  pub record Keeps (jobs jobs' : Jobs R) : Type 0 where
    pub apart : IsDistinct jobs → IsDistinct jobs'
    pub done :
        (id : Str) (job : Job R)
        → IsDistinct jobs
        → lookup id jobs ≡ some job
        → is_succeeded job.status ≡ true
        → lookup id jobs' ≡ some job

  same-Keeps : (jobs : Jobs R) → Keeps jobs jobs
  same-Keeps jobs = record { apart = λ d. d; done = λ id job d at s. at }

  insert-Keeps :
      (jobs : Jobs R) (key : Str) (next : Job R)
      → (IsDistinct jobs
          → (job : Job R) → lookup key jobs ≡ some job
          → is_succeeded job.status ≡ false)
      → Keeps jobs (insert key next jobs)
  insert-Keeps jobs key next open_job = record {
    apart = insert-IsDistinct key next jobs;
    done = λ id job d at s.
        lookup-insert_other key id next jobs
          (λ e. let closed = open_job d job (ap (λ k. lookup k jobs) e ∙ at) in cc)
        ∙ at;
  }

  then-Keeps : (a b c : Jobs R) → Keeps a b → Keeps b c → Keeps a c
  then-Keeps a b c f g = record {
    apart = λ d. g.apart (f.apart d);
    done = λ id job d at s. g.done id job (f.apart d) (f.done id job d at s) s;
  }

  -- A job that is there is the one that a lookup finds.
  found_open :
      (jobs : Jobs R) (key : Str) (current : Job R)
      → lookup key jobs ≡ some current
      → is_succeeded current.status ≡ false
      → (job : Job R) → lookup key jobs ≡ some job
      → is_succeeded job.status ≡ false
  found_open jobs key current at open_job job h =
      subst (λ j. is_succeeded j.status ≡ false) (some-injective current job (sym at ∙ h)) open_job

  enqueue_recovery-Keeps :
      (jobs : Jobs R) (now : ℕ) (id reason : Str) (missing : List ℕ)
      → Keeps jobs (jobs_after jobs (enqueue_recovery jobs now id reason missing))
  unfolding enqueue_recovery
  enqueue_recovery-Keeps jobs now id reason missing = elim (Bool-cases (is_empty id)) [
    | inl e ↦ rw e (same-Keeps jobs)
    | inr e ↦ elim (Option-cases (lookup id jobs)) [
      | inl free ↦ rw e (rw free (insert-Keeps jobs id _ (λ d job at. cc)))
      | inr (current, at) ↦ elim (Bool-cases (is_settled_or_waiting current.status)) [
        | inl b ↦ rw e (rw at (rw b (same-Keeps jobs)))
        | inr b ↦ rw e (
            rw at (
              rw b (
                insert-Keeps jobs id _
                  (λ d. found_open jobs id current at (open_unless current.status b)))))
      ]
    ]
  ]

  complete_recovery-Keeps :
      (jobs : Jobs R) (now : ℕ) (id : Str) (result : R)
      → Keeps jobs (jobs_after jobs (complete_recovery jobs now id result))
  unfolding complete_recovery
  complete_recovery-Keeps jobs now id result = elim (Option-cases (lookup id jobs)) [
    | inl free ↦ rw free (same-Keeps jobs)
    | inr (job, at) ↦ elim (Bool-cases (is_succeeded job.status)) [
      | inl b ↦ rw at (rw b (same-Keeps jobs))
      | inr b ↦ rw at (rw b (insert-Keeps jobs id _ (λ d. found_open jobs id job at b)))
    ]
  ]

  fail_recovery-Keeps :
      (jobs : Jobs R) (now : ℕ) (id error : Str) (retry : Bool)
      → Keeps jobs (jobs_after jobs (fail_recovery jobs now id error retry))
  unfolding fail_recovery
  fail_recovery-Keeps jobs now id error retry = elim (Option-cases (lookup id jobs)) [
    | inl free ↦ rw free (same-Keeps jobs)
    | inr (job, at) ↦ elim (Bool-cases (is_succeeded job.status)) [
      | inl b ↦ rw at (rw b (same-Keeps jobs))
      | inr b ↦ rw at (rw b (insert-Keeps jobs id _ (λ d. found_open jobs id job at b)))
    ]
  ]

  succeeded-expire : (now : ℕ) (job : Job R) → is_succeeded job.status ≡ true → expire now job ≡ job
  unfolding expire
  succeeded-expire now job h = ground arith

  expire_all-Keeps : (now : ℕ) (jobs : Jobs R) → Keeps jobs (expire_all now jobs)
  expire_all-Keeps now jobs = record {
    apart = expire_all-IsDistinct now jobs;
    done = λ id job d at s. expired now id jobs job at ∙ ap some (succeeded-expire now job s);
  }

  hand_out-Keeps :
      (jobs : Jobs R) (worker_id : Str) (now lease_ms : ℕ) (o : Option (Str × Job R))
      → next_queued jobs ≡ o
      → Keeps jobs (hand_out jobs worker_id now lease_ms o).0
  hand_out-Keeps jobs worker_id now lease_ms none chosen = same-Keeps jobs
  hand_out-Keeps jobs worker_id now lease_ms (some (key, job)) chosen =
      insert-Keeps jobs key _ (λ d.
        found_open jobs key job (next_queued-found jobs d (key, job) chosen)
          (queued_open job.status (next_queued-queued jobs d (key, job) chosen)))

  claim_recovery-Keeps :
      (jobs : Jobs R) (now : ℕ) (worker_id : Str) (lease_ms : ℕ)
      → Keeps jobs (jobs_after jobs (claim_recovery jobs now worker_id lease_ms))
  unfolding claim_recovery
  claim_recovery-Keeps jobs now worker_id lease_ms =
      elim (Bool-cases (not (is_safe lease_ms) || ltb lease_ms 1)) [
        | inl e ↦ rw e (same-Keeps jobs)
        | inr e ↦ rw e (
            then-Keeps jobs (expire_all now jobs) _ (expire_all-Keeps now jobs)
              (hand_out-Keeps (expire_all now jobs) worker_id now lease_ms _ refl))
      ]

  apply-Keeps : (jobs : Jobs R) (c : JobCall R) → Keeps jobs (apply jobs c)
  unfolding apply
  apply-Keeps jobs (enqueue now id reason missing) =
      enqueue_recovery-Keeps jobs now id reason missing
  apply-Keeps jobs (claim now worker lease) = claim_recovery-Keeps jobs now worker lease
  apply-Keeps jobs (complete now id result) = complete_recovery-Keeps jobs now id result
  apply-Keeps jobs (fail now id error retry) = fail_recovery-Keeps jobs now id error retry

  run-Keeps : (jobs : Jobs R) (calls : List (JobCall R)) → Keeps jobs (run jobs calls)
  unfolding run
  run-Keeps jobs [] = same-Keeps jobs
  run-Keeps jobs (c ∷ cs) =
      then-Keeps jobs (apply jobs c) _ (apply-Keeps jobs c) (run-Keeps (apply jobs c) cs)

  -- From no jobs, any calls with any clock, and then any more calls: a job that had succeeded after
  -- the first calls is found with the same result, and otherwise unchanged too, after all of them.
  pub run-succeeded :
      (calls more : List (JobCall R)) (id : Str) (job : Job R)
      → lookup id (run [] calls) ≡ some job
      → job.status ≡ succeeded
      → lookup id (run (run [] calls) more) ≡ some job
  run-succeeded calls more id job at done =
      (run-Keeps (run [] calls) more).done id job ((run-Keeps [] calls).apart tt) at
        (ap is_succeeded done)

  -- From no jobs, after any calls, no id stands twice.
  pub run-IsDistinct : (calls : List (JobCall R)) → IsDistinct (run [] calls)
  run-IsDistinct calls = (run-Keeps [] calls).apart tt
