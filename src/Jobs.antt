-- ===== src/Jobs.antt =====
-- The recovery jobs of `JsonOperationalStore` (rpc/src/operational-store.mjs). Times are
-- milliseconds: the ISO texts that the source stores are in the order of the times that they name,
-- and `Date.parse` reads back what `toISOString` wrote. `now` is the clock at the call.
-- `R` is the type of a recovery's result.
pub mod Oldest
pub mod Claim
pub mod Terminal
mod Tests
use prime_server.Base.{
  sorted_set, ℕ, ◌+◌, ◌^◌, Str, Bool, true, false, not, ◌&&◌, ◌||◌, Option, none, some, List, [],
  ◌∷◌, ◌++◌, lit, is_empty, any, keep, sort, values, lookup, insert, Table, ltb, leb, eqb, is_safe,
  ◌==◌, str_eq, if◌then◌else◌, Error, plain, Result, ok, err, ◌>>=◌, ◌>>◌, throw_if, require,
}

pub data JobStatus : Type 0 where
  queued running succeeded failed : JobStatus

pub record Job (R : Type 0) : Type 0 where
  pub job_id : Str
  pub blob_id : Str
  pub attempts : ℕ
  pub created_at : ℕ
  pub status : JobStatus
  pub reason : Str
  pub missing_shards : List ℕ
  pub updated_at : ℕ
  pub lease_until : Option ℕ
  pub last_error : Option Str
  pub worker_id : Option Str
  pub result : Option R
  pub completed_at : Option ℕ

abbrev pub Jobs : Type 0 → Type 0
Jobs R = Table Str (Job R)

abbrev pub is_queued : JobStatus → Bool
is_queued queued = true
is_queued _ = false

abbrev pub is_running : JobStatus → Bool
is_running running = true
is_running _ = false

abbrev pub is_succeeded : JobStatus → Bool
is_succeeded succeeded = true
is_succeeded _ = false

unfoldable pub normalize_missing_shards : List ℕ → List ℕ
unfolding sorted_set
normalize_missing_shards xs = sorted_set xs

abbrev pub is_settled_or_waiting : JobStatus → Bool
is_settled_or_waiting failed = false
is_settled_or_waiting _ = true

abbrev pub lease_ended : Option ℕ → ℕ → Bool
lease_ended none now = false
lease_ended (some t) now = leb t now

abbrev not_found : Str → Error
not_found job_id = plain (lit "recovery job " ++ (job_id ++ lit " not found"))

module _ {R : Type 0} where
  -- `enqueueRecovery`: the new jobs, and the job returned.
  abbrev pub new_job : Str → ℕ → Job R
  new_job blob_id now = record {
    job_id = blob_id;
    blob_id = blob_id;
    attempts = 0;
    created_at = now;
    status = queued;
    reason = [];
    missing_shards = [];
    updated_at = now;
    lease_until = none;
    last_error = none;
    worker_id = none;
    result = none;
    completed_at = none;
  }

  abbrev requeued : Job R → Str → List ℕ → ℕ → Job R
  requeued job reason missing now = record job {
    status = queued;
    reason = reason;
    missing_shards = normalize_missing_shards missing;
    updated_at = now;
    lease_until = none;
    last_error = none;
  }

  unfoldable pub enqueue_recovery : Jobs R → ℕ → Str → Str → List ℕ → Result (Jobs R × Job R)
  enqueue_recovery jobs now blob_id reason missing = do
    throw_if (is_empty blob_id) (plain (lit "blob ID is required for recovery"))
    elim (lookup blob_id jobs) [
      | none ↦
          let job = requeued (new_job blob_id now) reason missing now in
          ok (insert blob_id job jobs, job)
      | some current ↦
          let job = requeued current reason missing now in
          if is_settled_or_waiting current.status
          then ok (jobs, current)
          else ok (insert blob_id job jobs, job)
    ]

  -- The loop of `claimRecovery` that queues a job again when its lease has ended.
  unfoldable pub expire : ℕ → Job R → Job R
  expire now job =
      if is_running job.status && lease_ended job.lease_until now
      then record job { status = queued; lease_until = none; updated_at = now }
      else job

  unfoldable pub expire_all : ℕ → Jobs R → Jobs R
  unfolding expire
  expire_all now [] = []
  expire_all now ((k, job) ∷ jobs) = (k, expire now job) ∷ expire_all now jobs

  abbrev pub is_older : Str × Job R → Str × Job R → Bool
  is_older (_, a) (_, b) = leb a.created_at b.created_at

  -- `jobs.filter(…).sort(…)[0]`, with the key under which the job stands.
  abbrev pub first : List (Str × Job R) → Option (Str × Job R)
  first [] = none
  first (e ∷ _) = some e

  abbrev pub waiting : Jobs R → List (Str × Job R)
  waiting jobs = keep (λ (_, job). is_queued job.status) jobs

  unfoldable pub next_queued : Jobs R → Option (Str × Job R)
  unfolding sort
  next_queued jobs = first (sort is_older (waiting jobs))

  abbrev pub claimed : Job R → Str → ℕ → ℕ → Job R
  claimed job worker_id now lease_ms = record job {
    status = running;
    worker_id = some worker_id;
    attempts = job.attempts + 1;
    updated_at = now;
    lease_until = some (now + lease_ms);
  }

  -- The rest of `claimRecovery`, from `if (!next)` on.
  abbrev pub hand_out : Jobs R → Str → ℕ → ℕ → Option (Str × Job R) → Jobs R × Option (Job R)
  hand_out jobs worker_id now lease_ms none = (jobs, none)
  hand_out jobs worker_id now lease_ms (some (key, job)) =
      let taken = claimed job worker_id now lease_ms in (insert key taken jobs, some taken)

  unfoldable pub claim_recovery : Jobs R → ℕ → Str → ℕ → Result (Jobs R × Option (Job R))
  claim_recovery jobs now worker_id lease_ms = do
    throw_if (not (is_safe lease_ms) || ltb lease_ms 1)
        (plain (lit "recovery lease must be positive"))
    ok (hand_out (expire_all now jobs) worker_id now lease_ms (next_queued (expire_all now jobs)))

  unfoldable pub complete_recovery : Jobs R → ℕ → Str → R → Result (Jobs R × Job R)
  complete_recovery jobs now job_id result = do
    job ← require (lookup job_id jobs) (not_found job_id)
    let done : Job R = record job {
      status = succeeded;
      result = some result;
      completed_at = some now;
      updated_at = now;
      lease_until = none;
      last_error = none;
    }
    if is_succeeded job.status then ok (jobs, job) else ok (insert job_id done jobs, done)

  unfoldable pub fail_recovery : Jobs R → ℕ → Str → Str → Bool → Result (Jobs R × Job R)
  fail_recovery jobs now job_id error retry = do
    job ← require (lookup job_id jobs) (not_found job_id)
    let next : Job R = record job {
      status = if retry then queued else failed;
      updated_at = now;
      lease_until = none;
      last_error = some error;
    }
    if is_succeeded job.status then ok (jobs, job) else ok (insert job_id next jobs, next)

  unfoldable pub get_recovery_job : Jobs R → Str → Result (Option (Job R))
  get_recovery_job jobs job_id = do
    throw_if (is_empty job_id) (plain (lit "recovery job ID is required"))
    ok (lookup job_id jobs)

  unfoldable pub list_recovery_jobs : Jobs R → List (Job R)
  list_recovery_jobs jobs = sort (λ a b. leb a.created_at b.created_at) (values jobs)
