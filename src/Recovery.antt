-- ===== src/Recovery.antt =====
-- `PrimeServerRecoveryCoordinator` (rpc/src/recovery-coordinator.mjs) over the recovery jobs of Jobs.
-- The handler acts on the whole state, since other workers may change the jobs while it is awaited.
pub mod Again
pub mod Ends
mod Tests
use prime_server.Base.{
  ℕ, ◌+◌, Str, true, Option, none, some, List, [], ◌∷◌, ◌++◌, lit, is_empty, leb, if◌then◌else◌,
  Error, plain, gateway, unauthenticated, Result, ok, err,
}
use prime_server.Base.Action.{Action, pure, raise, lift, ◌>>=◌, ◌>>◌}
use prime_server.Jobs.{
  JobStatus, queued, running, succeeded, failed, Job, Jobs, enqueue_recovery, claim_recovery,
  complete_recovery, fail_recovery, get_recovery_job, list_recovery_jobs,
}

pub record State (R W : Type 0) : Type 0 where
  pub jobs : Jobs R
  pub world : W

-- The environment of one call or one round of the loop: the clock at its start and at its end, and
-- what other workers have done to the jobs before it.
pub record Round (R : Type 0) : Type 0 where
  pub now : ℕ
  pub ended : ℕ
  pub others : Jobs R → Jobs R

pub data Processed (R : Type 0) : Type 0 where
  completed : Job R → R → Processed R
  abandoned : Job R → Str → Processed R

-- What a call of `recoverBlob` has come to: a result, or nothing yet at the end of the rounds.
pub data Answer (R : Type 0) : Type 0 where
  returned : Option R → Answer R
  waiting : Answer R

abbrev pub message_of : Error → Str
message_of (plain m) = m
message_of (gateway _ m) = m
message_of (unauthenticated m) = m

module _ {R W : Type 0} where
  -- A method of the store, which leaves the jobs as they were if it throws.
  abbrev pub after_update : {A : Type 0} → State R W → Result (Jobs R × A) → State R W × Result A
  after_update s (ok (jobs, a)) = (record s { jobs = jobs }, ok a)
  after_update s (err e) = (s, err e)

  unfoldable pub update : {A : Type 0} → (Jobs R → Result (Jobs R × A)) → Action (State R W) A
  update f s = after_update s (f s.jobs)

  unfoldable pub get_job : Str → Action (State R W) (Option (Job R))
  get_job job_id s = (s, get_recovery_job s.jobs job_id)

  unfoldable pub others_act : (Jobs R → Jobs R) → Action (State R W) (Unit {0})
  others_act f s = (record s { jobs = f s.jobs }, ok tt)

  unfoldable pub list_jobs : Action (State R W) (List (Job R))
  list_jobs s = (s, ok (list_recovery_jobs s.jobs))

module _ {R W : Type 0} (recover : Str → Job R → Action (State R W) R) (worker_id : Str)
    (lease_ms : ℕ) where
  unfoldable pub abandon : ℕ → Job R → Error → Action (State R W) (Option (Processed R))
  abandon ended job e = do
    job' ← update (λ jobs. fail_recovery jobs ended job.job_id (message_of e) true)
    pure (some (abandoned job' (message_of e)))

  abbrev pub catch :
      {A : Type 0} → (Error → Action (State R W) A) → State R W × Result A → State R W × Result A
  catch handler (s, ok a) = (s, ok a)
  catch handler (s, err e) = handler e s

  -- The `try` block of `processNext` for the claimed job, and its `catch`.
  unfoldable pub attempt : ℕ → Job R → Action (State R W) (Option (Processed R))
  attempt ended job s =
      let tried : Action (State R W) (Option (Processed R)) = do
        result ← recover job.blob_id job
        job' ← update (λ jobs. complete_recovery jobs ended job.job_id result)
        pure (some (completed job' result))
      in catch (abandon ended job) (tried s)

  abbrev pub attempt_claimed : ℕ → Option (Job R) → Action (State R W) (Option (Processed R))
  attempt_claimed ended none = pure none
  attempt_claimed ended (some job) = attempt ended job

  unfoldable pub process_next : ℕ → ℕ → Action (State R W) (Option (Processed R))
  process_next now ended = do
    claimed ← update (λ jobs. claim_recovery jobs now worker_id lease_ms)
    attempt_claimed ended claimed

  -- `processed?.result` and `processed?.error`; what is neither lets the loop go on. A result of the
  -- handler is an object, as that of `recover` in the gateway is, and so never falsy.
  abbrev pub answer_of : Option (Processed R) → Action (State R W) (Answer R)
  answer_of none = pure waiting
  answer_of (some (completed _ result)) = pure (returned (some result))
  answer_of (some (abandoned _ message)) =
      if is_empty message then pure waiting else raise (plain message)

  unfoldable pub process_queued : ℕ → ℕ → Action (State R W) (Answer R)
  process_queued now ended = do processed ← process_next now ended; answer_of processed

  -- What a round of the loop of `recoverBlob` makes of the job that it has read, by its status.
  abbrev pub poll_status : ℕ → ℕ → Job R → JobStatus → Action (State R W) (Answer R)
  poll_status now ended job succeeded = pure (returned job.result)
  poll_status now ended job queued = process_queued now ended
  poll_status now ended job running = pure waiting
  poll_status now ended job failed = pure waiting

  abbrev pub poll_current : ℕ → ℕ → Option (Job R) → Action (State R W) (Answer R)
  poll_current now ended none = pure waiting
  poll_current now ended (some job) = poll_status now ended job job.status

  abbrev pub or_go_on : Answer R → Action (State R W) (Answer R) → Action (State R W) (Answer R)
  or_go_on (returned r) rest = pure (returned r)
  or_go_on waiting rest = rest

  abbrev pub still_running : Str → Error
  still_running blob_id = plain (lit "recovery job " ++ (blob_id ++ lit " is still running"))

  unfoldable pub poll : ℕ → Str → List (Round R) → Action (State R W) (Answer R)
  poll deadline blob_id [] = pure waiting
  poll deadline blob_id (round ∷ rounds) =
      let rest : Action (State R W) (Answer R) = poll deadline blob_id rounds in
      let here : Action (State R W) (Answer R) = do
        others_act round.others
        current ← get_job blob_id
        answer ← poll_current round.now round.ended current
        or_go_on answer rest
      in if leb deadline round.now then raise (still_running blob_id) else here

  abbrev pub result_if_succeeded : Option (Job R) → Option (Option R)
  result_if_succeeded none = none
  result_if_succeeded (some job) = elim job.status [ succeeded ↦ some job.result | _ ↦ none ]

  abbrev pub process_if_queued : ℕ → ℕ → JobStatus → Action (State R W) (Answer R)
  process_if_queued now ended queued = process_queued now ended
  process_if_queued now ended _ = pure waiting

  -- `recoverBlob` from its enqueueing on; the deadline is counted from the end of `first`.
  unfoldable pub recover_enqueued :
      Str → Str → List ℕ → Round R → List (Round R) → Action (State R W) (Answer R)
  recover_enqueued blob_id reason missing first rounds = do
    job ← update (λ jobs. enqueue_recovery jobs first.now blob_id reason missing)
    answer ← process_if_queued first.now first.ended job.status
    or_go_on answer (poll (first.ended + lease_ms) blob_id rounds)

  abbrev pub unless_succeeded :
      Option (Option R) → Action (State R W) (Answer R) → Action (State R W) (Answer R)
  unless_succeeded (some result) rest = pure (returned result)
  unless_succeeded none rest = rest

  unfoldable pub recover_blob :
      Str → Str → List ℕ → Round R → List (Round R) → Action (State R W) (Answer R)
  recover_blob blob_id reason missing first rounds = do
    existing ← get_job blob_id
    unless_succeeded (result_if_succeeded existing)
        (recover_enqueued blob_id reason missing first rounds)
