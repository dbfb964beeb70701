-- ===== src/Jobs/Tests.antt =====
-- Concrete runs of the job table: two jobs, one of which a worker holds until time 50.
use prime_server.Base.{
  sorted_set, distinct, ℕ, Str, true, Option, none, some, List, [], ◌∷◌, ◌≡◌, refl, arith, lookup,
  insert, IsDistinct, str_beq, sort, insert_sorted, ok, err, str_eq,
}
use prime_server.Jobs.{
  new_job, running, succeeded, Job, Jobs, enqueue_recovery, claim_recovery, complete_recovery,
  expire_all, expire, next_queued, normalize_missing_shards,
}
use prime_server.Jobs.Oldest.{IsClaimable}
use prime_server.Jobs.Claim.{IsClaim, claim_recovery-IsClaim, claim_recovery-none, live_lease_kept}
use prime_server.Jobs.Terminal.{
  JobCall, enqueue, claim, complete, fail, apply, run, run-succeeded, run-IsDistinct,
}

abbrev a : Str
a = b'a' ∷ []

abbrev b : Str
b = b'b' ∷ []

abbrev w : Str
w = b'w' ∷ []

abbrev two_jobs : List (JobCall ℕ)
two_jobs = enqueue 1 a [] (2 ∷ 1 ∷ 2 ∷ []) ∷ claim 10 w 40 ∷ enqueue 3 b [] [] ∷ []

abbrev jobs : Jobs ℕ
jobs = run [] two_jobs

abbrev job_of : Option (Job ℕ) → Job ℕ
job_of none = new_job a 0
job_of (some j) = j

abbrev held : Job ℕ
held = job_of (lookup a jobs)

abbrev after : ℕ → Jobs ℕ × Option (Job ℕ)
after now = elim (claim_recovery jobs now w 40) [ ok x ↦ x | err _ ↦ (jobs, none) ]

held-stored : lookup a jobs ≡ some held
unfolding run apply enqueue_recovery claim_recovery complete_recovery expire_all expire next_queued
    normalize_missing_shards sorted_set distinct sort insert_sorted lookup insert str_beq
held-stored = refl

-- Another worker's claim at time 20: the first job's lease runs, so it gets the second job.
claim_early : claim_recovery jobs 20 w 40 ≡ ok (after 20)
unfolding run apply enqueue_recovery claim_recovery complete_recovery expire_all expire next_queued
    normalize_missing_shards sorted_set distinct sort insert_sorted lookup insert str_beq
claim_early = refl

held-running : held.status ≡ running
unfolding run apply enqueue_recovery claim_recovery complete_recovery expire_all expire next_queued
    normalize_missing_shards sorted_set distinct sort insert_sorted lookup insert str_beq
held-running = refl

held-leased : held.lease_until ≡ some 50
unfolding run apply enqueue_recovery claim_recovery complete_recovery expire_all expire next_queued
    normalize_missing_shards sorted_set distinct sort insert_sorted lookup insert str_beq
held-leased = refl

live_lease_kept_example : lookup a (after 20).0 ≡ some held
live_lease_kept_example =
    live_lease_kept jobs (after 20).0 20 w 40 (after 20).1 a held 50 (run-IsDistinct two_jobs)
      claim_early held-stored held-running held-leased (omega arith)

-- A claim at time 60: the lease has ended, and the first job is the older one.
abbrev taken : Job ℕ
taken = job_of (after 60).1

claim_late : claim_recovery jobs 60 w 40 ≡ ok ((after 60).0, some taken)
unfolding run apply enqueue_recovery claim_recovery complete_recovery expire_all expire next_queued
    normalize_missing_shards sorted_set distinct sort insert_sorted lookup insert str_beq
claim_late = refl

takes_first_again : taken.job_id ≡ a
unfolding run apply enqueue_recovery claim_recovery complete_recovery expire_all expire next_queued
    normalize_missing_shards sorted_set distinct sort insert_sorted lookup insert str_beq
takes_first_again = refl

claim_recovery-IsClaim_example : IsClaim jobs (after 60).0 60 w 40 taken
claim_recovery-IsClaim_example =
    claim_recovery-IsClaim jobs (after 60).0 60 w 40 taken (run-IsDistinct two_jobs) claim_late

-- One job that is held: a claim gets nothing.
abbrev one_job : Jobs ℕ
one_job = run [] (enqueue 1 a [] [] ∷ claim 10 w 40 ∷ [])

abbrev only : Job ℕ
only = job_of (lookup a one_job)

claim_nothing : claim_recovery one_job 20 w 40 ≡ ok (one_job, none)
unfolding run apply enqueue_recovery claim_recovery complete_recovery expire_all expire next_queued
    normalize_missing_shards sorted_set distinct sort insert_sorted lookup insert str_beq
claim_nothing = refl

only-stored : lookup a one_job ≡ some only
unfolding run apply enqueue_recovery claim_recovery complete_recovery expire_all expire next_queued
    normalize_missing_shards sorted_set distinct sort insert_sorted lookup insert str_beq
only-stored = refl

only_unclaimed : ¬ IsClaimable 20 only
only_unclaimed = claim_recovery-none one_job one_job 20 w 40 a only claim_nothing only-stored

-- The first job succeeds, and its blob is reported again.
abbrev finished : List (JobCall ℕ)
finished = enqueue 1 a [] [] ∷ claim 10 w 40 ∷ complete 30 a 7 ∷ []

abbrev done : Job ℕ
done = job_of (lookup a (run [] finished))

done-stored : lookup a (run [] finished) ≡ some done
unfolding run apply enqueue_recovery claim_recovery complete_recovery expire_all expire next_queued
    normalize_missing_shards sorted_set distinct sort insert_sorted lookup insert str_beq
done-stored = refl

done-succeeded : done.status ≡ succeeded
unfolding run apply enqueue_recovery claim_recovery complete_recovery expire_all expire next_queued
    normalize_missing_shards sorted_set distinct sort insert_sorted lookup insert str_beq
done-succeeded = refl

run-succeeded_example :
    lookup a (run (run [] finished) (enqueue 40 a [] [] ∷ claim 90 w 40 ∷ fail 95 a [] true ∷ []))
    ≡ some done
run-succeeded_example =
    run-succeeded finished (enqueue 40 a [] [] ∷ claim 90 w 40 ∷ fail 95 a [] true ∷ []) a done
      done-stored done-succeeded

two_jobs-IsDistinct : IsDistinct (run [] two_jobs)
two_jobs-IsDistinct = run-IsDistinct two_jobs
