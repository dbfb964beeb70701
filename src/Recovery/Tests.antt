-- ===== src/Recovery/Tests.antt =====
-- The recovery of a blob that has succeeded, and one that another worker holds until its lease ends.
use prime_server.Base.{
  ℕ, Str, length, Option, none, some, List, [], ◌∷◌, ◌≡◌, ◌≢◌, refl, arith, lookup, str_eq, str_beq,
  ok, insert, sort, insert_sorted, sorted_set, distinct,
}
use prime_server.Base.Action.{Action, pure, ◌>>=◌}
use prime_server.Jobs.{
  Job, succeeded, new_job, enqueue_recovery, claim_recovery, complete_recovery, expire_all, expire,
  next_queued, normalize_missing_shards, get_recovery_job,
}
use prime_server.Jobs.Terminal.{JobCall, enqueue, claim, complete, run, apply}
use prime_server.Recovery.{
  State, Round, returned, waiting, recover_blob, recover_enqueued, poll, get_job, update,
  process_queued, process_next, attempt,
}
use prime_server.Recovery.Again.{recover_blob_again}
use prime_server.Recovery.Ends.{recover_blob_ends}

abbrev a : Str
a = b'a' ∷ []

abbrev w : Str
w = b'w' ∷ []

abbrev seven : Str → Job ℕ → Action (State ℕ (Unit {0})) ℕ
seven blob_id job s = (s, ok 7)

abbrev finished : List (JobCall ℕ)
finished = enqueue 1 a [] [] ∷ claim 10 w 40 ∷ complete 30 a 7 ∷ []

abbrev job_of : Option (Job ℕ) → Job ℕ
job_of none = new_job [] 0
job_of (some job) = job

abbrev done : Job ℕ
done = job_of (lookup a (run [] finished))

is_stored : lookup a (run [] finished) ≡ some done
unfolding run apply enqueue_recovery claim_recovery complete_recovery expire_all expire next_queued
    normalize_missing_shards sorted_set distinct sort insert_sorted lookup insert str_beq
is_stored = refl

is_done : done.status ≡ succeeded
unfolding run apply enqueue_recovery claim_recovery complete_recovery expire_all expire next_queued
    normalize_missing_shards sorted_set distinct sort insert_sorted lookup insert str_beq
is_done = refl

abbrev quiet : ℕ → Round ℕ
quiet now = record { now = now; ended = now; others = λ jobs. jobs }

recover_blob_again_example :
    let s : State ℕ (Unit {0}) = record {
      jobs = run (run [] finished) (enqueue 40 a [] [] ∷ []);
      world = tt;
    } in
    recover_blob seven w 40 a [] [] (quiet 50) [] s ≡ (s, ok (returned done.result))
recover_blob_again_example =
    recover_blob_again seven w 40 finished (enqueue 40 a [] [] ∷ []) a [] [] (quiet 50) [] tt done
      refl is_stored is_done

-- Another worker holds the job.
abbrev held : State ℕ (Unit {0})
held = record { jobs = run [] (enqueue 1 a [] [] ∷ claim 10 w 40 ∷ []); world = tt }

recover_blob_ends_example :
    (recover_blob seven w 2 a [] [] (quiet 11) (quiet 11 ∷ quiet 12 ∷ quiet 13 ∷ []) held).1
    ≢ ok waiting
recover_blob_ends_example =
    recover_blob_ends seven w 2 a [] [] (quiet 11) (quiet 11 ∷ quiet 12 ∷ quiet 13 ∷ []) held
      (omega arith) (omega arith)

-- The first to ask for a new blob runs its recovery.
recovers :
    (recover_blob seven w 40 a [] [] (quiet 5) [] (record { jobs = []; world = tt })).1
    ≡ ok (returned (some 7))
unfolding recover_blob recover_enqueued poll get_job get_recovery_job update process_queued
    process_next attempt pure ◌>>=◌ enqueue_recovery claim_recovery complete_recovery expire_all
    expire next_queued normalize_missing_shards sorted_set distinct sort insert_sorted lookup insert
    str_beq
recovers = refl

abbrev length_of : Str → Job ℕ → Action (State ℕ (Unit {0})) ℕ
length_of blob_id job s = (s, ok (length blob_id))

-- An older job of another blob is run in its place, and its result is returned.
recovers_another :
    (recover_blob length_of w 40 a [] []
      (quiet 5)
      []
      (record { jobs = run [] (enqueue 1 (b'b' ∷ b'b' ∷ []) [] [] ∷ []); world = tt })).1
    ≡ ok (returned (some 2))
unfolding recover_blob recover_enqueued poll get_job get_recovery_job update process_queued
    process_next attempt pure ◌>>=◌ run apply enqueue_recovery claim_recovery complete_recovery
    expire_all expire next_queued normalize_missing_shards sorted_set distinct sort insert_sorted
    lookup insert str_beq
recovers_another = refl
