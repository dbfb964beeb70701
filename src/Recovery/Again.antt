-- ===== src/Recovery/Again.antt =====
-- A blob whose recovery has succeeded is not recovered again.
use prime_server.Base.{ℕ, Str, false, some, List, [], ◌≡◌, is_empty, lookup, str_eq, ok, arith}
use prime_server.Base.Action.{Action, pure, ◌>>=◌}
use prime_server.Jobs.{Job, succeeded, get_recovery_job}
use prime_server.Jobs.Terminal.{JobCall, run, run-succeeded}
use prime_server.Recovery.{State, Round, returned, get_job, recover_blob}

module _ {R W : Type 0} (recover : Str → Job R → Action (State R W) R) (worker_id : Str)
    (lease_ms : ℕ) where
  recover_blob_done :
      (blob_id reason : Str) (missing : List ℕ) (first : Round R) (rounds : List (Round R))
      (s : State R W) (job : Job R)
      → is_empty blob_id ≡ false
      → lookup blob_id s.jobs ≡ some job
      → job.status ≡ succeeded
      → recover_blob recover worker_id lease_ms blob_id reason missing first rounds s
        ≡ (s, ok (returned job.result))
  unfolding recover_blob get_job get_recovery_job ◌>>=◌ pure
  recover_blob_done blob_id reason missing first rounds s job named at done = ground arith

  -- After any calls on an empty store in which the recovery of a blob has succeeded, and any more
  -- calls, `recoverBlob` returns the result of that recovery: it calls no handler and changes nothing,
  -- whatever has become of the blob since.
  pub recover_blob_again :
      (calls more : List (JobCall R)) (blob_id reason : Str) (missing : List ℕ) (first : Round R)
      (rounds : List (Round R)) (world : W) (job : Job R)
      → is_empty blob_id ≡ false
      → lookup blob_id (run [] calls) ≡ some job
      → job.status ≡ succeeded
      → let s : State R W = record { jobs = run (run [] calls) more; world = world } in
        recover_blob recover worker_id lease_ms blob_id reason missing first rounds s
        ≡ (s, ok (returned job.result))
  recover_blob_again calls more blob_id reason missing first rounds world job named at done =
      recover_blob_done blob_id reason missing first rounds _ job named
        (run-succeeded calls more blob_id job at done) done
