-- ===== src/Recovery/Ends.antt =====
-- The loop of `recoverBlob` ends by its deadline, if the clock goes on.
use prime_server.Base.{
  ℕ, ◌+◌, ◌≤◌, ◌<◌, Str, Option, none, some, List, [], ◌∷◌, ◌≢◌, arith, inl, inr, Bool-cases,
  length, leb, Result, ok, err,
}
use prime_server.Base.Action.{Action, pure, raise, ◌>>=◌, and_then}
use prime_server.Jobs.{Job}
use prime_server.Recovery.{
  State, Round, Answer, returned, waiting, or_go_on, poll, recover_enqueued, recover_blob,
  unless_succeeded,
}

module _ {R : Type 0} where
  -- Each round of the loop begins after the one before, as each waits 50 milliseconds.
  abbrev pub GoesOn : ℕ → List (Round R) → Type 0
  GoesOn now [] = Unit
  GoesOn now (round ∷ rounds) = (now ≤ round.now) × GoesOn (round.now + 1) rounds

module _ {R W : Type 0} where
  module _ (recover : Str → Job R → Action (State R W) R) (worker_id : Str) (lease_ms : ℕ) where
    or_go_on_ends :
        (a : Answer R) (rest : Action (State R W) (Answer R))
        → ((s : State R W) → (rest s).1 ≢ ok waiting)
        → (s : State R W) → (or_go_on recover worker_id lease_ms a rest s).1 ≢ ok waiting
    unfolding pure
    or_go_on_ends (returned r) rest ends s = λ h. cc
    or_go_on_ends waiting rest ends s = ends s

    bind_ends :
        {A : Type 0} (m : Action (State R W) A) (f : A → Action (State R W) (Answer R))
        → ((a : A) (s : State R W) → (f a s).1 ≢ ok waiting)
        → (s : State R W) → ((m >>= f) s).1 ≢ ok waiting
    unfolding ◌>>=◌
    bind_ends {A} m f ends s = after (m s)
      where
        after : (x : State R W × Result A) → (and_then x f).1 ≢ ok waiting
        after (t, ok a) = ends a t
        after (t, err e) = λ h. cc

    poll_ends :
        (deadline : ℕ) (blob_id : Str) (now : ℕ) (rounds : List (Round R))
        → GoesOn now rounds
        → now ≤ deadline
        → deadline < now + length rounds
        → (s : State R W)
        → (poll recover worker_id lease_ms deadline blob_id rounds s).1 ≢ ok waiting
    unfolding poll raise
    poll_ends deadline blob_id now [] on before enough s = absurd (omega arith)
    poll_ends deadline blob_id now (round ∷ rounds) on before enough s =
        elim (Bool-cases (leb deadline round.now)) [
          | inl e ↦ rw e (λ h. cc)
          | inr e ↦ rw e (
              bind_ends _ _
                (λ _. bind_ends _ _ (λ current. bind_ends _ _ (λ answer. or_go_on_ends answer _ (
                  poll_ends deadline blob_id (round.now + 1) rounds on.1 (ground arith)
                    (ground arith)))))
                s)
        ]

    unless_succeeded_ends :
        (o : Option (Option R)) (rest : Action (State R W) (Answer R))
        → ((s : State R W) → (rest s).1 ≢ ok waiting)
        → (s : State R W) → (unless_succeeded recover worker_id lease_ms o rest s).1 ≢ ok waiting
    unfolding pure
    unless_succeeded_ends (some r) rest ends s = λ h. cc
    unless_succeeded_ends none rest ends s = ends s

    -- If the clock goes on from one round to the next, more rounds than the milliseconds of a lease
    -- are enough: the call has returned or thrown, whatever the handler and the other workers do.
    pub recover_blob_ends :
        (blob_id reason : Str) (missing : List ℕ) (first : Round R) (rounds : List (Round R))
        (s : State R W)
        → GoesOn first.ended rounds
        → lease_ms < length rounds
        → (recover_blob recover worker_id lease_ms blob_id reason missing first rounds s).1
          ≢ ok waiting
    unfolding recover_blob recover_enqueued
    recover_blob_ends blob_id reason missing first rounds s on enough =
        bind_ends _ _
          (λ existing. unless_succeeded_ends _ _ (
            bind_ends _ _ (λ job. bind_ends _ _ (λ answer. or_go_on_ends answer _ (
              poll_ends (first.ended + lease_ms) blob_id first.ended rounds on (omega arith)
                (omega arith))))))
          s
