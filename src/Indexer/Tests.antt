-- ===== src/Indexer/Tests.antt =====
-- A chain of six blocks with one event each, read two windows of two blocks at a time.
use prime_server.Base.{
  ℕ, ◌+◌, ◌-◌, ◌≤◌, true, none, some, List, [], ◌∷◌, ◌≡◌, refl, sym, arith, decimal, decimal_onto,
  digits_value, ok, err, ok-inj, plain,
}
use prime_server.Indexer.{IndexerConfig, Indexer, Node, create, target_block, read_windows, poll}
use prime_server.Indexer.Windows.{blocks, IsFaithful}
use prime_server.Indexer.Cursor.{poll_all, poll_all-events, restart_bounds}
use prime_server.Indexer.Target.{poll-target}

abbrev chain : ℕ → List ℕ
chain n = n ∷ []

abbrev config : IndexerConfig
config = record { from_block = 1; max_block_range = 2; max_ranges_per_poll = 2; has_store = true }

-- A node that answers, and one that fails.
abbrev up : Node ℕ
up = record {
  latest = 6;
  get_logs = λ from to. ok (blocks chain from (to + 1 - from));
  save = λ cursor. ok tt;
}

abbrev down : Node ℕ
down = record { latest = 6; get_logs = λ from to. err (plain []); save = λ cursor. ok tt }

up-IsFaithful : IsFaithful chain up
up-IsFaithful from to found h answer = sym (ok-inj answer)

down-IsFaithful : IsFaithful chain down
down-IsFaithful from to found h answer = cc

abbrev fresh : Indexer ℕ
fresh = record { next_block = 1; events = []; cursor = none }

created : create config none ≡ ok fresh
unfolding create
created = refl

abbrev nodes : List (Node ℕ)
nodes = up ∷ down ∷ up ∷ []

all_read : (poll_all chain config nodes fresh).events ≡ 1 ∷ 2 ∷ 3 ∷ 4 ∷ 5 ∷ 6 ∷ []
unfolding poll read_windows
all_read = refl

poll_all-events_example :
    (poll_all chain config nodes fresh).events
    ≡ blocks chain 1 ((poll_all chain config nodes fresh).next_block - 1)
poll_all-events_example =
    poll_all-events chain config nodes fresh created
      (up-IsFaithful, (down-IsFaithful, (up-IsFaithful, tt)))

abbrev again : Indexer ℕ
again = record { next_block = 7; events = []; cursor = some (decimal 7) }

created_again : create config (poll_all chain config nodes fresh).cursor ≡ ok again
unfolding create poll read_windows decimal decimal_onto digits_value
created_again = refl

restart_bounds_example : (1 ≤ 7) × (7 ≤ (poll_all chain config nodes fresh).next_block)
restart_bounds_example =
    restart_bounds chain config nodes fresh again created
      (up-IsFaithful, (down-IsFaithful, (up-IsFaithful, tt))) created_again

first_four : (poll config up fresh).1 ≡ ok (1 ∷ 2 ∷ 3 ∷ 4 ∷ [])
unfolding poll read_windows
first_four = refl

poll-target_example :
    ((1 ∷ 2 ∷ 3 ∷ 4 ∷ []) ≡ blocks chain 1 (target_block config 1 6 + 1 - 1))
    × ((poll config up fresh).0.next_block ≡ target_block config 1 6 + 1)
poll-target_example =
    poll-target chain config up fresh (1 ∷ 2 ∷ 3 ∷ 4 ∷ []) (omega arith) (omega arith) up-IsFaithful
      (omega arith) first_four
