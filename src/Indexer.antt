-- ===== src/Indexer.antt =====
-- `PrimeServerEventIndexer` (rpc/src/event-indexer.mjs): the registry's events, read from the chain in
-- windows of blocks. `E` is the type of a parsed event.
pub mod Windows
pub mod Cursor
pub mod Target
mod Tests
use prime_server.Base.{
  ℕ, zero, suc, ◌+◌, ◌-◌, ◌*◌, Str, Bool, true, false, not, ◌||◌, Option, none, some, List, [], ◌∷◌,
  ◌++◌, lit, ltb, leb, is_safe, decimal, digits_value, if◌then◌else◌, Error, plain, Result, ok, err,
  ◌>>=◌, ◌>>◌, throw_if,
}

pub record IndexerConfig : Type 0 where
  pub from_block : ℕ
  pub max_block_range : ℕ
  pub max_ranges_per_poll : ℕ
  pub has_store : Bool

-- `nextBlock`, `events`, and the cursor in the state store.
pub record Indexer (E : Type 0) : Type 0 where
  pub next_block : ℕ
  pub events : List E
  pub cursor : Option Str

-- The chain as one poll meets it: the newest block, the parsed logs of a range of blocks, and
-- whether the store keeps a cursor that it is given.
pub record Node (E : Type 0) : Type 0 where
  pub latest : ℕ
  pub get_logs : ℕ → ℕ → Result (List E)
  pub save : Str → Result (Unit {0})

module _ (c : IndexerConfig) where
  -- The end of the window that starts at `from`.
  abbrev pub window_end : ℕ → ℕ → ℕ → ℕ
  window_end from target latest =
      if ltb (from + c.max_block_range - 1) latest then from + c.max_block_range - 1 else target

  -- `targetBlock`.
  abbrev pub target_block : ℕ → ℕ → ℕ
  target_block next latest =
      if ltb (next + c.max_block_range * c.max_ranges_per_poll - 1) latest
      then next + c.max_block_range * c.max_ranges_per_poll - 1
      else latest

module _ {E : Type 0} where
  -- The constructor and `ready`: the stored cursor, if there is a store and it has one.
  unfoldable pub create : IndexerConfig → Option Str → Result (Indexer E)
  create c stored = do
    throw_if (ltb c.max_block_range 1) (plain (lit "maxBlockRange must be positive"))
    throw_if (not (is_safe c.max_ranges_per_poll) || ltb c.max_ranges_per_poll 1)
        (plain (lit "maxRangesPerPoll must be positive"))
    ok (record {
      next_block =
          if c.has_store
          then (elim stored [ none ↦ c.from_block | some s ↦ digits_value 0 s ])
          else c.from_block;
      events = [];
      cursor = stored;
    })

  abbrev pub advanced : Indexer E → List E → ℕ → Indexer E
  advanced s found to = record s { next_block = to + 1; events = s.events ++ found }

  -- The cursor, if the store wrote it.
  abbrev pub kept : Indexer E → Result (Unit {0}) → Indexer E × Result (Unit {0})
  kept s (ok _) = (record s { cursor = some (decimal s.next_block) }, ok tt)
  kept s (err e) = (s, err e)

  -- What follows a call that may throw, from the state that it leaves.
  abbrev pub answered :
      Result (List E)
      → Indexer E
      → (List E → Indexer E × Result (List E))
      → Indexer E × Result (List E)
  answered (err e) s next = (s, err e)
  answered (ok found) s next = next found

  abbrev pub resume :
      Indexer E × Result (Unit {0})
      → (Indexer E → Indexer E × Result (List E))
      → Indexer E × Result (List E)
  resume (s, err e) next = (s, err e)
  resume (s, ok _) next = next s

  module _ (c : IndexerConfig) where
    -- `setCursor`, if there is a store.
    abbrev pub saved : Node E → Indexer E → Indexer E × Result (Unit {0})
    saved node s = if c.has_store then kept s (node.save (decimal s.next_block)) else (s, ok tt)

    -- The loop over the windows, with the records found so far; an error leaves what was read.
    unfoldable pub read_windows :
        ℕ → ℕ → ℕ → Node E → Indexer E → List E → Indexer E × Result (List E)
    read_windows zero from target node s records = (s, ok records)
    read_windows (suc fuel) from target node s records = elim (ltb target from) [
      | true ↦ (s, ok records)
      | false ↦ answered (node.get_logs from (window_end c from target node.latest)) s λ found.
          resume (saved node (advanced s found (window_end c from target node.latest)))
            λ s'. read_windows fuel (from + c.max_block_range) target node s' (records ++ found)
    ]

    -- A poll reads at most `max_ranges_per_poll` windows, which is the fuel.
    unfoldable pub poll : Node E → Indexer E → Indexer E × Result (List E)
    poll node s =
        if ltb node.latest s.next_block
        then (s, ok [])
        else read_windows c.max_ranges_per_poll s.next_block
            (target_block c s.next_block node.latest) node s []

  -- `snapshot`, but for the events' fields in text form.
  unfoldable pub snapshot : Indexer E → Str × List E
  snapshot s = (decimal s.next_block, s.events)
