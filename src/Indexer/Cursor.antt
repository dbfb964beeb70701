-- ===== src/Indexer/Cursor.antt =====
-- Polls one after another, and an indexer that starts again from the stored cursor.
use prime_server.Base.{
  ℕ, ◌-◌, ◌≤◌, Str, Bool, true, false, not, ◌||◌, Option, none, some, List, [], ◌∷◌, ◌++◌, ◌≡◌,
  refl, sym, ap, ◌∙◌, ◌⊎◌, inl, inr, arith, All, ltb, is_safe, if◌then◌else◌, Bool-cases, decimal,
  digits_value, digits_value-decimal, ok, throw_if-then, ok-inj,
}
use mathlib.Core.Option.{some-injective}
use prime_server.Indexer.{IndexerConfig, Indexer, Node, create, target_block, poll}
use prime_server.Indexer.Windows.{
  blocks, IsFaithful, IsRead, same-IsRead, then-IsRead, IsOutcome, stop-IsOutcome,
  read_windows-IsOutcome,
}

target_block-known : (c : IndexerConfig) (next latest : ℕ) → target_block c next latest ≤ latest
target_block-known c next latest = ground arith

module _ {E : Type 0} (chain : ℕ → List E) (c : IndexerConfig) where
  -- A poll reads blocks right after those read before and returns just their events, also where an
  -- answer of the node or a write of the cursor fails: then it has read the blocks before the failure.
  pub poll-IsOutcome :
      (node : Node E) (s : Indexer E)
      → 1 ≤ c.max_block_range
      → IsFaithful chain node
      → IsOutcome chain s [] (poll c node s)
  unfolding poll
  poll-IsOutcome node s positive faithful = elim (Bool-cases (ltb node.latest s.next_block)) [
    | inl e ↦ rw (e, poll) (stop-IsOutcome chain c positive node faithful s [])
    | inr e ↦
        rw (e, poll)
          (read_windows-IsOutcome chain c positive node faithful c.max_ranges_per_poll s.next_block
            (target_block c s.next_block node.latest) s []
            (target_block-known c s.next_block node.latest) (inl refl))
  ]

  -- Polls one after another, each with the node as it is then.
  abbrev pub poll_all : List (Node E) → Indexer E → Indexer E
  poll_all [] s = s
  poll_all (node ∷ nodes) s = poll_all nodes (poll c node s).0

  poll_all-IsRead :
      (nodes : List (Node E)) (s : Indexer E)
      → 1 ≤ c.max_block_range
      → All (IsFaithful chain) nodes
      → IsRead chain s (poll_all nodes s)
  poll_all-IsRead [] s positive h = same-IsRead chain s
  poll_all-IsRead (node ∷ nodes) s positive (h, hs) =
      then-IsRead chain s (poll c node s).0 _ (poll-IsOutcome node s positive h).read
        (poll_all-IsRead nodes (poll c node s).0 positive hs)

  -- What a new indexer without a stored cursor starts with.
  pub record IsNew (s : Indexer E) : Type 0 where
    pub positive : 1 ≤ c.max_block_range
    pub first : s.next_block ≡ c.from_block
    pub no_events : s.events ≡ []
    pub no_cursor : s.cursor ≡ none

  created :
      (stored : Option Str) (s : Indexer E)
      → create c stored ≡ ok s
      → (1 ≤ c.max_block_range)
        × (s.next_block ≡ (
            if c.has_store
            then (elim stored [ none ↦ c.from_block | some n ↦ digits_value 0 n ])
            else c.from_block))
        × (s.events ≡ [])
        × (s.cursor ≡ stored)
  unfolding create
  created stored s h = throw_if-then (ltb c.max_block_range 1) _ _ h λ positive k.
      throw_if-then (not (is_safe c.max_ranges_per_poll) || ltb c.max_ranges_per_poll 1) _ _ k
        λ legal done.
          let same = ok-inj done in
          (
            ground arith,
            ap (λ (x : Indexer E). x.next_block) (sym same),
            ap (λ (x : Indexer E). x.events) (sym same),
            ap (λ (x : Indexer E). x.cursor) (sym same),
          )

  created-IsNew : (s : Indexer E) → create c none ≡ ok s → IsNew s
  created-IsNew s h =
      let (positive, first, events, cursor) = created none s h in
      record {
        positive = positive;
        first = first ∙ ground arith;
        no_events = events;
        no_cursor = cursor;
      }

  -- From a new indexer, after any polls, whether they return or throw, of nodes that answer what the
  -- chain holds: the events kept are those of the blocks from the first one to the next block, each
  -- block once and in order.
  pub poll_all-events :
      (nodes : List (Node E)) (s : Indexer E)
      → create c none ≡ ok s
      → All (IsFaithful chain) nodes
      → (poll_all nodes s).events
        ≡ blocks chain c.from_block ((poll_all nodes s).next_block - c.from_block)
  poll_all-events nodes s start faithful =
      let fresh = created-IsNew s start in
      let read = poll_all-IsRead nodes s fresh.positive faithful in
      read.events
      ∙ (ap (λ l. l ++ blocks chain s.next_block ((poll_all nodes s).next_block - s.next_block))
            fresh.no_events
          ∙ ap (λ n. blocks chain n ((poll_all nodes s).next_block - n)) fresh.first)

  -- An indexer that is created again with the cursor that polls of a new one, of nodes that answer what
  -- the chain holds, have left in the store
  -- goes on no later than where they stopped, so that it skips no block, and no earlier than the first
  -- block.
  pub restart_bounds :
      (nodes : List (Node E)) (s t : Indexer E)
      → create c none ≡ ok s
      → All (IsFaithful chain) nodes
      → create c (poll_all nodes s).cursor ≡ ok t
      → (c.from_block ≤ t.next_block) × (t.next_block ≤ (poll_all nodes s).next_block)
  restart_bounds nodes s t start faithful again =
      let fresh = created-IsNew s start in
      let read = poll_all-IsRead nodes s fresh.positive faithful in
      let (_, next, _, _) = created (poll_all nodes s).cursor t again in
      between c.has_store (poll_all nodes s).cursor s.next_block (poll_all nodes s).next_block
        t.next_block fresh.first read.forward next (from_none s.cursor fresh.no_cursor read.cursor)
    where
      from_none :
          {X : Type 0} {p : Option Str} (o : Option Str) → o ≡ none → (p ≡ o) ⊎ X → (p ≡ none) ⊎ X
      from_none o e (inl h) = inl (h ∙ e)
      from_none o e (inr h) = inr h

      between :
          (store : Bool) (o : Option Str) (a b n : ℕ)
          → a ≡ c.from_block
          → a ≤ b
          → n ≡ (
              if store
              then (elim o [ none ↦ c.from_block | some d ↦ digits_value 0 d ])
              else c.from_block)
          → (o ≡ none) ⊎ ((m : ℕ) × (o ≡ some (decimal m)) × (a ≤ m) × (m ≤ b))
          → (c.from_block ≤ n) × (n ≤ b)
      between false o a b n first h e k = (omega arith, omega arith)
      between true none a b n first h e k = (omega arith, omega arith)
      between true (some d) a b n first h e (inl k) = cc
      between true (some d) a b n first h e (inr (m, k, low, high)) =
          let same : n ≡ m =
            e ∙ (ap (digits_value 0) (some-injective d (decimal m) k) ∙ digits_value-decimal m) in
          (omega arith, omega arith)
