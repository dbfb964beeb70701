-- ===== src/Indexer/Target.antt =====
-- A poll that returns has read every block up to its target: its windows are enough.
use prime_server.Base.{
  ℕ, zero, suc, ◌+◌, ◌-◌, ◌*◌, ◌≤◌, ◌<◌, true, false, List, [], ◌++◌, ◌≡◌, refl, sym, ap, ◌∙◌,
  subst, ◌⊎◌, inl, inr, arith, ltb, if◌then◌else◌, Bool-cases, decimal, Result, ok, err,
}
use native.Mathlib.Nat.{mul-suc, mul-zero}
use prime_server.Indexer.{
  kept, answered, resume, IndexerConfig, Indexer, Node, window_end, advanced, saved, read_windows,
  target_block, poll,
}
use prime_server.Indexer.Windows.{blocks, IsFaithful}
use prime_server.Indexer.Cursor.{poll-IsOutcome}

-- The next window, with the numbers of blocks in all windows that are left before and after this one.
next_of :
    (m x y from target latest next : ℕ)
    → y ≡ m + x
    → 1 ≤ m
    → from ≤ target
    → ((target ≡ latest) × (target < from + y)) ⊎ ((target + 1 ≡ from + y) × (target < latest))
    → next ≡ (if ltb (from + m - 1) latest then from + m - 1 else target) + 1
    → ((next ≡ from + m)
        × (from + m ≤ target)
        × (((target ≡ latest) × (target < from + m + x))
            ⊎ ((target + 1 ≡ from + m + x) × (target < latest))))
      ⊎ ((next ≡ target + 1) × (target < from + m))
next_of m x y from target latest next left some_blocks inside (inl (end, most)) e =
    elim (Bool-cases (ltb (from + m - 1) latest)) [
      | inl b ↦ let f = rw b at e in inl (ground arith, ground arith, inl (end, omega arith))
      | inr b ↦ let f = rw b at e in inr (f, ground arith)
    ]
next_of m x y from target latest next left some_blocks inside (inr (end, more)) e =
    elim (Bool-cases (ltb (from + m - 1) latest)) [
      | inl b ↦
          let f = rw b at e in
          elim (Bool-cases (ltb target (from + m))) [
            | inl here ↦ inr (ground arith, ground arith)
            | inr later ↦ inl (ground arith, ground arith, inr (omega arith, more))
          ]
      | inr b ↦ let f = rw b at e in inr (f, ground arith)
    ]

-- The windows that are left end at the target, or reach past the newest block.
abbrev IsAligned : IndexerConfig → ℕ → ℕ → ℕ → ℕ → Type 0
IsAligned c fuel from target latest =
    ((target ≡ latest) × (target < from + c.max_block_range * fuel))
    ⊎ ((target + 1 ≡ from + c.max_block_range * fuel) × (target < latest))

times_positive : (m r : ℕ) → 1 ≤ m → 1 ≤ r → 1 ≤ m * r
times_positive m zero h k = ground arith
times_positive m (suc r) h k = let e = mul-suc m r in subst (λ n. 1 ≤ n) (sym e) (omega arith)

aligned_of :
    (next latest y : ℕ)
    → 1 ≤ y
    → next ≤ latest
    → (next ≤ (if ltb (next + y - 1) latest then next + y - 1 else latest))
      × ((((if ltb (next + y - 1) latest then next + y - 1 else latest) ≡ latest)
            × ((if ltb (next + y - 1) latest then next + y - 1 else latest) < next + y))
          ⊎ (((if ltb (next + y - 1) latest then next + y - 1 else latest) + 1 ≡ next + y)
              × ((if ltb (next + y - 1) latest then next + y - 1 else latest) < latest)))
aligned_of next latest y h k = elim (Bool-cases (ltb (next + y - 1) latest)) [
  | inl e ↦ rw e (omega arith, inr (omega arith, ground arith))
  | inr e ↦ rw e (k, inl (refl, ground arith))
]

module _ {E : Type 0} (c : IndexerConfig) (node : Node E) where
  answered-ok :
      (r : Result (List E)) (s : Indexer E) (next : List E → Indexer E × Result (List E))
      (all : List E)
      → (answered r s next).1 ≡ ok all
      → (found : List E) × (answered r s next ≡ next found)
  answered-ok (err e) s next all h = cc
  answered-ok (ok found) s next all h = (found, refl)

  resume-ok :
      (x : Indexer E × Result (Unit {0})) (next : Indexer E → Indexer E × Result (List E))
      (all : List E)
      → (resume x next).1 ≡ ok all
      → resume x next ≡ next x.0
  resume-ok (s, err e) next all h = cc
  resume-ok (s, ok _) next all h = refl

  kept-next : (s : Indexer E) (r : Result (Unit {0})) → (kept s r).0.next_block ≡ s.next_block
  kept-next s (ok _) = refl
  kept-next s (err _) = refl

  saved-next : (s : Indexer E) → (saved c node s).0.next_block ≡ s.next_block
  saved-next s = elim (Bool-cases c.has_store) [
    | inl e ↦ rw e (kept-next s (node.save (decimal s.next_block)))
    | inr e ↦ rw e refl
  ]

  -- Where the loop stands: at the start of its next window, or past the target.
  abbrev IsOnCourse : ℕ → ℕ → ℕ → Indexer E → Type 0
  IsOnCourse fuel from target s =
      ((s.next_block ≡ from) × (from ≤ target) × IsAligned c fuel from target node.latest)
      ⊎ ((s.next_block ≡ target + 1) × (target < from))

  next_window :
      (fuel from target next : ℕ)
      → 1 ≤ c.max_block_range
      → from ≤ target
      → IsAligned c (suc fuel) from target node.latest
      → next ≡ window_end c from target node.latest + 1
      → ((next ≡ from + c.max_block_range)
          × (from + c.max_block_range ≤ target)
          × IsAligned c fuel (from + c.max_block_range) target node.latest)
        ⊎ ((next ≡ target + 1) × (target < from + c.max_block_range))
  next_window fuel from target next positive inside aligned e =
      next_of c.max_block_range (c.max_block_range * fuel) (c.max_block_range * suc fuel) from
        target node.latest next (mul-suc c.max_block_range fuel ∙ omega arith) positive inside
        aligned e

  read_windows-target :
      (fuel from target : ℕ) (s : Indexer E) (records all : List E)
      → 1 ≤ c.max_block_range
      → IsOnCourse fuel from target s
      → (read_windows c fuel from target node s records).1 ≡ ok all
      → (read_windows c fuel from target node s records).0.next_block ≡ target + 1
  unfolding read_windows
  read_windows-target zero from target s records all positive (inr (e, past)) h = e
  read_windows-target zero from target s records all positive (inl (e, inside, aligned)) h =
      absurd (
        none_left from target node.latest (c.max_block_range * 0) (mul-zero c.max_block_range)
          inside aligned)
    where
      none_left :
          (from target latest x : ℕ)
          → x ≡ 0
          → from ≤ target
          → ((target ≡ latest) × (target < from + x))
            ⊎ ((target + 1 ≡ from + x) × (target < latest))
          → ⊥
      none_left from target latest x z inside k = ground arith
  read_windows-target (suc fuel) from target s records all positive (inr (e, past)) h =
      let beyond : ltb target from ≡ true = ground arith in rw (beyond, read_windows) e
  read_windows-target (suc fuel) from target s records all positive (inl (e, inside, aligned)) h =
      let more : ltb target from ≡ false = ground arith in
      let to : ℕ = window_end c from target node.latest in
      let rest : Indexer E → List E → Indexer E × Result (List E) = λ s' found.
        read_windows c fuel (from + c.max_block_range) target node s' (records ++ found) in
      let whole : read_windows c (suc fuel) from target node s records
          ≡ answered (node.get_logs from to) s
              (λ found. resume (saved c node (advanced s found to)) (λ s'. rest s' found)) =
        rw (more, read_windows) refl in
      let (found, asked) =
        answered-ok (node.get_logs from to) s _ all
          (ap (λ (x : Indexer E × Result (List E)). x.1) (sym whole) ∙ h) in
      let t : Indexer E = (saved c node (advanced s found to)).0 in
      let stored =
        resume-ok (saved c node (advanced s found to)) (λ s'. rest s' found) all
          (ap (λ (x : Indexer E × Result (List E)). x.1) (sym asked ∙ sym whole) ∙ h) in
      let path = whole ∙ (asked ∙ stored) in
      ap (λ (x : Indexer E × Result (List E)). x.0.next_block) path
      ∙ read_windows-target fuel (from + c.max_block_range) target t (records ++ found) all positive
          (next_window fuel from target t.next_block positive inside aligned
            (saved-next (advanced s found to)))
          (ap (λ (x : Indexer E × Result (List E)). x.1) (sym path) ∙ h)

  target_block-IsAligned :
      (next : ℕ)
      → 1 ≤ c.max_block_range
      → 1 ≤ c.max_ranges_per_poll
      → next ≤ node.latest
      → (next ≤ target_block c next node.latest)
        × IsAligned c c.max_ranges_per_poll next (target_block c next node.latest) node.latest
  target_block-IsAligned next positive ranges known =
      aligned_of next node.latest (c.max_block_range * c.max_ranges_per_poll)
        (times_positive c.max_block_range c.max_ranges_per_poll positive ranges) known

  poll-next :
      (s : Indexer E) (all : List E)
      → 1 ≤ c.max_block_range
      → 1 ≤ c.max_ranges_per_poll
      → s.next_block ≤ node.latest
      → (poll c node s).1 ≡ ok all
      → (poll c node s).0.next_block ≡ target_block c s.next_block node.latest + 1
  unfolding poll
  poll-next s all positive ranges known h =
      let reached : ltb node.latest s.next_block ≡ false = ground arith in
      let (inside, aligned) = target_block-IsAligned s.next_block positive ranges known in
      let whole : poll c node s
          ≡ read_windows c c.max_ranges_per_poll s.next_block
              (target_block c s.next_block node.latest) node s [] =
        rw (reached, poll) refl in
      ap (λ (x : Indexer E × Result (List E)). x.0.next_block) whole
      ∙ read_windows-target c.max_ranges_per_poll s.next_block
          (target_block c s.next_block node.latest) s [] all positive (inl (refl, inside, aligned))
          (ap (λ (x : Indexer E × Result (List E)). x.1) (sym whole) ∙ h)

-- A poll that returns, with positive bounds on windows, of a node that answers what the chain holds
-- and knows the next block, returns
-- the events of exactly the blocks from the next one to the target, each once and in order, and goes
-- on after the target. The target is the newest block, or the last block of as many windows as a poll
-- may read, if that is less.
pub poll-target :
    {E : Type 0} (chain : ℕ → List E) (c : IndexerConfig) (node : Node E) (s : Indexer E)
    (all : List E)
    → 1 ≤ c.max_block_range
    → 1 ≤ c.max_ranges_per_poll
    → IsFaithful chain node
    → s.next_block ≤ node.latest
    → (poll c node s).1 ≡ ok all
    → (all ≡ blocks chain s.next_block (target_block c s.next_block node.latest + 1 - s.next_block))
      × ((poll c node s).0.next_block ≡ target_block c s.next_block node.latest + 1)
poll-target chain c node s all positive ranges faithful known h =
    let next = poll-next c node s all positive ranges known h in
    (
      (poll-IsOutcome chain c node s positive faithful).returned all h
          ∙ ap (λ n. blocks chain s.next_block (n - s.next_block)) next,
      next,
    )
