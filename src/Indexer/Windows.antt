-- ===== src/Indexer/Windows.antt =====
-- A poll that meets no error reads every block up to its target, once and in order.
use prime_server.Base.{
  ℕ, zero, suc, ◌+◌, ◌-◌, ◌≤◌, ◌<◌, Str, false, Option, some, List, [], ◌++◌, ◌≡◌, refl, sym, ap,
  ◌∙◌, ◌⊎◌, inl, inr, arith, map, concat, upto_from, ltb, Bool-cases, decimal, Result, ok, err,
  Error, ok-inj,
}
use mathlib.Core.List.{append-nil, append_assoc}
use prime_server.Indexer.{
  kept, answered, resume, IndexerConfig, Indexer, Node, window_end, advanced, saved, read_windows,
}

module _ {E : Type 0} (chain : ℕ → List E) where
  -- The events of `count` blocks from `start` on.
  abbrev pub blocks : ℕ → ℕ → List E
  blocks start count = concat (map chain (upto_from start count))

  pub blocks-add :
      (start m n k : ℕ) → m + n ≡ k → blocks start k ≡ blocks start m ++ blocks (start + m) n
  blocks-add start zero n k e = ap (blocks start) (omega arith) ∙ ap (λ x. blocks x n) (omega arith)
  blocks-add start (suc m) n zero e = ground arith
  blocks-add start (suc m) n (suc k) e =
      ap (◌++◌ (chain start)) (
        blocks-add (start + 1) m n k (omega arith)
        ∙ ap (λ x. blocks (start + 1) m ++ blocks x n) (omega arith))
      ∙ sym (append_assoc (chain start) (blocks (start + 1) m) (blocks (start + suc m) n))

  -- What the node answers is what the chain holds.
  abbrev pub IsFaithful : Node E → Type 0
  IsFaithful node =
      (from to : ℕ) (found : List E)
      → from ≤ to
      → node.get_logs from to ≡ ok found
      → found ≡ blocks from (to + 1 - from)

  -- Between two states the indexer has read the blocks from the one's next block to the other's, and
  -- stored at most cursors on the way.
  pub record IsRead (s s' : Indexer E) : Type 0 where
    pub forward : s.next_block ≤ s'.next_block
    pub events : s'.events ≡ s.events ++ blocks s.next_block (s'.next_block - s.next_block)
    pub cursor :
        (s'.cursor ≡ s.cursor)
        ⊎ ((n : ℕ) × (s'.cursor ≡ some (decimal n)) × (s.next_block ≤ n) × (n ≤ s'.next_block))

  nothing : (start n : ℕ) → blocks start (n - n) ≡ []
  nothing start n = let none_left : n - n ≡ 0 = omega arith in ap (blocks start) none_left

  pub same-IsRead : (s : Indexer E) → IsRead s s
  same-IsRead s = record {
    forward = omega arith;
    events =
        sym (append-nil s.events) ∙ ap (◌++◌ s.events) (sym (nothing s.next_block s.next_block));
    cursor = inl refl;
  }

  joined : (a b c : ℕ) → a ≤ b → b ≤ c → blocks a (b - a) ++ blocks b (c - b) ≡ blocks a (c - a)
  joined a b c h k =
      let here : a + (b - a) ≡ b = omega arith in
      ap (λ x. blocks a (b - a) ++ blocks x (c - b)) (sym here)
      ∙ sym (blocks-add a (b - a) (c - b) (c - a) (omega arith))

  later_cursor :
      (a b c : ℕ) (o p q : Option Str)
      → a ≤ b
      → b ≤ c
      → (p ≡ o) ⊎ ((n : ℕ) × (p ≡ some (decimal n)) × (a ≤ n) × (n ≤ b))
      → (q ≡ p) ⊎ ((n : ℕ) × (q ≡ some (decimal n)) × (b ≤ n) × (n ≤ c))
      → (q ≡ o) ⊎ ((n : ℕ) × (q ≡ some (decimal n)) × (a ≤ n) × (n ≤ c))
  later_cursor a b c o p q h k f (inr (n, e, l, u)) = inr (n, e, omega arith, u)
  later_cursor a b c o p q h k (inl d) (inl e) = inl (e ∙ d)
  later_cursor a b c o p q h k (inr (n, d, l, u)) (inl e) = inr (n, e ∙ d, l, omega arith)

  pub then-IsRead : (a b c : Indexer E) → IsRead a b → IsRead b c → IsRead a c
  then-IsRead a b c f g = record {
    forward = let x = f.forward in let y = g.forward in omega arith;
    events =
        g.events
        ∙ (ap (λ x. x ++ blocks b.next_block (c.next_block - b.next_block)) f.events
            ∙ (append_assoc a.events _ _
                ∙ ap (◌++◌ a.events)
                    (joined a.next_block b.next_block c.next_block f.forward g.forward)));
    cursor = later_cursor _ _ _ a.cursor b.cursor c.cursor f.forward g.forward f.cursor g.cursor;
  }

  -- What a loop has done when it ends, in any way: it has read some blocks, and what it returns are
  -- the events of just these blocks.
  pub record IsOutcome (s : Indexer E) (records : List E) (x : Indexer E × Result (List E))
      : Type 0 where
    pub read : IsRead s x.0
    pub returned :
        (all : List E)
        → x.1 ≡ ok all
        → all ≡ records ++ blocks s.next_block (x.0.next_block - s.next_block)

  module _ (c : IndexerConfig) (positive : 1 ≤ c.max_block_range) (node : Node E)
      (faithful : IsFaithful node) where
    window_end-after :
        (from target latest : ℕ) → from ≤ target → from ≤ window_end c from target latest
    window_end-after from target latest h = ground arith

    -- After a window the loop goes on right after it, or stops.
    window_end-next :
        (from target latest : ℕ)
        → target ≤ latest
        → (window_end c from target latest + 1 ≡ from + c.max_block_range)
          ⊎ (target < from + c.max_block_range)
    window_end-next from target latest h =
        elim (Bool-cases (ltb (from + c.max_block_range - 1) latest)) [
          | inl e ↦ rw e (inl (omega arith))
          | inr e ↦ inr (ground arith)
        ]

    kept-IsRead :
        (s t : Indexer E) (r : Result (Unit {0}))
        → IsRead s t
        → IsRead s (kept t r).0 × ((kept t r).0.next_block ≡ t.next_block)
    kept-IsRead s t (err e) h = (h, refl)
    kept-IsRead s t (ok _) h = (
      record {
        forward = h.forward;
        events = h.events;
        cursor = inr (t.next_block, refl, h.forward, omega arith);
      },
      refl,
    )

    saved-IsRead :
        (s t : Indexer E)
        → IsRead s t
        → IsRead s (saved c node t).0 × ((saved c node t).0.next_block ≡ t.next_block)
    saved-IsRead s t h = elim (Bool-cases c.has_store) [
      | inl e ↦ rw e (kept-IsRead s t (node.save (decimal t.next_block)) h)
      | inr e ↦ rw e (h, refl)
    ]

    advanced-IsRead :
        (s : Indexer E) (found : List E) (to : ℕ)
        → s.next_block ≤ to
        → node.get_logs s.next_block to ≡ ok found
        → IsRead s (advanced s found to)
    advanced-IsRead s found to h answer = record {
      forward = omega arith;
      events = ap (◌++◌ s.events) (faithful s.next_block to found h answer);
      cursor = inl refl;
    }

    pub stop-IsOutcome : (s : Indexer E) (records : List E) → IsOutcome s records (s, ok records)
    stop-IsOutcome s records = record {
      read = same-IsRead s;
      returned = λ all e.
          sym (ok-inj e)
          ∙ (sym (append-nil records)
              ∙ ap (◌++◌ records) (sym (nothing s.next_block s.next_block)));
    }

    throw-IsOutcome :
        (s t : Indexer E) (records : List E) (e : Error)
        → IsRead s t
        → IsOutcome s records (t, err e)
    throw-IsOutcome s t records e h = record { read = h; returned = λ all k. cc }

    window-IsOutcome :
        (s t : Indexer E) (records found : List E) (x : Indexer E × Result (List E))
        → IsRead s t
        → found ≡ blocks s.next_block (t.next_block - s.next_block)
        → IsOutcome t (records ++ found) x
        → IsOutcome s records x
    window-IsOutcome s t records found x h here later = record {
      read = then-IsRead s t x.0 h later.read;
      returned = λ all e.
          later.returned all e
          ∙ (append_assoc records found _
              ∙ ap (◌++◌ records) (
                  ap (λ y. y ++ blocks t.next_block (x.0.next_block - t.next_block)) here
                  ∙ joined s.next_block t.next_block x.0.next_block h.forward later.read.forward));
    }

    answered-IsOutcome :
        (s : Indexer E) (records : List E) (r : Result (List E))
        (next : List E → Indexer E × Result (List E))
        → ((found : List E) → r ≡ ok found → IsOutcome s records (next found))
        → IsOutcome s records (answered r s next)
    answered-IsOutcome s records (err e) next h = throw-IsOutcome s s records e (same-IsRead s)
    answered-IsOutcome s records (ok found) next h = h found refl

    resume-IsOutcome :
        (s : Indexer E) (records : List E) (x : Indexer E × Result (Unit {0}))
        (next : Indexer E → Indexer E × Result (List E))
        → IsRead s x.0
        → IsOutcome s records (next x.0)
        → IsOutcome s records (resume x next)
    resume-IsOutcome s records (t, err e) next h k = throw-IsOutcome s t records e h
    resume-IsOutcome s records (t, ok _) next h k = k

    pub read_windows-IsOutcome :
        (fuel from target : ℕ) (s : Indexer E) (records : List E)
        → target ≤ node.latest
        → (s.next_block ≡ from) ⊎ (target < from)
        → IsOutcome s records (read_windows c fuel from target node s records)
    unfolding read_windows
    read_windows-IsOutcome zero from target s records known at = stop-IsOutcome s records
    read_windows-IsOutcome (suc fuel) from target s records known at =
        elim (Bool-cases (ltb target from)) [
          | inl past ↦ rw (past, read_windows) (stop-IsOutcome s records)
          | inr more ↦
              let (here, inside) = at_start s.next_block from target at more in
              let to : ℕ = window_end c from target node.latest in
              rw (more, read_windows)
                (answered-IsOutcome s records (node.get_logs from to) _ λ found answer.
                  let t : Indexer E = advanced s found to in
                  let after : from ≤ to = window_end-after from target node.latest inside in
                  let asked : node.get_logs s.next_block to ≡ ok found =
                    ap (λ x. node.get_logs x to) here ∙ answer in
                  let (read, next) =
                    saved-IsRead s t (advanced-IsRead s found to (omega arith) asked) in
                  let rest =
                    read_windows-IsOutcome fuel (from + c.max_block_range) target (saved c node t).0
                      (records ++ found) known
                      (next_at _ _ _ _ next (window_end-next from target node.latest known)) in
                  resume-IsOutcome s records (saved c node t) _ read (
                    window-IsOutcome s (saved c node t).0 records found _ read
                      (faithful s.next_block to found (omega arith) asked
                        ∙ ap (λ n. blocks s.next_block (n - s.next_block)) (sym next))
                      rest))
        ]
      where
        at_start :
            (next from target : ℕ)
            → (next ≡ from) ⊎ (target < from)
            → ltb target from ≡ false
            → (next ≡ from) × (from ≤ target)
        at_start next from target here more = ground arith

        next_at :
            (next to from target : ℕ)
            → next ≡ to + 1
            → (to + 1 ≡ from) ⊎ (target < from)
            → (next ≡ from) ⊎ (target < from)
        next_at next to from target e (inl f) = inl (e ∙ f)
        next_at next to from target e (inr f) = inr f
