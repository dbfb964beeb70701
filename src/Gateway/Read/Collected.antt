-- ===== src/Gateway/Read/Collected.antt =====
-- What the loop of `readBlob` collects, and the first shards in order.
use prime_server.Base.{
  ℕ, zero, suc, ◌+◌, ◌≤◌, ◌<◌, Bool, true, not, Option, some, is_some, List, [], ◌∷◌, map, ◌≡◌,
  refl, ap, ◌∙◌, arith, inl, inr, length, take, keep, ltb, Bool-cases, Option-cases, upto,
  upto_from, entries_of, IsSorted, IsStrict, All, nat_eq, str_eq,
}
use prime_server.Erasure.{Bytes}
use prime_server.Erasure.Laws.{chunk_at}
use prime_server.Gateway.Read.{collect, by_index, bytes_of}

-- What the loop collects, where every shard that is read is the one of a function.
pub collect-entries :
    (attempt : ℕ → Option Bytes) (f : ℕ → Bytes) (is : List ℕ)
    → All (λ i. (x : Bytes) → attempt i ≡ some x → x ≡ f i) is
    → collect attempt is ≡ (
      entries_of f (keep (λ i. is_some (attempt i)) is),
      keep (λ i. not (is_some (attempt i))) is,
    )
collect-entries attempt f [] h = refl
collect-entries attempt f (i ∷ is) (h, hs) = elim (Option-cases (attempt i)) [
  | inl e ↦ rw (e, collect) (rw (collect-entries attempt f is hs, collect) refl)
  | inr (x, e) ↦ rw (e, collect) (rw (collect-entries attempt f is hs, collect) (rw (h x e) refl))
]

pub nothing_lost : (p : ℕ → Bool) (is : List ℕ) → keep (λ i. not (p i)) is ≡ [] → keep p is ≡ is
nothing_lost p [] h = refl
nothing_lost p (i ∷ is) h = elim (Bool-cases (p i)) [
  | inl e ↦ rw e (ap (◌∷◌ i) (nothing_lost p is (rw e at h)))
  | inr e ↦ let k = rw e at h in cc
]

pub keep-beyond : (k start count : ℕ) → k ≤ start → keep (λ i. ltb i k) (upto_from start count) ≡ []
keep-beyond k start zero h = refl
keep-beyond k start (suc count) h = ground (arith, keep-beyond k (start + 1) count)

-- Those of some consecutive indices that are below `m`.
pub keep-first :
    (m start count n : ℕ)
    → start + count ≡ m
    → count ≤ n
    → keep (λ i. ltb i m) (upto_from start n) ≡ upto_from start count
keep-first m start zero n h k = keep-beyond m start n (omega arith)
keep-first m start (suc count) zero h k = ground arith
keep-first m start (suc count) (suc n) h k =
    let rest = keep-first m (start + 1) count n (omega arith) (omega arith) in ground arith

pub bytes_of-entries : (f : ℕ → Bytes) (is : List ℕ) → bytes_of (entries_of f is) ≡ map f is
bytes_of-entries f [] = refl
bytes_of-entries f (i ∷ is) = ap (◌∷◌ (f i)) (bytes_of-entries f is)

pub entries_of-IsSorted :
    (f : ℕ → Bytes) (is : List ℕ) → IsStrict is → IsSorted by_index (entries_of f is)
entries_of-IsSorted f [] h = tt
entries_of-IsSorted f (i ∷ is) (h, hs) = (le is h, entries_of-IsSorted f is hs)
  where
    le :
        (js : List ℕ)
        → All (λ j. i < j) js
        → All (λ e. by_index (i, f i) e ≡ true) (entries_of f js)
    le [] k = tt
    le (j ∷ js) (k, ks) = (ground arith, le js ks)

pub map-chunk_at_from :
    (cs : List Bytes) (f : ℕ → Bytes) (start k : ℕ)
    → ((i : ℕ) → f (start + i) ≡ chunk_at cs i)
    → k ≤ length cs
    → map f (upto_from start k) ≡ take k cs
map-chunk_at_from cs f start zero g h = refl
map-chunk_at_from [] f start (suc k) g h = ground arith
map-chunk_at_from (c ∷ cs) f start (suc k) g h =
    let first : f start ≡ c = ap f (omega arith) ∙ g 0 in
    let rest =
      map-chunk_at_from cs f (start + 1) k (λ i. ap f (omega arith) ∙ g (suc i)) (omega arith) in
    cc (first, rest)

pub map-chunk_at :
    (cs : List Bytes) (k : ℕ) → k ≤ length cs → map (chunk_at cs) (upto k) ≡ take k cs
map-chunk_at cs k h = map-chunk_at_from cs (chunk_at cs) 0 k (λ i. ap (chunk_at cs) (omega arith)) h
