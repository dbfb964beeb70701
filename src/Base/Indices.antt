-- ===== src/Base/Indices.antt =====
-- Lists of indices: `Array.from({ length: n }, (_, i) => i)`, sets of numbers in order, and maps from
-- indices.
use Prim.Native.Nat.{ℕ, zero, suc, ◌+◌, ◌≤◌, ◌<◌}
use mathlib.Core.Path.{◌≡◌, refl, ap, ◌∙◌}
use mathlib.Core.Logic.{inl, inr}
use mathlib.Core.Bool.{Bool, true, false, not, ◌&&◌, ◌||◌}
use mathlib.Core.Option.{some}
use mathlib.Core.List.{List, [], ◌∷◌, ◌++◌}
use native.Mathlib.Omega.{arith}
use prime_server.Base.Tests.{eqb, leb, eqb_iff, nat_eq, if◌then◌else◌, Bool-cases}
use prime_server.Base.Lists.{length, keep, All}
use prime_server.Base.Dict.{Table, lookup, insert, lookup-insert}
use prime_server.Base.Sorting.{sort, insert_sorted, IsSorted}

-- The `count` numbers from `start` on.
abbrev pub upto_from : ℕ → ℕ → List ℕ
upto_from start zero = []
upto_from start (suc count) = start ∷ upto_from (start + 1) count

abbrev pub upto : ℕ → List ℕ
upto n = upto_from 0 n

-- `l.includes(x)`.
abbrev pub contains : ℕ → List ℕ → Bool
contains x [] = false
contains x (y ∷ ys) = eqb y x || contains x ys

-- `new Set(…)` keeps the first of equal numbers.
unfoldable pub distinct : List ℕ → List ℕ
distinct [] = []
distinct (x ∷ xs) = x ∷ keep (λ y. not (eqb x y)) (distinct xs)

-- `[...new Set(l)].sort((a, b) => a - b)`.
unfoldable pub sorted_set : List ℕ → List ℕ
unfolding distinct sort
sorted_set xs = sort leb (distinct xs)

-- `Buffer.concat`.
abbrev pub concat {ℓ} : {A : Type ℓ} → List (List A) → List A
concat [] = []
concat (xs ∷ rest) = xs ++ concat rest

abbrev pub replicate {ℓ} : {A : Type ℓ} → ℕ → A → List A
replicate zero x = []
replicate (suc n) x = x ∷ replicate n x

-- `new Map(entries)`: the last of equal keys wins.
abbrev pub from_entries {ℓ} : {V : Type ℓ} → List (ℕ × V) → Table ℕ V → Table ℕ V
from_entries [] t = t
from_entries ((k, v) ∷ es) t = from_entries es (insert k v t)

-- Every number is less than all that follow it.
abbrev pub IsStrict : List ℕ → Type 0
IsStrict [] = Unit
IsStrict (x ∷ xs) = All (λ y. x < y) xs × IsStrict xs

All-weaken_from : (a b : ℕ) (xs : List ℕ) → a ≤ b → All (λ y. b ≤ y) xs → All (λ y. a < y + 1) xs
All-weaken_from a b [] h k = tt
All-weaken_from a b (x ∷ xs) h (k, ks) = (omega arith, All-weaken_from a b xs h ks)

upto_from-above : (a start count : ℕ) → a < start → All (λ y. a < y) (upto_from start count)
upto_from-above a start zero h = tt
upto_from-above a start (suc count) h = (h, upto_from-above a (start + 1) count (omega arith))

pub upto_from-IsStrict : (start count : ℕ) → IsStrict (upto_from start count)
upto_from-IsStrict start zero = tt
upto_from-IsStrict start (suc count) =
    (upto_from-above start (start + 1) count (omega arith), upto_from-IsStrict (start + 1) count)

pub length-upto_from : (start count : ℕ) → length (upto_from start count) ≡ count
length-upto_from start zero = refl
length-upto_from start (suc count) = omega (arith, length-upto_from (start + 1) count)

pub upto_from-below :
    (start count : ℕ) → All (λ y. (start ≤ y) × (y < start + count)) (upto_from start count)
upto_from-below start zero = tt
upto_from-below start (suc count) = (
  (omega arith, omega arith),
  weaken (upto_from (start + 1) count) (upto_from-below (start + 1) count),
)
  where
    weaken :
        (l : List ℕ)
        → All (λ y. (start + 1 ≤ y) × (y < start + 1 + count)) l
        → All (λ y. (start ≤ y) × (y < start + suc count)) l
    weaken [] h = tt
    weaken (y ∷ l) ((a, b), h) = ((omega arith, omega arith), weaken l h)

keep-above :
    (a : ℕ) (p : ℕ → Bool) (xs : List ℕ) → All (λ y. a < y) xs → All (λ y. a < y) (keep p xs)
keep-above a p [] h = tt
keep-above a p (x ∷ xs) (h, hs) = elim (Bool-cases (p x)) [
  | inl e ↦ rw e (h, keep-above a p xs hs)
  | inr e ↦ rw e (keep-above a p xs hs)
]

pub keep-IsStrict : (p : ℕ → Bool) (xs : List ℕ) → IsStrict xs → IsStrict (keep p xs)
keep-IsStrict p [] h = tt
keep-IsStrict p (x ∷ xs) (h, hs) = elim (Bool-cases (p x)) [
  | inl e ↦ rw e (keep-above x p xs h, keep-IsStrict p xs hs)
  | inr e ↦ rw e (keep-IsStrict p xs hs)
]

-- A filter that all elements pass, and two filters that agree on all elements.
pub keep_ext {ℓ} :
    {A : Type ℓ} (p q : A → Bool) (xs : List A) → All (λ x. p x ≡ q x) xs → keep p xs ≡ keep q xs
keep_ext p q [] h = refl
keep_ext p q (x ∷ xs) (h, hs) = rw h (rw (keep_ext p q xs hs) refl)

pub keep_everything {ℓ} :
    {A : Type ℓ} (p : A → Bool) (xs : List A) → All (λ x. p x ≡ true) xs → keep p xs ≡ xs
keep_everything p [] h = refl
keep_everything p (x ∷ xs) (h, hs) = rw h (ap (◌∷◌ x) (keep_everything p xs hs))

pub keep_none {ℓ} :
    {A : Type ℓ} (p : A → Bool) (xs : List A) → All (λ x. p x ≡ false) xs → keep p xs ≡ []
keep_none p [] h = refl
keep_none p (x ∷ xs) (h, hs) = rw h (keep_none p xs hs)

apart : (x : ℕ) (xs : List ℕ) → All (λ y. x < y) xs → All (λ y. not (eqb x y) ≡ true) xs
apart x [] h = tt
apart x (y ∷ ys) (h, hs) = (ground arith, apart x ys hs)

distinct-strict : (xs : List ℕ) → IsStrict xs → distinct xs ≡ xs
unfolding distinct
distinct-strict [] h = refl
distinct-strict (x ∷ xs) (h, hs) = ap (◌∷◌ x) (
    ap (keep (λ y. not (eqb x y))) (distinct-strict xs hs)
    ∙ keep_everything (λ y. not (eqb x y)) xs (apart x xs h))

insert_sorted-first {ℓ} :
    {A : Type ℓ} (le : A → A → Bool) (x : A) (ys : List A)
    → All (λ y. le x y ≡ true) ys
    → insert_sorted le x ys ≡ x ∷ ys
unfolding insert_sorted
insert_sorted-first le x [] k = refl
insert_sorted-first le x (y ∷ ys) (k, ks) = rw k refl

-- A list in order is not changed by sorting.
pub sort_sorted {ℓ} :
    {A : Type ℓ} (le : A → A → Bool) (xs : List A) → IsSorted le xs → sort le xs ≡ xs
unfolding sort
sort_sorted le [] h = refl
sort_sorted le (x ∷ xs) (h, hs) =
    ap (insert_sorted le x) (sort_sorted le xs hs) ∙ insert_sorted-first le x xs h

strict-IsSorted : (xs : List ℕ) → IsStrict xs → IsSorted leb xs
strict-IsSorted [] h = tt
strict-IsSorted (x ∷ xs) (h, hs) = (le xs h, strict-IsSorted xs hs)
  where
    le : (ys : List ℕ) → All (λ y. x < y) ys → All (λ y. leb x y ≡ true) ys
    le [] k = tt
    le (y ∷ ys) (k, ks) = (ground arith, le ys ks)

-- A set in order is read as it is.
pub sorted_set-strict : (xs : List ℕ) → IsStrict xs → sorted_set xs ≡ xs
unfolding sorted_set
sorted_set-strict xs h =
    ap (sort leb) (distinct-strict xs h) ∙ sort_sorted leb xs (strict-IsSorted xs h)

contains-keep :
    (x : ℕ) (p : ℕ → Bool) (xs : List ℕ) → contains x (keep p xs) ≡ (contains x xs && p x)
contains-keep x p [] = refl
contains-keep x p (y ∷ ys) = elim (Bool-cases (eqb y x)) [
  | inl e ↦ let same = (eqb_iff y x).0 e in ground (arith, contains-keep x p ys)
  | inr e ↦ ground (arith, contains-keep x p ys)
]

All-contains_more :
    (y : ℕ) (xs l : List ℕ)
    → All (λ x. contains x l ≡ true) xs
    → All (λ x. contains x (y ∷ l) ≡ true) xs
All-contains_more y [] l h = tt
All-contains_more y (x ∷ xs) l (h, hs) = (ground arith, All-contains_more y xs l hs)

pub All-contains : (xs : List ℕ) → All (λ x. contains x xs ≡ true) xs
All-contains [] = tt
All-contains (x ∷ xs) = (ground arith, All-contains_more x xs xs (All-contains xs))

-- What is left of a list without those that fail a test are those that pass it.
pub keep-others :
    (p : ℕ → Bool) (xs : List ℕ)
    → keep (λ i. not (contains i (keep (λ j. not (p j)) xs))) xs ≡ keep p xs
keep-others p xs = keep_ext _ p xs (agree xs (All-contains xs))
  where
    agree :
        (l : List ℕ)
        → All (λ x. contains x xs ≡ true) l
        → All (λ i. not (contains i (keep (λ j. not (p j)) xs)) ≡ p i) l
    agree [] h = tt
    agree (x ∷ l) (h, hs) = (ground (arith, contains-keep x (λ j. not (p j)) xs), agree l hs)

pub length-keep_split {ℓ} :
    {A : Type ℓ} (p : A → Bool) (xs : List A)
    → length (keep p xs) + length (keep (λ x. not (p x)) xs) ≡ length xs
length-keep_split p [] = omega arith
length-keep_split p (x ∷ xs) = elim (Bool-cases (p x)) [
  | inl e ↦ rw e (omega (arith, length-keep_split p xs))
  | inr e ↦ rw e (omega (arith, length-keep_split p xs))
]

module _ {ℓ} {V : Type ℓ} (f : ℕ → V) where
  -- The entries of a function on a list of indices.
  abbrev pub entries_of : List ℕ → List (ℕ × V)
  entries_of [] = []
  entries_of (i ∷ is) = (i, f i) ∷ entries_of is

  pub lookup-from_entries :
      (j : ℕ) (is : List ℕ) (t : Table ℕ V)
      → lookup j (from_entries (entries_of is) t)
        ≡ (if contains j is then some (f j) else lookup j t)
  lookup-from_entries j [] t = refl
  lookup-from_entries j (i ∷ is) t = elim (Bool-cases (eqb i j)) [
    | inl e ↦
        let same = (eqb_iff i j).0 e in
        ground
          (arith, lookup-from_entries j is (insert i (f i) t), lookup-insert i j (f i) t, ap f same)
    | inr e ↦ ground (arith, lookup-from_entries j is (insert i (f i) t), lookup-insert i j (f i) t)
  ]

  pub length-entries_of : (is : List ℕ) → length (entries_of is) ≡ length is
  length-entries_of [] = refl
  length-entries_of (i ∷ is) = omega (arith, length-entries_of is)

  pub keep-entries_of :
      (p : ℕ → Bool) (is : List ℕ)
      → keep (λ (e : ℕ × V). p e.0) (entries_of is) ≡ entries_of (keep p is)
  keep-entries_of p [] = refl
  keep-entries_of p (i ∷ is) = elim (Bool-cases (p i)) [
    | inl e ↦ rw e (ap (◌∷◌ (i, f i)) (keep-entries_of p is))
    | inr e ↦ rw e (keep-entries_of p is)
  ]
