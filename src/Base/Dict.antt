-- ===== src/Base/Dict.antt =====
-- `Map` and plain objects used as dictionaries: pairs in the order of insertion. A write to a key
-- that is there keeps its place, as in JavaScript.
use Prim.Native.Nat.{◌+◌}
use mathlib.Core.Path.{◌≡◌, refl, subst, subst₂}
use mathlib.Core.Logic.{◌≢◌, inl, inr}
use mathlib.Core.Bool.{Bool, true, false}
use mathlib.Core.Option.{Option, none, some, some-injective}
use mathlib.Core.List.{List, [], ◌∷◌, map}
use native.Mathlib.Omega.{arith}
use prime_server.Base.Tests.{Eq, ◌==◌, ==-cases, if◌then◌else◌}
use prime_server.Base.Lists.{length, All}

abbrev pub Table {ℓ κ} : Type ℓ → Type κ → Type (ℓ ⊔ κ)
Table K V = List (K × V)

abbrev pub is_some {ℓ} : {A : Type ℓ} → Option A → Bool
is_some none = false
is_some (some _) = true

module _ {ℓ κ} {K : Type ℓ} {V : Type κ} where
  -- `values()`.
  abbrev pub values : Table K V → List V
  values = map (λ e. e.1)

module _ {ℓ κ} {K : Type ℓ} {V : Type κ} ⦃e : Eq K⦄ where
  unfoldable pub lookup : K → Table K V → Option V
  lookup k [] = none
  lookup k ((j, v) ∷ t) = if j == k then some v else lookup k t

  unfoldable pub insert : K → V → Table K V → Table K V
  insert k v [] = (k, v) ∷ []
  insert k v ((j, w) ∷ t) = if j == k then (k, v) ∷ t else (j, w) ∷ insert k v t

  -- `delete(k)`.
  unfoldable pub remove : K → Table K V → Table K V
  remove k [] = []
  remove k ((j, w) ∷ t) = let rest = remove k t in if j == k then rest else (j, w) ∷ rest

  pub lookup-insert :
      (k j : K) (v : V) (t : Table K V)
      → lookup j (insert k v t) ≡ (if k == j then some v else lookup j t)
  unfolding lookup insert
  lookup-insert k j v [] = refl
  lookup-insert k j v ((i, w) ∷ t) =
      ground (arith, e.same_iff k j, e.same_iff i k, e.same_iff i j, lookup-insert k j v t)

  pub lookup-remove :
      (k j : K) (t : Table K V) → lookup j (remove k t) ≡ (if k == j then none else lookup j t)
  unfolding lookup remove
  lookup-remove k j [] = ground arith
  lookup-remove k j ((i, w) ∷ t) =
      ground (arith, e.same_iff k j, e.same_iff i k, e.same_iff i j, lookup-remove k j t)

  pub lookup-insert_self : (k : K) (v : V) (t : Table K V) → lookup k (insert k v t) ≡ some v
  lookup-insert_self k v t = ground (arith, lookup-insert k k v t, e.same_iff k k)

  pub lookup-insert_other :
      (k j : K) (v : V) (t : Table K V) → k ≢ j → lookup j (insert k v t) ≡ lookup j t
  lookup-insert_other k j v t h = ground (arith, lookup-insert k j v t, e.same_iff k j)

  -- A write adds an entry exactly where the key is new.
  pub length-insert :
      (k : K) (v : V) (t : Table K V)
      → length (insert k v t) ≡ (if is_some (lookup k t) then length t else length t + 1)
  unfolding lookup insert
  length-insert k v [] = refl
  length-insert k v ((j, w) ∷ t) = ground (arith, length-insert k v t)

  -- The last write to a key wins, and the entry keeps its place.
  pub insert-insert : (k : K) (v w : V) (t : Table K V) → insert k v (insert k w t) ≡ insert k v t
  unfolding insert
  insert-insert k v w [] = ground (arith, e.same_iff k k)
  insert-insert k v w ((j, u) ∷ t) =
      ground (arith, e.same_iff k k, e.same_iff j k, insert-insert k v w t)

  -- No key stands twice. Tables that are built by `insert` have this.
  abbrev pub IsDistinct : Table K V → Type κ
  IsDistinct [] = Unit
  IsDistinct ((k, v) ∷ t) = (lookup k t ≡ none) × IsDistinct t

  pub insert-IsDistinct : (k : K) (v : V) (t : Table K V) → IsDistinct t → IsDistinct (insert k v t)
  unfolding lookup insert
  insert-IsDistinct k v [] d = (refl, tt)
  insert-IsDistinct k v ((j, w) ∷ t) (free, d) = elim (==-cases j k) [
    | inl (h, same) ↦ rw h (subst (λ x. lookup x t ≡ none) same free, d)
    | inr h ↦ rw h (
      rw (lookup-insert k j v t) (ground (arith, e.same_iff k j, e.same_iff j k)),
      insert-IsDistinct k v t d,
    )
  ]

  -- What holds of all entries holds of the one that a lookup finds.
  pub All-lookup {μ} :
      (P : K × V → Type μ) (t : Table K V) (k : K) (v : V)
      → All P t
      → lookup k t ≡ some v
      → P (k, v)
  unfolding lookup
  All-lookup P [] k v h f = cc
  All-lookup P ((j, w) ∷ t) k v (p, h) f = elim (==-cases j k) [
    | inl (b, same) ↦
        let found : w ≡ v = some-injective w v (rw b at f) in subst₂ (λ x y. P (x, y)) same found p
    | inr b ↦ All-lookup P t k v h (rw b at f)
  ]

  All-weaken {μ} :
      (P Q : K × V → Type μ) (t : Table K V)
      → All P t
      → ((k : K) (v : V) → P (k, v) → Q (k, v))
      → All Q t
  All-weaken P Q [] h f = tt
  All-weaken P Q ((k, v) ∷ t) (p, h) f = (f k v p, All-weaken P Q t h f)

  -- In a table with no key twice, every entry is the one that a lookup of its key finds.
  pub entries-lookup : (t : Table K V) → IsDistinct t → All (λ e. lookup e.0 t ≡ some e.1) t
  unfolding lookup
  entries-lookup [] d = tt
  entries-lookup ((k, v) ∷ t) (free, d) = (
    ground (arith, e.same_iff k k),
    All-weaken _ _ t (entries-lookup t d) (λ j w h. ground (arith, e.same_iff k j)),
  )
