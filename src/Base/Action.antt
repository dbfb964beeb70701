-- ===== src/Base/Action.antt =====
-- Code that changes a state and may throw: what was changed before an error stays changed.
use mathlib.Core.Path.{◌≡◌, refl}
use mathlib.Core.Bool.{Bool, true, false}
use prime_server.Base.Tests.{if◌then◌else◌}
use prime_server.Base.Outcome.{Error, Result, ok, err}

abbrev pub Action : Type 0 → Type 0 → Type 0
Action S A = S → S × Result A

module _ {S A : Type 0} where
  unfoldable pub pure : A → Action S A
  pure a s = (s, ok a)

  unfoldable pub raise : Error → Action S A
  raise e s = (s, err e)

  unfoldable pub lift : Result A → Action S A
  lift r s = (s, r)

  unfoldable pub reads : (S → A) → Action S A
  reads f s = (s, ok (f s))

module _ {S A B : Type 0} where
  abbrev pub and_then : S × Result A → (A → Action S B) → S × Result B
  and_then (s, ok a) f = f a s
  and_then (s, err e) f = (s, err e)

  infixl 5 ◌>>=◌
  unfoldable pub ◌>>=◌ : Action S A → (A → Action S B) → Action S B
  ◌>>=◌ m f s = and_then (m s) f

infixl 5 ◌>>◌
abbrev pub ◌>>◌ : {S B : Type 0} → Action S (Unit {0}) → Action S B → Action S B
m >> k = m >>= λ _. k

-- `m` keeps `P`, whether it returns or throws.
pub record Keeps {S A : Type 0} (P : S → Type 0) (m : Action S A) : Type 0 where
  pub at : (s : S) → P s → P (m s).0

module _ {S A : Type 0} {P : S → Type 0} where
  pub pure-Keeps : (a : A) → Keeps P (pure a)
  unfolding pure
  pure-Keeps a = record { at = λ s p. p }

  pub lift-Keeps : (r : Result A) → Keeps P (lift r)
  unfolding lift
  lift-Keeps r = record { at = λ s p. p }

  pub reads-Keeps : (f : S → A) → Keeps P (reads f)
  unfolding reads
  reads-Keeps f = record { at = λ s p. p }

  pub if-Keeps :
      (t : Bool) (m k : Action S A) → Keeps P m → Keeps P k → Keeps P (if t then m else k)
  if-Keeps true m k a b = a
  if-Keeps false m k a b = b

module _ {S A B : Type 0} {P : S → Type 0} where
  and_then_keeps :
      (x : S × Result A) (f : A → Action S B)
      → P x.0
      → ((a : A) → Keeps P (f a))
      → P (and_then x f).0
  and_then_keeps (s, ok a) f p k = (k a).at s p
  and_then_keeps (s, err e) f p k = p

  pub bind-Keeps :
      (m : Action S A) (f : A → Action S B)
      → Keeps P m
      → ((a : A) → Keeps P (f a))
      → Keeps P (m >>= f)
  unfolding ◌>>=◌
  bind-Keeps m f a k = record { at = λ s p. and_then_keeps (m s) f (a.at s p) k }

module _ {S A B G : Type 0} where
  -- A run that returned, taken apart at its first step.
  and_then-then :
      (x : S × Result A) (f : A → Action S B) {s' : S} {b : B}
      → and_then x f ≡ (s', ok b)
      → ((s : S) (a : A) → x ≡ (s, ok a) → f a s ≡ (s', ok b) → G)
      → G
  and_then-then (s, ok a) f h next = next s a refl h
  and_then-then (s, err e) f h next = cc

  pub bind-then_at :
      (m : Action S A) (f : A → Action S B) (s0 : S) {s' : S} {b : B}
      → (m >>= f) s0 ≡ (s', ok b)
      → ((s : S) (a : A) → m s0 ≡ (s, ok a) → f a s ≡ (s', ok b) → G)
      → G
  unfolding ◌>>=◌
  bind-then_at m f s0 h next = and_then-then (m s0) f h next

pub ruleset keeps_rules = (pure-Keeps, lift-Keeps, reads-Keeps, if-Keeps, bind-Keeps)

pub lift-ok :
    {S A : Type 0} (r : Result A) (s : S) {s' : S} {a : A} → lift r s ≡ (s', ok a) → r ≡ ok a
unfolding lift
lift-ok r s h = cc

-- A value that was returned or raised as it is, in the state as it was.
pub lift-same :
    {S A : Type 0} (r : Result A) (s : S) {s' : S} {a : A} → lift r s ≡ (s', ok a) → s ≡ s'
unfolding lift
lift-same r s h = cc

pub pure_done :
    {S A : Type 0} (a : A) (s : S) {s' : S} {b : A} → pure a s ≡ (s', ok b) → (s ≡ s') × (a ≡ b)
unfolding pure
pure_done a s h = (cc, cc)
