-- ===== src/Base/Outcome.antt =====
-- Code that may throw: a value or the error thrown. An error is a plain `Error` with its message,
-- or a `GatewayError` with a status code of its own; `unauthenticated` is one with the status 401 and
-- the header `www-authenticate: Bearer`.
use Prim.Native.Nat.{ℕ}
use mathlib.Core.Path.{◌≡◌, refl}
use mathlib.Core.Bool.{Bool, true, false, not}
use mathlib.Core.Option.{Option, none, some}
use prime_server.Base.Tests.{◌==◌, str_eq, str_beq_iff}
use prime_server.Base.Strings.{Str}

pub data Error : Type 0 where
  plain : Str → Error
  gateway : ℕ → Str → Error
  unauthenticated : Str → Error

pub data Result {ℓ} (A : Type ℓ) : Type ℓ where
  ok : A → Result A
  err : Error → Result A

infixl 5 ◌>>=◌ ◌>>◌
abbrev pub ◌>>=◌ {ℓ κ} : {A : Type ℓ} {B : Type κ} → Result A → (A → Result B) → Result B
ok a >>= f = f a
err e >>= f = err e

abbrev pub ◌>>◌ {ℓ} : {B : Type ℓ} → Result (Unit {0}) → Result B → Result B
ok _ >> k = k
err e >> k = err e

-- `if (test) throw error`.
abbrev pub throw_if : Bool → Error → Result (Unit {0})
throw_if true e = err e
throw_if false e = ok tt

-- `if (!value) throw error`, and the value after it.
abbrev pub require {ℓ} : {A : Type ℓ} → Option A → Error → Result A
require none e = err e
require (some a) e = ok a

-- Successful runs taken apart step by step: what the rest of a proof gets are variables.
pub throw_if-then {ℓ κ} :
    {A : Type ℓ} {G : Type κ} (t : Bool) (e : Error) (k : Result A) {a : A}
    → (throw_if t e >> k) ≡ ok a
    → (t ≡ false → k ≡ ok a → G)
    → G
throw_if-then true e k h next = cc
throw_if-then false e k h next = next refl h

pub require-then {ℓ κ μ} :
    {A : Type ℓ} {B : Type κ} {G : Type μ} (o : Option A) (e : Error) (f : A → Result B) {b : B}
    → (require o e >>= f) ≡ ok b
    → ((a : A) → o ≡ some a → f a ≡ ok b → G)
    → G
require-then none e f h next = cc
require-then (some a) e f h next = next a refl h

pub bind-then {ℓ κ μ} :
    {A : Type ℓ} {B : Type κ} {G : Type μ} (m : Result A) (f : A → Result B) {b : B}
    → (m >>= f) ≡ ok b
    → ((a : A) → m ≡ ok a → f a ≡ ok b → G)
    → G
bind-then (ok a) f h next = next a refl h
bind-then (err e) f h next = cc

pub ok-inj {ℓ} : {A : Type ℓ} {a b : A} → ok a ≡ ok b → a ≡ b
ok-inj h = cc

-- A last test that did not throw, and two texts that a test found equal.
pub throw_if-ok : (t : Bool) (e : Error) → throw_if t e ≡ ok tt → t ≡ false
throw_if-ok true e h = cc
throw_if-ok false e h = refl

pub not-false : (b : Bool) → not b ≡ false → b ≡ true
not-false true h = refl
not-false false h = cc

pub same_text_of : (a b : Str) → not (a == b) ≡ false → a ≡ b
same_text_of a b h = (str_beq_iff a b).0 (not-false _ h)

pub bind_unit {ℓ κ} :
    {A : Type ℓ} {G : Type κ} (m : Result (Unit {0})) (k : Result A) {a : A}
    → (m >> k) ≡ ok a
    → (m ≡ ok tt → k ≡ ok a → G)
    → G
bind_unit (ok u) k h next = next refl h
bind_unit (err e) k h next = cc
