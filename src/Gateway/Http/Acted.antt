-- ===== src/Gateway/Http/Acted.antt =====
-- Which content a response shows, followed through actions.
use prime_server.Base.{◌≡◌, refl, Bool, true, false, if◌then◌else◌, Result, ok, err}
use prime_server.Base.Action.{Action, pure, lift, and_then, ◌>>=◌}
use prime_server.Erasure.{Bytes}
use prime_server.Gateway.Site.{Response}
use prime_server.Gateway.Http.Shown.{Shows, Returns, ok-Returns, err-Returns}

module _ {P : Bytes → Type 0} {S A : Type 0} where
  and_then-Returns :
      (x : S × Result A) (f : A → Action S Response)
      → ((s : S) (a : A) → x ≡ (s, ok a) → Returns P (f a s).1)
      → Returns P (and_then x f).1
  and_then-Returns (s, ok a) f next = next s a refl
  and_then-Returns (s, err e) f next = err-Returns e

  pub action-Returns :
      (m : Action S A) (f : A → Action S Response) (s0 : S)
      → ((s : S) (a : A) → m s0 ≡ (s, ok a) → Returns P (f a s).1)
      → Returns P ((m >>= f) s0).1
  unfolding ◌>>=◌
  action-Returns m f s0 next = and_then-Returns (m s0) f next

module _ {P : Bytes → Type 0} {S : Type 0} where
  pub pure-Returns : (r : Response) (s : S) → Shows P r → Returns P (pure r s).1
  unfolding pure
  pure-Returns r s shows = ok-Returns r shows

  pub if-Returns_when :
      (t : Bool) (a b : S × Result Response)
      → (t ≡ true → Returns P a.1)
      → Returns P b.1
      → Returns P (if t then a else b).1
  if-Returns_when true a b on_true on_false = on_true refl
  if-Returns_when false a b on_true on_false = on_false

  pub if-Returns_at :
      (t : Bool) (a b : S × Result Response)
      → Returns P a.1
      → Returns P b.1
      → Returns P (if t then a else b).1
  if-Returns_at t a b on_true on_false = if-Returns_when t a b (λ _. on_true) on_false

-- What is lifted leaves the state as it is.
module _ {P : Bytes → Type 0} {S A : Type 0} where
  pub lifted-Returns :
      (x : Result A) (f : A → Action S Response) (s : S)
      → ((a : A) → x ≡ ok a → Returns P (f a s).1)
      → Returns P ((lift x >>= f) s).1
  unfolding ◌>>=◌ lift
  lifted-Returns (ok a) f s next = next a refl
  lifted-Returns (err e) f s next = err-Returns e
