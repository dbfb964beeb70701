-- ===== src/Gateway/Http/Shown.antt =====
-- Which content a response shows, followed through the results and actions that make it.
use prime_server.Base.{
  ℕ, ◌≤◌, ◌<◌, Str, Bool, true, false, ◌≡◌, refl, Option, none, some, if◌then◌else◌, length, Error,
  plain, gateway, unauthenticated, Result, ok, err, ◌>>=◌, ◌>>◌, throw_if, require, ok-inj, subst,
}
use prime_server.Erasure.{Bytes}
use prime_server.Range.{Range, whole, invalid, range, parse_range, slice}
use prime_server.Range.Bounds.{parse_range_inside}
use prime_server.Gateway.{Headers}
use prime_server.Gateway.Site.{content, Response}
use prime_server.Gateway.Http.{answer_range, serve_range, error_response}

-- All of the bytes, or those from a first to a last one.
pub data IsPart (all : Bytes) : Bytes → Type 0 where
  entire : IsPart all all
  between : (start last : ℕ) → start ≤ last → last < length all → IsPart all (slice all start last)

pub content-inj : {a b : Bytes} → content a ≡ content b → a ≡ b
content-inj h = cc

-- A content that the response shows satisfies `P`; and so for what a result returns.
pub record Shows (P : Bytes → Type 0) (r : Response) : Type 0 where
  pub shown : (bytes : Bytes) → r.body ≡ content bytes → P bytes

pub record Returns (P : Bytes → Type 0) (x : Result Response) : Type 0 where
  pub returned : (r : Response) → x ≡ ok r → Shows P r

module _ {P : Bytes → Type 0} where
  pub err-Returns : (e : Error) → Returns P (err e)
  err-Returns e = record { returned = λ r h. cc }

  pub ok-Returns : (r : Response) → Shows P r → Returns P (ok r)
  ok-Returns r shows = record { returned = λ r' h. subst (λ q. Shows P q) (ok-inj h) shows }

  pub throw_if-Returns :
      (t : Bool) (e : Error) (k : Result Response)
      → (t ≡ false → Returns P k)
      → Returns P (throw_if t e >> k)
  throw_if-Returns true e k next = err-Returns e
  throw_if-Returns false e k next = next refl

  pub if-Returns :
      (t : Bool) (a b : Result Response)
      → (t ≡ true → Returns P a)
      → (t ≡ false → Returns P b)
      → Returns P (if t then a else b)
  if-Returns true a b on_true on_false = on_true refl
  if-Returns false a b on_true on_false = on_false refl

  pub unit-Returns :
      (m : Result (Unit {0})) (k : Result Response) → (m ≡ ok tt → Returns P k) → Returns P (m >> k)
  unit-Returns (ok tt) k next = next refl
  unit-Returns (err e) k next = err-Returns e

  pub error_response-Shows : (e : Error) → Shows P (error_response e)
  unfolding error_response
  error_response-Shows (plain m) = record { shown = λ bytes h. cc }
  error_response-Shows (gateway s m) = record { shown = λ bytes h. cc }
  error_response-Shows (unauthenticated m) = record { shown = λ bytes h. cc }

pub weaken-Shows :
    {P Q : Bytes → Type 0} {r : Response}
    → ((bytes : Bytes) → P bytes → Q bytes)
    → Shows P r
    → Shows Q r
weaken-Shows f given = record { shown = λ bytes h. f bytes (given.shown bytes h) }

pub weaken-Returns :
    {P Q : Bytes → Type 0} {x : Result Response}
    → ((bytes : Bytes) → P bytes → Q bytes)
    → Returns P x
    → Returns Q x
weaken-Returns f given = record { returned = λ r h. weaken-Shows f (given.returned r h) }

module _ {P : Bytes → Type 0} {A : Type 0} where
  pub require-Returns :
      (o : Option A) (e : Error) (f : A → Result Response)
      → ((a : A) → o ≡ some a → Returns P (f a))
      → Returns P (require o e >>= f)
  require-Returns none e f next = err-Returns e
  require-Returns (some a) e f next = next a refl

  pub bind-Returns :
      (m : Result A) (f : A → Result Response)
      → ((a : A) → m ≡ ok a → Returns P (f a))
      → Returns P (m >>= f)
  bind-Returns (ok a) f next = next a refl
  bind-Returns (err e) f next = err-Returns e

module _ {P : Bytes → Type 0} where
  answer_range-Shows :
      (r : Range) (all : Bytes) (headers : Headers)
      → ((start last : ℕ) → r ≡ range start last → (start ≤ last) × (last < length all))
      → ((bytes : Bytes) → IsPart all bytes → P bytes)
      → Shows P (answer_range r all headers)
  answer_range-Shows invalid all headers inside part = record { shown = λ bytes h. cc }
  answer_range-Shows whole all headers inside part = record {
    shown = λ bytes h. subst P (content-inj h) (part all entire);
  }
  answer_range-Shows (range start last) all headers inside part =
      let (ordered, bounded) = inside start last refl in
      record {
        shown = λ bytes h. subst P (content-inj h) (part _ (between start last ordered bounded));
      }

  pub serve_range-Shows :
      (header : Option Str) (all : Bytes) (headers : Headers)
      → ((bytes : Bytes) → IsPart all bytes → P bytes)
      → Shows P (serve_range header all headers)
  unfolding serve_range
  serve_range-Shows header all headers part =
      answer_range-Shows (parse_range header (length all)) all headers
        (parse_range_inside header (length all)) part
