-- ===== src/Range/Forms.antt =====
-- What each form of the header asks for: a range from one byte to another, an open range, and a
-- suffix, whose number the parser reads as the last byte.
use prime_server.Base.{
  ℕ, ◌+◌, ◌-◌, ◌≤◌, ◌<◌, min, Str, false, Option, some, [], ◌∷◌, ◌++◌, ◌≡◌, ◌≢◌, refl, subst, ◌&&◌,
  ◌^◌, ◌∙◌, arith, lit, is_empty, starts_with, decimal, decimal-cons, decimal-AllDigits,
  digits_value-decimal, span_digits, span_digits-append, is_safe, ltb, leb, if◌then◌else◌,
}
use mathlib.Core.List.{append-nil}
use prime_server.Range.{Range, invalid, range, bounded, start_of, end_of, match_range, parse_range}

-- `bytes=first-last`.
abbrev pub header_of : Str → Str → Option Str
header_of first last = some (lit "bytes=" ++ (first ++ (b'-' ∷ last)))

span_digits-dash : (s : Str) → span_digits (b'-' ∷ s) ≡ ([], b'-' ∷ s)
unfolding span_digits
span_digits-dash s = refl

span_digits-nil : span_digits [] ≡ ([], [])
unfolding span_digits
span_digits-nil = refl

match_range-header :
    (first last : Str)
    → (span_digits (first ++ (b'-' ∷ last)) ≡ (first, b'-' ∷ last))
    → (span_digits last ≡ (last, []))
    → match_range (lit "bytes=" ++ (first ++ (b'-' ∷ last))) ≡ some (first, last)
unfolding match_range lit starts_with
match_range-header first last f l = rw f (rw l refl)

is_empty-decimal : (n : ℕ) → is_empty (decimal n) ≡ false
is_empty-decimal n = let (d, s, e) = decimal-cons n in rw e

-- The last digits of a header, which nothing follows.
last_digits : (n : ℕ) → span_digits (decimal n) ≡ (decimal n, [])
last_digits n =
    subst (λ s. span_digits s ≡ (decimal n, [])) (append-nil (decimal n))
      (span_digits-append (decimal n) [] (decimal-AllDigits n) span_digits-nil)

first_digits : (n : ℕ) (s : Str) → span_digits (decimal n ++ (b'-' ∷ s)) ≡ (decimal n, b'-' ∷ s)
first_digits n s =
    span_digits-append (decimal n) (b'-' ∷ s) (decimal-AllDigits n) (span_digits-dash s)

-- What the parser makes of the two runs of digits.
read_runs : Str → Str → ℕ → Range
read_runs first last size =
    if is_empty first && is_empty last
    then invalid
    else bounded (start_of first last size) (end_of last size) size

parse_range-runs :
    (header first last : Str) (size : ℕ)
    → is_empty header ≡ false
    → match_range header ≡ some (first, last)
    → parse_range (some header) size ≡ read_runs first last size
unfolding parse_range read_runs
parse_range-runs header first last size given matched = rw given (rw (matched, parse_range) refl)

parse_range-header :
    (first last : Str) (size : ℕ)
    → span_digits (first ++ (b'-' ∷ last)) ≡ (first, b'-' ∷ last)
    → span_digits last ≡ (last, [])
    → parse_range (header_of first last) size ≡ read_runs first last size
parse_range-header first last size f l =
    parse_range-runs _ first last size (unfold lit in refl) (match_range-header first last f l)

-- A range from byte `a` to byte `b` is accepted exactly when `a ≤ b`, `a` lies inside the content and
-- both numbers are safe integers; it is cut at the last byte of the content.
pub parse_range-closed :
    (a b size : ℕ)
    → parse_range (header_of (decimal a) (decimal b)) size ≡ (
        if is_safe a && is_safe b && (leb a b && ltb a size)
        then range a (min b (size - 1))
        else invalid)
unfolding read_runs
parse_range-closed a b size =
    parse_range-header (decimal a) (decimal b) size (first_digits a (decimal b)) (last_digits b)
    ∙ ground (
      arith,
      is_empty-decimal a,
      is_empty-decimal b,
      digits_value-decimal a,
      digits_value-decimal b,
    )

-- A range that is open at its end runs to the last byte of a content of at most 2^53 bytes, if its
-- start is inside the content, and is refused otherwise.
pub parse_range-open :
    (a size : ℕ)
    → size ≤ 2 ^ 53
    → parse_range (header_of (decimal a) []) size
      ≡ (if ltb a size then range a (size - 1) else invalid)
unfolding read_runs
parse_range-open a size small =
    parse_range-header (decimal a) [] size (first_digits a []) span_digits-nil
    ∙ ground (arith, is_empty-decimal a, digits_value-decimal a)

-- A suffix range `bytes=-n` should be the last `n` bytes. The parser reads `n` as the last byte too:
-- the range is refused where `n < size - n`, and else ends at byte `n` where it should end at the
-- last byte.
pub parse_range-suffix :
    (n size : ℕ)
    → size ≤ 2 ^ 53
    → n < 2 ^ 53
    → parse_range (header_of [] (decimal n)) size ≡ (
        if leb (size - n) n && ltb (size - n) size
        then range (size - n) (min n (size - 1))
        else invalid)
unfolding read_runs
parse_range-suffix n size small safe =
    parse_range-header [] (decimal n) size (span_digits-dash (decimal n)) (last_digits n)
    ∙ ground (arith, is_empty-decimal n, digits_value-decimal n)

-- Of a content of at most 2^53 bytes, the last `n` bytes are not served for any `n` from 1 to
-- `size - 2`.
pub parse_range-suffix_wrong :
    (n size : ℕ)
    → size ≤ 2 ^ 53
    → 0 < n
    → n + 1 < size
    → parse_range (header_of [] (decimal n)) size ≢ range (size - n) (size - 1)
parse_range-suffix_wrong n size small some_bytes inside e =
    ground (arith, parse_range-suffix n size)
