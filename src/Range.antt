-- ===== src/Range.antt =====
-- The `Range` header: `parseRange` of rpc/src/server.mjs and of provider/src/server.mjs, and the
-- slice of the content that is served. Sizes are natural numbers; where the source computes
-- `size - 1` for an empty content, the test `start >= size` refuses the range in either reading.
pub mod Bounds
pub mod Forms
mod Tests
use prime_server.Base.{
  ℕ, ◌+◌, ◌-◌, min, Str, Bool, not, ◌&&◌, ◌||◌, Option, none, some, List, [], ◌∷◌, lit, is_empty,
  starts_with, span_digits, digits_value, is_safe, ltb, leb, ◌==◌, nat_eq, take, drop,
  if◌then◌else◌,
}

pub data Range : Type 0 where
  whole : Range  -- `null`: no range is asked for
  invalid : Range
  range : ℕ → ℕ → Range  -- from the first to the last byte

-- `s.match(/^bytes=(\d*)-(\d*)$/)`: the two runs of digits.
abbrev pub match_end : Str → Str × Str → Option (Str × Str)
match_end first (last, []) = some (first, last)
match_end first (last, _ ∷ _) = none

abbrev pub match_dash : Str × Str → Option (Str × Str)
match_dash (first, []) = none
match_dash (first, c ∷ s) = if c == b'-' then match_end first (span_digits s) else none

unfoldable pub match_range : Str → Option (Str × Str)
match_range s = if starts_with s (lit "bytes=") then match_dash (span_digits (drop 6 s)) else none

-- `match[1] ? Number(match[1]) : Math.max(size - Number(match[2]), 0)`.
abbrev pub start_of : Str → Str → ℕ → ℕ
start_of first last size =
    if is_empty first then size - digits_value 0 last else digits_value 0 first

-- `match[2] ? Number(match[2]) : size - 1`.
abbrev pub end_of : Str → ℕ → ℕ
end_of last size = if is_empty last then size - 1 else digits_value 0 last

abbrev pub bounded : ℕ → ℕ → ℕ → Range
bounded start requested size =
    if not (is_safe start) || not (is_safe requested) || ltb requested start || leb size start
    then invalid
    else range start (min requested (size - 1))

-- rpc/src/server.mjs; an absent header and an empty one are both `none` and `[]`.
unfoldable pub parse_range : Option Str → ℕ → Range
parse_range none size = whole
parse_range (some header) size = if is_empty header then whole else elim (match_range header) [
  | none ↦ invalid
  | some (first, last) ↦
      if is_empty first && is_empty last
      then invalid
      else bounded (start_of first last size) (end_of last size) size
]

-- provider/src/server.mjs: a header of another form is ignored.
unfoldable pub provider_parse_range : Option Str → ℕ → Range
provider_parse_range none size = whole
provider_parse_range (some header) size =
    if is_empty header then whole else elim (match_range header) [
      | none ↦ whole
      | some (first, last) ↦
          if is_empty first && is_empty last
          then whole
          else bounded (start_of first last size) (end_of last size) size
    ]

-- `bytes.subarray(start, end + 1)`.
abbrev pub slice : List ℕ → ℕ → ℕ → List ℕ
slice bytes start last = take (last + 1 - start) (drop start bytes)
