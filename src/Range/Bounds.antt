-- ===== src/Range/Bounds.antt =====
-- An accepted range lies inside the content, and the slice served has the length that the headers
-- state.
use prime_server.Base.{
  ℕ, ◌+◌, ◌-◌, ◌≤◌, ◌<◌, Str, Option, none, some, List, ◌≡◌, ◌⊎◌, arith, length, drop, length-take,
  length-drop,
}
use prime_server.Range.{whole, invalid, range, bounded, parse_range, provider_parse_range, slice}

pub bounded_inside :
    (start requested size s e : ℕ) → bounded start requested size ≡ range s e → (s ≤ e) × (e < size)
bounded_inside start requested size s e h = ground arith

-- A range that `parseRange` of the gateway accepts starts no later than it ends, and ends inside the
-- content.
pub parse_range_inside :
    (header : Option Str) (size s e : ℕ)
    → parse_range header size ≡ range s e
    → (s ≤ e) × (e < size)
unfolding parse_range
parse_range_inside none size s e h = cc
parse_range_inside (some header) size s e h = ground arith

-- The two parsers agree, but that the provider ignores a header that the gateway refuses: where they
-- differ, the gateway says that the range is invalid and the provider serves the whole content.
pub parse_range-agree :
    (header : Option Str) (size : ℕ)
    → (parse_range header size ≡ provider_parse_range header size)
      ⊎ ((parse_range header size ≡ invalid) × (provider_parse_range header size ≡ whole))
unfolding parse_range provider_parse_range
parse_range-agree header size = ground arith

-- The slice of an accepted range has `e - s + 1` bytes, the number in `content-length`.
pub length-slice_of_range :
    (header : Option Str) (bytes : List ℕ) (s e : ℕ)
    → parse_range header (length bytes) ≡ range s e
    → length (slice bytes s e) + s ≡ e + 1
length-slice_of_range header bytes s e h =
    let inside = parse_range_inside header (length bytes) s e h in
    omega (arith, length-take (e + 1 - s) (drop s bytes), length-drop s bytes)
