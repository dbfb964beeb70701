-- ===== src/Range/Tests.antt =====
-- Concrete headers.
use prime_server.Base.{
  ℕ, some, List, [], ◌∷◌, ◌≡◌, ◌≢◌, ◌⊎◌, ◌≤◌, ◌<◌, ◌+◌, ◌-◌, refl, arith, lit, length, decimal,
  starts_with, span_digits, digits_value,
}
use prime_server.Range.{
  whole, invalid, range, parse_range, provider_parse_range, match_range, slice,
}
use prime_server.Range.Bounds.{parse_range_inside, parse_range-agree, length-slice_of_range}
use prime_server.Range.Forms.{
  header_of, parse_range-closed, parse_range-open, parse_range-suffix, parse_range-suffix_wrong,
}

abbrev content : List ℕ
content = 7 ∷ 8 ∷ 9 ∷ 10 ∷ []

first_two : parse_range (some (lit "bytes=0-1")) 4 ≡ range 0 1
unfolding parse_range match_range lit starts_with span_digits digits_value
first_two = refl

last_byte_refused : parse_range (some (lit "bytes=-1")) 4 ≡ invalid
unfolding parse_range match_range lit starts_with span_digits digits_value
last_byte_refused = refl

first_two_inside : (0 ≤ 1) × (1 < 4)
first_two_inside = parse_range_inside (some (lit "bytes=0-1")) 4 0 1 first_two

both_parsers :
    (parse_range (some (lit "bytes=0")) 4 ≡ provider_parse_range (some (lit "bytes=0")) 4)
    ⊎ ((parse_range (some (lit "bytes=0")) 4 ≡ invalid)
        × (provider_parse_range (some (lit "bytes=0")) 4 ≡ whole))
both_parsers = parse_range-agree (some (lit "bytes=0")) 4

two_are_served : length (slice content 0 1) + 0 ≡ 1 + 1
two_are_served = length-slice_of_range (some (lit "bytes=0-1")) content 0 1 first_two

closed_range : parse_range (header_of (decimal 1) (decimal 12)) 4 ≡ range 1 3
closed_range = parse_range-closed 1 12 4

from_the_second : parse_range (header_of (decimal 1) []) 4 ≡ range 1 3
from_the_second = parse_range-open 1 4 (omega arith)

last_two : parse_range (header_of [] (decimal 2)) 4 ≡ range 2 2
last_two = parse_range-suffix 2 4 (omega arith) (omega arith)

parse_range-suffix_wrong_example : parse_range (header_of [] (decimal 1)) 4 ≢ range (4 - 1) (4 - 1)
parse_range-suffix_wrong_example =
    parse_range-suffix_wrong 1 4 (omega arith) (omega arith) (omega arith)
