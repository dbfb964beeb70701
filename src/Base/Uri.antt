-- ===== src/Base/Uri.antt =====
-- `encodeURIComponent` and `decodeURIComponent` over UTF-16 code units, the second as an automaton that
-- reads one unit at a time.
pub mod Bytes
pub mod Roundtrip
pub mod Slashless
use Prim.Native.Nat.{ℕ, zero, suc, ◌+◌, ◌-◌, ◌*◌, ◌/◌, ◌%◌}
use mathlib.Core.Bool.{Bool, ◌&&◌, ◌||◌}
use mathlib.Core.Option.{Option, none, some}
use mathlib.Core.List.{[], ◌∷◌, ◌++◌}
use prime_server.Base.Tests.{ltb, leb, eqb, if◌then◌else◌}
use prime_server.Base.Strings.{Str, is_hex_digit, hex_value}

-- Between characters; or inside one in UTF-8, with the number of its bytes that are still to come, its
-- value so far and the least value that its length allows: before a `%`, after it, and after a digit.
pub data Mode : Type 0 where
  between : Mode
  expects : ℕ → ℕ → ℕ → Mode
  escaped : ℕ → ℕ → ℕ → Mode
  halfway : ℕ → ℕ → ℕ → ℕ → Mode

abbrev pub utf16 : ℕ → Str
utf16 v =
    if ltb v 0x10000
    then v ∷ []
    else (0xd800 + (v - 0x10000) / 0x400) ∷ (0xdc00 + (v - 0x10000) % 0x400) ∷ []

abbrev pub complete : ℕ → ℕ → Option (Mode × Str)
complete v least =
    if ltb v least || leb 0xd800 v && ltb v 0xe000 || ltb 0x10ffff v
    then none
    else some (between, utf16 v)

-- The first byte of a character.
abbrev pub leading : ℕ → Option (Mode × Str)
leading b =
    if ltb b 0x80
    then some (between, b ∷ [])
    else if ltb b 0xc0
    then none
    else if ltb b 0xe0
    then some (expects 1 (b - 0xc0) 0x80, [])
    else if ltb b 0xf0
    then some (expects 2 (b - 0xe0) 0x800, [])
    else if ltb b 0xf8
    then some (expects 3 (b - 0xf0) 0x10000, [])
    else none

abbrev pub following : ℕ → ℕ → ℕ → Option (Mode × Str)
following zero v least = complete v least
following (suc n) v least = some (expects (suc n) v least, [])

abbrev pub octet : ℕ → ℕ → ℕ → ℕ → Option (Mode × Str)
octet zero v least b = leading b
octet (suc n) v least b =
    if leb 0x80 b && ltb b 0xc0 then following n (v * 64 + (b - 0x80)) least else none

unfoldable pub step : Mode → ℕ → Option (Mode × Str)
step between c = if eqb c b'%' then some (escaped 0 0 0, []) else some (between, c ∷ [])
step (expects n v least) c = if eqb c b'%' then some (escaped n v least, []) else none
step (escaped n v least) c =
    if is_hex_digit c then some (halfway n v least (hex_value c), []) else none
step (halfway n v least h) c =
    if is_hex_digit c then octet n v least (h * 16 + hex_value c) else none

abbrev pub prepend : Str → Option Str → Option Str
prepend out none = none
prepend out (some s) = some (out ++ s)

unfoldable pub decode_from : Mode → Str → Option Str
decode_from between [] = some []
decode_from (expects _ _ _) [] = none
decode_from (escaped _ _ _) [] = none
decode_from (halfway _ _ _ _) [] = none
decode_from m (c ∷ s) = elim (step m c) [
  | none ↦ none
  | some (m', out) ↦ prepend out (decode_from m' s)
]

-- The decoded text, or `none` where the call throws.
unfoldable pub decode_uri_component : Str → Option Str
decode_uri_component s = decode_from between s

-- The units that are written as they are: letters, digits and `- _ . ! ~ * ' ( )`.
abbrev pub is_unreserved : ℕ → Bool
is_unreserved c =
    leb b'A' c && leb c b'Z'
    || leb b'a' c && leb c b'z'
    || leb b'0' c && leb c b'9'
    || (eqb c b'-' || eqb c b'_' || eqb c b'.' || eqb c b'!' || eqb c b'~')
    || (leb 39 c && leb c 42)

abbrev pub upper_digit : ℕ → ℕ
upper_digit v = if ltb v 10 then b'0' + v else b'A' + (v - 10)

abbrev pub percent : ℕ → Str → Str
percent b rest = b'%' ∷ upper_digit (b / 16) ∷ upper_digit (b % 16) ∷ rest

-- A character as its bytes in UTF-8, each of them escaped.
unfoldable pub escape : ℕ → Str → Str
escape v rest =
    if ltb v 0x80
    then percent v rest
    else if ltb v 0x800
    then percent (0xc0 + v / 64) (percent (0x80 + v % 64) rest)
    else if ltb v 0x10000
    then percent (0xe0 + v / 4096) (percent (0x80 + v / 64 % 64) (percent (0x80 + v % 64) rest))
    else percent (0xf0 + v / 262144) (
        percent (0x80 + v / 4096 % 64)
          (percent (0x80 + v / 64 % 64) (percent (0x80 + v % 64) rest)))

abbrev pub is_high : ℕ → Bool
is_high c = leb 0xd800 c && ltb c 0xdc00

abbrev pub is_low : ℕ → Bool
is_low c = leb 0xdc00 c && ltb c 0xe000

abbrev pub join_pair : ℕ → ℕ → ℕ
join_pair high low = 0x10000 + (high - 0xd800) * 0x400 + (low - 0xdc00)

abbrev pub escaped_then : ℕ → Option Str → Option Str
escaped_then v none = none
escaped_then v (some rest) = some (escape v rest)

abbrev pub pending : ℕ → Option ℕ
pending c = if is_high c then some c else none

abbrev pub written : ℕ → Option Str → Option Str
written c none = none
written c (some rest) =
    if is_high c
    then some rest
    else if is_low c
    then none
    else if is_unreserved c
    then some (c ∷ rest)
    else some (escape c rest)

-- The encoded text, or `none` where the call throws, at a surrogate that has no partner. The first
-- argument is a high surrogate that was read.
unfoldable pub encode_from : Option ℕ → Str → Option Str
encode_from none [] = some []
encode_from (some high) [] = none
encode_from none (c ∷ s) = written c (encode_from (pending c) s)
encode_from (some high) (c ∷ s) =
    let rest = escaped_then (join_pair high c) (encode_from none s) in
    if is_low c then rest else none

unfoldable pub encode_uri_component : Str → Option Str
encode_uri_component s = encode_from none s
