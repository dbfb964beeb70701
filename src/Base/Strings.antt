-- ===== src/Base/Strings.antt =====
-- Strings: what the program calls of `String.prototype`, over lists of UTF-16 code units. Case is
-- mapped for ASCII letters only: what the program lowers is hexadecimal text, addresses and names
-- of enumerations.
use Prim.Native.Nat.{ℕ, ◌+◌, ◌-◌, ◌*◌, ◌/◌, ◌%◌}
use Prim.Native.Char.{code}
use Prim.Native.String.{String}
use mathlib.Core.Path.{◌≡◌, refl}
use mathlib.Core.Bool.{Bool, true, false, ◌&&◌, ◌||◌}
use mathlib.Core.Option.{Option, none, some}
use mathlib.Core.List.{List, [], ◌∷◌}
use native.Mathlib.Omega.{arith}
use prime_server.Base.Tests.{ltb, leb, eqb, if◌then◌else◌, nat_eq}

abbrev pub Str : Type 0
Str = List ℕ

-- A literal of the source (ASCII, so its code points are its code units).
unfoldable pub lit : String → Str
lit String.[] = []
lit (String.◌∷◌ c s) = code c ∷ lit s

-- `s === ""`, which is also `!s`.
abbrev pub is_empty {ℓ} : {A : Type ℓ} → List A → Bool
is_empty [] = true
is_empty (_ ∷ _) = false

unfoldable pub lower_unit : ℕ → ℕ
lower_unit c = if leb 65 c && leb c 90 then c + 32 else c

-- `toLowerCase`.
unfoldable pub to_lower : Str → Str
unfolding lower_unit
to_lower [] = []
to_lower (c ∷ s) = lower_unit c ∷ to_lower s

lower_unit_idem : (c : ℕ) → lower_unit (lower_unit c) ≡ lower_unit c
unfolding lower_unit
lower_unit_idem c = ground arith

pub to_lower_idem : (s : Str) → to_lower (to_lower s) ≡ to_lower s
unfolding to_lower
to_lower_idem [] = refl
to_lower_idem (c ∷ s) = cc (lower_unit_idem c, to_lower_idem s)

-- `s.startsWith(p)`.
unfoldable pub starts_with : Str → Str → Bool
starts_with s [] = true
starts_with [] (p ∷ ps) = false
starts_with (c ∷ s) (p ∷ ps) = eqb c p && starts_with s ps

-- `s.endsWith(c)` for a text of one unit.
unfoldable pub ends_with_unit : Str → ℕ → Bool
ends_with_unit [] p = false
ends_with_unit (c ∷ []) p = eqb c p
ends_with_unit (c ∷ d ∷ s) p = ends_with_unit (d ∷ s) p

-- `s.includes(c)` for a text of one unit.
unfoldable pub includes_unit : Str → ℕ → Bool
includes_unit [] p = false
includes_unit (c ∷ s) p = eqb c p || includes_unit s p

-- `s.includes(t)`, as in the regular expressions `/t/` with no special characters.
unfoldable pub includes : Str → Str → Bool
unfolding starts_with
includes [] t = is_empty t
includes (c ∷ s) t = starts_with (c ∷ s) t || includes s t

-- `s.replace(/^0x/, "")`.
unfoldable pub strip_0x : Str → Str
strip_0x (a ∷ b ∷ s) = if eqb a b'0' && eqb b b'x' then s else a ∷ b ∷ s
strip_0x s = s

-- `Buffer.byteLength(s, "utf8")`: a pair of surrogates takes four bytes, a lone one three.
unfoldable pub byte_length : Str → ℕ
byte_length [] = 0
byte_length (c ∷ []) = if ltb c 0x80 then 1 else if ltb c 0x800 then 2 else 3
byte_length (c ∷ d ∷ s) =
    let pair = 4 + byte_length s in
    let one = (if ltb c 0x80 then 1 else if ltb c 0x800 then 2 else 3) + byte_length (d ∷ s) in
    if leb 0xd800 c && ltb c 0xdc00 && (leb 0xdc00 d && ltb d 0xe000) then pair else one

unfoldable pub is_hex_digit : ℕ → Bool
is_hex_digit c = leb b'0' c && leb c b'9' || (leb b'a' c && leb c b'f' || leb b'A' c && leb c b'F')

-- The order `<` of strings, unit by unit.
unfoldable pub str_ltb : Str → Str → Bool
str_ltb [] [] = false
str_ltb [] (d ∷ t) = true
str_ltb (c ∷ s) [] = false
str_ltb (c ∷ s) (d ∷ t) = ltb c d || eqb c d && str_ltb s t

-- `Buffer.from(bytes).toString("hex")`, and `Buffer.from(s, "hex")`, which stops at what is not a
-- pair of digits.
abbrev pub digit_of_hex : ℕ → ℕ
digit_of_hex v = if ltb v 10 then b'0' + v else b'a' + (v - 10)

unfoldable pub hex : List ℕ → Str
hex [] = []
hex (b ∷ bs) = digit_of_hex (b / 16 % 16) ∷ digit_of_hex (b % 16) ∷ hex bs

abbrev pub hex_value : ℕ → ℕ
hex_value c =
    if leb b'0' c && leb c b'9'
    then c - b'0'
    else if leb b'a' c
    then c - b'a' + 10
    else c - b'A' + 10

unfoldable pub from_hex : Str → List ℕ
from_hex [] = []
from_hex (a ∷ []) = []
from_hex (a ∷ b ∷ s) =
    let rest = from_hex s in
    if is_hex_digit a && is_hex_digit b then (hex_value a * 16 + hex_value b) ∷ rest else []

-- What stands before the first slash, and what stands behind it, if there is one.
abbrev pub split_slash : Str → Str × Option Str
split_slash [] = ([], none)
split_slash (c ∷ s) =
    let (before, after) = split_slash s in if eqb c b'/' then ([], some s) else (c ∷ before, after)
