-- ===== src/Base/Uri/Bytes.antt =====
-- The escaped bytes of a character are decoded to the character.
use Prim.Native.Nat.{ℕ, suc, ◌+◌, ◌-◌, ◌*◌, ◌/◌, ◌%◌, ◌<◌, ◌≤◌}
use mathlib.Core.Path.{◌≡◌, refl, ap, ◌∙◌}
use mathlib.Core.Logic.{◌⊎◌, inl, inr}
use mathlib.Core.Bool.{true, false, ◌&&◌, ◌||◌}
use mathlib.Core.Option.{Option, none, some}
use mathlib.Core.List.{[], ◌∷◌}
use native.Mathlib.Omega.{arith}
use prime_server.Base.Tests.{ltb, leb, Bool-cases}
use prime_server.Base.Strings.{Str, is_hex_digit, hex_value}
use prime_server.Base.Uri.{
  Mode, between, expects, escaped, halfway, utf16, complete, leading, following, octet, step,
  prepend, decode_from, upper_digit, percent, escape,
}

abbrev pub go_on : Option (Mode × Str) → Str → Option Str
go_on none rest = none
go_on (some (m, out)) rest = prepend out (decode_from m rest)

digit-back :
    (v : ℕ) → v < 16 → (is_hex_digit (upper_digit v) ≡ true) × (hex_value (upper_digit v) ≡ v)
unfolding is_hex_digit
digit-back v h = (ground arith, ground arith)

prepend_nothing : (o : Option Str) → prepend [] o ≡ o
prepend_nothing none = refl
prepend_nothing (some s) = refl

go_on_silently : (m : Mode) (rest : Str) → go_on (some (m, [])) rest ≡ decode_from m rest
go_on_silently m rest = prepend_nothing (decode_from m rest)

elim-go_on :
    (o : Option (Mode × Str)) (rest : Str)
    → (elim o [ none ↦ none | some (m, out) ↦ prepend out (decode_from m rest) ]) ≡ go_on o rest
elim-go_on none rest = refl
elim-go_on (some (m, out)) rest = refl

-- One unit at a time.
pub decode_cons : (m : Mode) (c : ℕ) (rest : Str) → decode_from m (c ∷ rest) ≡ go_on (step m c) rest
unfolding decode_from
decode_cons between c rest = elim-go_on (step between c) rest
decode_cons (expects n v least) c rest = elim-go_on (step (expects n v least) c) rest
decode_cons (escaped n v least) c rest = elim-go_on (step (escaped n v least) c) rest
decode_cons (halfway n v least h) c rest = elim-go_on (step (halfway n v least h) c) rest

-- A unit that writes nothing.
decode_silently :
    (m m' : Mode) (c : ℕ) (rest : Str)
    → step m c ≡ some (m', [])
    → decode_from m (c ∷ rest) ≡ decode_from m' rest
decode_silently m m' c rest e =
    decode_cons m c rest ∙ ap (λ o. go_on o rest) e ∙ go_on_silently m' rest

first_digit :
    (n v least x : ℕ)
    → is_hex_digit x ≡ true
    → step (escaped n v least) x ≡ some (halfway n v least (hex_value x), [])
unfolding step
first_digit n v least x h = rw h refl

second_digit :
    (n v least h y : ℕ)
    → is_hex_digit y ≡ true
    → step (halfway n v least h) y ≡ octet n v least (h * 16 + hex_value y)
unfolding step
second_digit n v least h y e = rw e refl

decode_digits :
    (n v least x y : ℕ) (rest : Str)
    → is_hex_digit x ≡ true
    → is_hex_digit y ≡ true
    → decode_from (escaped n v least) (x ∷ y ∷ rest)
      ≡ go_on (octet n v least (hex_value x * 16 + hex_value y)) rest
decode_digits n v least x y rest hx hy =
    decode_silently (escaped n v least) _ x (y ∷ rest) (first_digit n v least x hx)
    ∙ decode_cons (halfway n v least (hex_value x)) y rest
    ∙ ap (λ o. go_on o rest) (second_digit n v least (hex_value x) y hy)

-- The digits of a byte.
digits-octet :
    (n v least b : ℕ) (rest : Str)
    → b < 256
    → decode_from (escaped n v least) (upper_digit (b / 16) ∷ upper_digit (b % 16) ∷ rest)
      ≡ go_on (octet n v least b) rest
digits-octet n v least b rest h =
    let (high, high_value) = digit-back (b / 16) (omega arith) in
    let (low, low_value) = digit-back (b % 16) (omega arith) in
    let whole : hex_value (upper_digit (b / 16)) * 16 + hex_value (upper_digit (b % 16)) ≡ b =
      ap (λ x. x * 16 + hex_value (upper_digit (b % 16))) high_value
      ∙ ap (λ x. b / 16 * 16 + x) low_value
      ∙ omega arith in
    decode_digits n v least (upper_digit (b / 16)) (upper_digit (b % 16)) rest high low
    ∙ ap (λ x. go_on (octet n v least x) rest) whole

first-percent :
    (b : ℕ) (rest : Str) → b < 256 → decode_from between (percent b rest) ≡ go_on (leading b) rest
unfolding step
first-percent b rest h =
    decode_silently between (escaped 0 0 0) b'%' _ refl ∙ digits-octet 0 0 0 b rest h

next-octet :
    (n v least b : ℕ) → b < 64 → octet (suc n) v least (0x80 + b) ≡ following n (v * 64 + b) least
next-octet n v least b h =
    let inside : (leb 0x80 (0x80 + b) && ltb (0x80 + b) 0xc0) ≡ true = ground arith in
    let same : 0x80 + b - 0x80 ≡ b = omega arith in
    rw inside (ap (λ x. following n (v * 64 + x) least) same)

-- A byte that is not the first of a character.
next-percent :
    (n v least b : ℕ) (rest : Str)
    → b < 64
    → decode_from (expects (suc n) v least) (percent (0x80 + b) rest)
      ≡ go_on (following n (v * 64 + b) least) rest
unfolding step
next-percent n v least b rest h =
    decode_silently (expects (suc n) v least) (escaped (suc n) v least) b'%' _ refl
    ∙ digits-octet (suc n) v least (0x80 + b) rest (omega arith)
    ∙ ap (λ o. go_on o rest) (next-octet n v least b h)

middle-percent :
    (n v least b : ℕ) (rest : Str)
    → b < 64
    → decode_from (expects (suc (suc n)) v least) (percent (0x80 + b) rest)
      ≡ decode_from (expects (suc n) (v * 64 + b) least) rest
middle-percent n v least b rest h =
    next-percent (suc n) v least b rest h ∙ go_on_silently (expects (suc n) (v * 64 + b) least) rest

abbrev pub IsScalar : ℕ → Type 0
IsScalar v = (v < 0xd800) ⊎ ((0xe000 ≤ v) × (v < 0x110000))

complete_whole : (v least : ℕ) → IsScalar v → least ≤ v → complete v least ≡ some (between, utf16 v)
complete_whole v least scalar h =
    let fits : (ltb v least || leb 0xd800 v && ltb v 0xe000 || ltb 0x10ffff v) ≡ false =
      ground arith in
    rw fits refl

last-percent :
    (v w least b : ℕ) (rest : Str)
    → b < 64
    → v * 64 + b ≡ w
    → IsScalar w
    → least ≤ w
    → decode_from (expects 1 v least) (percent (0x80 + b) rest)
      ≡ prepend (utf16 w) (decode_from between rest)
last-percent v w least b rest h same scalar bounded =
    next-percent 0 v least b rest h
    ∙ ap (λ x. go_on (complete x least) rest) same
    ∙ ap (λ o. go_on o rest) (complete_whole w least scalar bounded)

-- The first byte of a character of two, three or four.
lead-two :
    (x : ℕ) (rest : Str)
    → x < 32
    → decode_from between (percent (0xc0 + x) rest) ≡ decode_from (expects 1 x 0x80) rest
lead-two x rest h =
    let starts : leading (0xc0 + x) ≡ some (expects 1 x 0x80, []) = leading_two x h in
    first-percent (0xc0 + x) rest (omega arith)
    ∙ ap (λ o. go_on o rest) starts
    ∙ go_on_silently (expects 1 x 0x80) rest
  where
    leading_two : (x : ℕ) → x < 32 → leading (0xc0 + x) ≡ some (expects 1 x 0x80, [])
    leading_two x h = ground arith

lead-three :
    (x : ℕ) (rest : Str)
    → x < 16
    → decode_from between (percent (0xe0 + x) rest) ≡ decode_from (expects 2 x 0x800) rest
lead-three x rest h =
    let starts : leading (0xe0 + x) ≡ some (expects 2 x 0x800, []) = ground arith in
    first-percent (0xe0 + x) rest (omega arith)
    ∙ ap (λ o. go_on o rest) starts
    ∙ go_on_silently (expects 2 x 0x800) rest

lead-four :
    (x : ℕ) (rest : Str)
    → x < 8
    → decode_from between (percent (0xf0 + x) rest) ≡ decode_from (expects 3 x 0x10000) rest
lead-four x rest h =
    let starts : leading (0xf0 + x) ≡ some (expects 3 x 0x10000, []) = ground arith in
    first-percent (0xf0 + x) rest (omega arith)
    ∙ ap (λ o. go_on o rest) starts
    ∙ go_on_silently (expects 3 x 0x10000) rest

-- Escapes of two, three and four bytes.
two-decode :
    (v : ℕ) (rest : Str)
    → IsScalar v
    → 0x80 ≤ v
    → v < 0x800
    → decode_from between (percent (0xc0 + v / 64) (percent (0x80 + v % 64) rest))
      ≡ prepend (utf16 v) (decode_from between rest)
two-decode v rest scalar least most =
    lead-two (v / 64) _ (omega arith)
    ∙ last-percent (v / 64) v 0x80 (v % 64) rest (omega arith) (omega arith) scalar least

three-decode :
    (v : ℕ) (rest : Str)
    → IsScalar v
    → 0x800 ≤ v
    → v < 0x10000
    → decode_from between
        (percent (0xe0 + v / 4096) (percent (0x80 + v / 64 % 64) (percent (0x80 + v % 64) rest)))
      ≡ prepend (utf16 v) (decode_from between rest)
three-decode v rest scalar least most =
    lead-three (v / 4096) _ (omega arith)
    ∙ middle-percent 0 (v / 4096) 0x800 (v / 64 % 64) _ (omega arith)
    ∙ last-percent (v / 4096 * 64 + v / 64 % 64) v 0x800 (v % 64) rest (omega arith) (omega arith)
        scalar least

four-decode :
    (v : ℕ) (rest : Str)
    → IsScalar v
    → 0x10000 ≤ v
    → v < 0x110000
    → decode_from between (
        percent (0xf0 + v / 262144) (
          percent
            (0x80 + v / 4096 % 64)
            (percent (0x80 + v / 64 % 64) (percent (0x80 + v % 64) rest))))
      ≡ prepend (utf16 v) (decode_from between rest)
four-decode v rest scalar least most =
    lead-four (v / 262144) _ (omega arith)
    ∙ middle-percent 1 (v / 262144) 0x10000 (v / 4096 % 64) _ (omega arith)
    ∙ middle-percent 0 (v / 262144 * 64 + v / 4096 % 64) 0x10000 (v / 64 % 64) _ (omega arith)
    ∙ last-percent ((v / 262144 * 64 + v / 4096 % 64) * 64 + v / 64 % 64) v 0x10000 (v % 64) rest
        (omega arith) (omega arith) scalar least

scalar_below : (v : ℕ) → IsScalar v → v < 0x110000
scalar_below v (inl h) = omega arith
scalar_below v (inr (h, k)) = k

pub escape-decode :
    (v : ℕ) (rest : Str)
    → IsScalar v
    → decode_from between (escape v rest) ≡ prepend (utf16 v) (decode_from between rest)
unfolding escape
escape-decode v rest scalar = elim (Bool-cases (ltb v 0x80)) [
  | inl a ↦
      let one : leading v ≡ some (between, utf16 v) = ground arith in
      let form : escape v rest ≡ percent v rest = rw a refl in
      ap (λ t. decode_from between t) form
      ∙ first-percent v rest (ground arith)
      ∙ ap (λ o. go_on o rest) one
  | inr a ↦ elim (Bool-cases (ltb v 0x800)) [
    | inl b ↦
        let form : escape v rest ≡ percent (0xc0 + v / 64) (percent (0x80 + v % 64) rest) =
          rw a (rw b refl) in
        ap (λ t. decode_from between t) form
        ∙ two-decode v rest scalar (ground arith) (ground arith)
    | inr b ↦ elim (Bool-cases (ltb v 0x10000)) [
      | inl c ↦
          let form : escape v rest
              ≡ percent (0xe0 + v / 4096)
                  (percent (0x80 + v / 64 % 64) (percent (0x80 + v % 64) rest)) =
            rw a (rw b (rw c refl)) in
          ap (λ t. decode_from between t) form
          ∙ three-decode v rest scalar (ground arith) (ground arith)
      | inr c ↦
          let form : escape v rest
              ≡ percent (0xf0 + v / 262144) (
                  percent (0x80 + v / 4096 % 64)
                    (percent (0x80 + v / 64 % 64) (percent (0x80 + v % 64) rest))) =
            rw a (rw b (rw c refl)) in
          ap (λ t. decode_from between t) form
          ∙ four-decode v rest scalar (ground arith) (scalar_below v scalar)
    ]
  ]
]
