-- ===== src/Base/Uri/Roundtrip.antt =====
-- What is encoded is decoded again.
use Prim.Native.Nat.{ℕ, ◌+◌, ◌-◌, ◌/◌, ◌%◌, ◌<◌}
use mathlib.Core.Path.{◌≡◌, refl, sym, ap, ◌∙◌}
use mathlib.Core.Logic.{inl, inr}
use mathlib.Core.Bool.{true, false}
use mathlib.Core.Option.{Option, none, some, some-injective}
use mathlib.Core.List.{[], ◌∷◌, ◌++◌}
use native.Mathlib.Omega.{arith}
use prime_server.Base.Tests.{ltb, eqb, Bool-cases}
use prime_server.Base.Lists.{All}
use prime_server.Base.Strings.{Str, includes_unit}
use prime_server.Base.Uri.{
  between, utf16, step, prepend, decode_from, decode_uri_component, is_unreserved, escape, is_high,
  is_low, join_pair, escaped_then, pending, written, encode_from, encode_uri_component,
}
use prime_server.Base.Uri.Bytes.{go_on, decode_cons, IsScalar, escape-decode}

abbrev units : Option ℕ → Str → Str
units none s = s
units (some high) s = high ∷ s

abbrev IsPending : Option ℕ → Type 0
IsPending none = Unit
IsPending (some high) = is_high high ≡ true

pending-IsPending : (c : ℕ) → IsPending (pending c)
pending-IsPending c = elim (Bool-cases (is_high c)) [ inl h ↦ rw h h | inr h ↦ rw h tt ]

itself-decode :
    (c : ℕ) (rest : Str)
    → is_unreserved c ≡ true
    → decode_from between (c ∷ rest) ≡ prepend (c ∷ []) (decode_from between rest)
unfolding step
itself-decode c rest h =
    let other : eqb c b'%' ≡ false = ground arith in
    let stays : step between c ≡ some (between, c ∷ []) = rw other refl in
    decode_cons between c rest ∙ ap (λ o. go_on o rest) stays

pair-utf16 :
    (high low : ℕ)
    → is_high high ≡ true
    → is_low low ≡ true
    → IsScalar (join_pair high low) × (utf16 (join_pair high low) ≡ high ∷ low ∷ [])
pair-utf16 high low h k =
    let wide : ltb (join_pair high low) 0x10000 ≡ false = ground arith in
    let first : 0xd800 + (join_pair high low - 0x10000) / 0x400 ≡ high = ground arith in
    let second : 0xdc00 + (join_pair high low - 0x10000) % 0x400 ≡ low = ground arith in
    (inr (ground arith, ground arith), rw wide (cc (first, second)))

unit-IsScalar : (c : ℕ) → c < 0x10000 → is_high c ≡ false → is_low c ≡ false → IsScalar c
unit-IsScalar c bound high low = elim (Bool-cases (ltb c 0xd800)) [
  | inl h ↦ inl (ground arith)
  | inr h ↦ inr (ground arith, ground arith)
]

unit-utf16 : (c : ℕ) → c < 0x10000 → utf16 c ≡ c ∷ []
unit-utf16 c bound = let small : ltb c 0x10000 ≡ true = ground arith in rw small refl

-- The unit before the rest of a text, of which the encoding is decoded.
written-decode :
    (c : ℕ) (s : Str) (r : Option Str) (t : Str)
    → c < 0x10000
    → ((rest : Str) → r ≡ some rest → decode_from between rest ≡ some (units (pending c) s))
    → written c r ≡ some t
    → decode_from between t ≡ some (c ∷ s)
written-decode c s none t bound ih h = cc
written-decode c s (some rest) t bound ih h = elim (Bool-cases (is_high c)) [
  | inl high ↦
      let same : rest ≡ t = some-injective _ _ (rw high at h) in
      let back : decode_from between rest ≡ some (c ∷ s) = rw high at ih rest refl in
      ap (λ x. decode_from between x) (sym same) ∙ back
  | inr high ↦
      let back : decode_from between rest ≡ some s = rw high at ih rest refl in
      elim (Bool-cases (is_low c)) [
        | inl low ↦ cc (rw low at (rw high at h))
        | inr low ↦ elim (Bool-cases (is_unreserved c)) [
          | inl plain ↦
              let same : c ∷ rest ≡ t =
                some-injective _ _ (rw plain at (rw low at (rw high at h))) in
              ap (λ x. decode_from between x) (sym same)
              ∙ itself-decode c rest plain
              ∙ ap (λ o. prepend (c ∷ []) o) back
          | inr special ↦
              let same : escape c rest ≡ t =
                some-injective _ _ (rw special at (rw low at (rw high at h))) in
              ap (λ x. decode_from between x) (sym same)
              ∙ escape-decode c rest (unit-IsScalar c bound high low)
              ∙ ap (λ o. prepend (utf16 c) o) back
              ∙ ap (λ u. some (u ++ s)) (unit-utf16 c bound)
        ]
      ]
]

pair-decode :
    (high low : ℕ) (s : Str) (r : Option Str) (t : Str)
    → is_high high ≡ true
    → is_low low ≡ true
    → ((rest : Str) → r ≡ some rest → decode_from between rest ≡ some s)
    → escaped_then (join_pair high low) r ≡ some t
    → decode_from between t ≡ some (high ∷ low ∷ s)
pair-decode high low s none t h k ih e = cc
pair-decode high low s (some rest) t h k ih e =
    let (scalar, form) = pair-utf16 high low h k in
    let same : escape (join_pair high low) rest ≡ t = some-injective _ _ e in
    ap (λ x. decode_from between x) (sym same)
    ∙ escape-decode (join_pair high low) rest scalar
    ∙ ap (λ o. prepend (utf16 (join_pair high low)) o) (ih rest refl)
    ∙ ap (λ u. some (u ++ s)) form

decode_from-encode_from :
    (p : Option ℕ) (s t : Str)
    → IsPending p
    → All (λ c. c < 0x10000) s
    → encode_from p s ≡ some t
    → decode_from between t ≡ some (units p s)
unfolding encode_from decode_from
decode_from-encode_from none [] t ready bound h =
    ap (λ x. decode_from between x) (sym (some-injective [] t h))
decode_from-encode_from (some high) [] t ready bound h = cc
decode_from-encode_from none (c ∷ s) t ready (first, bound) h =
    written-decode c s (encode_from (pending c) s) t first
      (λ rest e. decode_from-encode_from (pending c) s rest (pending-IsPending c) bound e) h
decode_from-encode_from (some high) (c ∷ s) t ready (first, bound) h =
    elim (Bool-cases (is_low c)) [
      | inl low ↦
          pair-decode high c s (encode_from none s) t ready low
            (λ rest e. decode_from-encode_from none s rest tt bound e) (rw low at h)
      | inr low ↦ cc (rw low at h)
    ]

-- A text of UTF-16 code units that can be encoded is what its encoding is decoded to.
pub decode_uri_component-encode :
    (s t : Str)
    → All (λ c. c < 0x10000) s
    → encode_uri_component s ≡ some t
    → decode_uri_component t ≡ some s
unfolding encode_uri_component decode_uri_component
decode_uri_component-encode s t bound h = decode_from-encode_from none s t tt bound h

-- A text without a `%` is decoded to itself.
pub decode_plainly : (s : Str) → includes_unit s b'%' ≡ false → decode_uri_component s ≡ some s
unfolding decode_uri_component decode_from includes_unit step
decode_plainly [] h = refl
decode_plainly (c ∷ s) h = elim (Bool-cases (eqb c b'%')) [
  | inl e ↦ cc (rw e at h)
  | inr e ↦
      let back : decode_from between s ≡ some s = decode_plainly s (rw e at h) in
      let stays : step between c ≡ some (between, c ∷ []) = rw e refl in
      decode_cons between c s ∙ ap (λ o. go_on o s) stays ∙ ap (λ o. prepend (c ∷ []) o) back
]
