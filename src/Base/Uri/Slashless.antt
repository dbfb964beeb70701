-- ===== src/Base/Uri/Slashless.antt =====
-- The encoding of a text has no slash.
use Prim.Native.Nat.{ℕ, ◌/◌, ◌%◌}
use mathlib.Core.Path.{◌≡◌, refl, sym, ap, ◌∙◌}
use mathlib.Core.Logic.{inl, inr}
use mathlib.Core.Bool.{false}
use mathlib.Core.Option.{Option, none, some, some-injective}
use mathlib.Core.List.{[], ◌∷◌}
use native.Mathlib.Omega.{arith}
use prime_server.Base.Tests.{ltb, eqb, Bool-cases}
use prime_server.Base.Strings.{Str, includes_unit}
use prime_server.Base.Uri.{
  is_unreserved, upper_digit, percent, escape, is_high, is_low, join_pair, escaped_then, pending,
  written, encode_from, encode_uri_component,
}

upper_digit_slashless : (v : ℕ) → eqb (upper_digit v) b'/' ≡ false
upper_digit_slashless v = ground arith

percent_slashless :
    (b : ℕ) (rest : Str)
    → includes_unit rest b'/' ≡ false
    → includes_unit (percent b rest) b'/' ≡ false
unfolding includes_unit
percent_slashless b rest h =
    rw (upper_digit_slashless (b / 16)) (rw (upper_digit_slashless (b % 16)) h)

escape_slashless :
    (v : ℕ) (rest : Str)
    → includes_unit rest b'/' ≡ false
    → includes_unit (escape v rest) b'/' ≡ false
unfolding escape
escape_slashless v rest h = elim (Bool-cases (ltb v 0x80)) [
  | inl one ↦ rw one (percent_slashless _ _ h)
  | inr one ↦ rw one (elim (Bool-cases (ltb v 0x800)) [
    | inl two ↦ rw two (percent_slashless _ _ (percent_slashless _ _ h))
    | inr two ↦ rw two (elim (Bool-cases (ltb v 0x10000)) [
      | inl three ↦
          rw three (percent_slashless _ _ (percent_slashless _ _ (percent_slashless _ _ h)))
      | inr three ↦ rw three (
          percent_slashless _ _
            (percent_slashless _ _ (percent_slashless _ _ (percent_slashless _ _ h))))
    ])
  ])
]

written_slashless :
    (c : ℕ) (r : Option Str) (t : Str)
    → ((rest : Str) → r ≡ some rest → includes_unit rest b'/' ≡ false)
    → written c r ≡ some t
    → includes_unit t b'/' ≡ false
unfolding includes_unit
written_slashless c none t ih h = cc
written_slashless c (some rest) t ih h = elim (Bool-cases (is_high c)) [
  | inl high ↦
      ap (λ x. includes_unit x b'/') (sym (some-injective rest t (rw high at h))) ∙ ih rest refl
  | inr high ↦ elim (Bool-cases (is_low c)) [
    | inl low ↦ cc (rw low at (rw high at h))
    | inr low ↦ elim (Bool-cases (is_unreserved c)) [
      | inl kept ↦
          let same : c ∷ rest ≡ t = some-injective _ _ (rw kept at (rw low at (rw high at h))) in
          let other : eqb c b'/' ≡ false = ground arith in
          ap (λ x. includes_unit x b'/') (sym same) ∙ (rw other (ih rest refl))
      | inr special ↦
          let same : escape c rest ≡ t =
            some-injective _ _ (rw special at (rw low at (rw high at h))) in
          ap (λ x. includes_unit x b'/') (sym same) ∙ escape_slashless c rest (ih rest refl)
    ]
  ]
]

escaped_then_slashless :
    (v : ℕ) (r : Option Str) (t : Str)
    → ((rest : Str) → r ≡ some rest → includes_unit rest b'/' ≡ false)
    → escaped_then v r ≡ some t
    → includes_unit t b'/' ≡ false
escaped_then_slashless v none t ih h = cc
escaped_then_slashless v (some rest) t ih h =
    ap (λ x. includes_unit x b'/') (sym (some-injective (escape v rest) t h))
    ∙ escape_slashless v rest (ih rest refl)

encode_from_slashless :
    (p : Option ℕ) (s t : Str) → encode_from p s ≡ some t → includes_unit t b'/' ≡ false
unfolding encode_from includes_unit
encode_from_slashless none [] t h = ap (λ x. includes_unit x b'/') (sym (some-injective [] t h))
encode_from_slashless (some high) [] t h = cc
encode_from_slashless none (c ∷ s) t h =
    written_slashless c (encode_from (pending c) s) t
      (λ rest e. encode_from_slashless (pending c) s rest e) h
encode_from_slashless (some high) (c ∷ s) t h = elim (Bool-cases (is_low c)) [
  | inl low ↦
      escaped_then_slashless (join_pair high c) (encode_from none s) t
        (λ rest e. encode_from_slashless none s rest e) (rw low at h)
  | inr low ↦ cc (rw low at h)
]

pub encode_uri_component_slashless :
    (s t : Str) → encode_uri_component s ≡ some t → includes_unit t b'/' ≡ false
unfolding encode_uri_component
encode_uri_component_slashless s t h = encode_from_slashless none s t h
