-- ===== src/Objects/Pages.antt =====
-- A first page and the page behind it, in whatever order `localeCompare` puts the names.
use prime_server.Base.{
  ℕ, suc, ◌+◌, Str, Bool, true, false, Option, none, some, List, [], ◌∷◌, ◌++◌, ◌≡◌, refl, sym, ap,
  ◌∙◌, inl, inr, arith, is_empty, length, length-append, ltb, str_ltb, str_ltb_asym, take, drop,
  All, Bool-cases, Table, if◌then◌else◌,
}
use mathlib.Core.List.{append_assoc}
use prime_server.Objects.{Object, bounded_limit, start_after, last_name, listed, list_objects}

str_ltb_irrefl : (a : Str) → str_ltb a a ≡ false
str_ltb_irrefl a = elim (Bool-cases (str_ltb a a)) [ inl h ↦ str_ltb_asym a a h | inr h ↦ h ]

module _ {F : Type 0} where
  -- No object is left, or the first has a name behind the cursor in code units.
  abbrev pub IsBehind : Str → List (Object F) → Type 0
  IsBehind cursor [] = Unit
  IsBehind cursor (o ∷ os) = str_ltb cursor o.name ≡ true

  abbrev pub IsPassed : Str → Object F → Type 0
  IsPassed cursor p = str_ltb cursor p.name ≡ false

  start_after-append :
      (cursor : Str) (xs ys : List (Object F))
      → All (IsPassed cursor) xs
      → IsBehind cursor ys
      → start_after cursor (xs ++ ys) ≡ length xs
  start_after-append cursor [] [] h k = refl
  start_after-append cursor [] (y ∷ ys) h k = rw k refl
  start_after-append cursor (x ∷ xs) ys (h, hs) k =
      let rest = start_after-append cursor xs ys hs k in rw h (omega (arith, rest))

  drop-length : (xs ys : List (Object F)) → drop (length xs) (xs ++ ys) ≡ ys
  drop-length [] ys = refl
  drop-length (x ∷ xs) ys = drop-length xs ys

  take-length :
      (xs : List (Object F)) (o : Object F) (ys : List (Object F))
      → take (suc (length xs)) (xs ++ (o ∷ ys)) ≡ xs ++ (o ∷ [])
  take-length [] o ys = refl
  take-length (x ∷ xs) o ys = ap (◌∷◌ x) (take-length xs o ys)

  last_name-append :
      (xs : List (Object F)) (o : Object F) → last_name (xs ++ (o ∷ [])) ≡ some o.name
  last_name-append [] o = refl
  last_name-append (x ∷ []) o = refl
  last_name-append (x ∷ y ∷ xs) o = last_name-append (y ∷ xs) o

  All-IsPassed :
      (o : Object F) (xs skipped : List (Object F))
      → All (IsPassed o.name) xs
      → All (IsPassed o.name) skipped
      → All (IsPassed o.name) (xs ++ (o ∷ skipped))
  All-IsPassed o [] skipped h k = (str_ltb_irrefl o.name, k)
  All-IsPassed o (x ∷ xs) skipped (h, hs) k = (h, All-IsPassed o xs skipped hs k)

  more_left :
      (xs : List (Object F)) (o : Object F) (ys : List (Object F)) (name : Option Str)
      → (if ltb (0 + length (xs ++ (o ∷ []))) (length (xs ++ (o ∷ ys))) then name else none)
        ≡ (if is_empty ys then none else name)
  more_left xs o [] name =
      let all : ltb (0 + length (xs ++ (o ∷ []))) (length (xs ++ (o ∷ []))) ≡ false =
        ground arith in
      rw all refl
  more_left xs o (y ∷ ys) name =
      let some_more : ltb (0 + length (xs ++ (o ∷ []))) (length (xs ++ (o ∷ y ∷ ys))) ≡ true =
        ground (arith, length-append xs (o ∷ []), length-append xs (o ∷ y ∷ ys)) in
      rw some_more refl

  module _ (encode_name : Str → Str) (before : Object F → Object F → Bool) where
    -- In whatever order localeCompare puts the names: let the objects of the account and the prefix be,
    -- in this order, those of a first page, which ends with the object o, then some with names that are
    -- not behind that of o in code units, then the others, of which the first, if there is one, has a
    -- name that is. If none of the first page is behind o in code units, then the first page has its
    -- objects and the name of o as its cursor if there are more, and the page for this cursor goes on
    -- with the others: the objects between are passed over, and the pages join where there are none.
    pub list_objects-skips :
        (objects : Table Str (Object F)) (account prefix : Str) (limit : ℕ) (xs : List (Object F))
        (o : Object F) (skipped ys : List (Object F))
        → listed encode_name before objects account prefix ≡ xs ++ (o ∷ (skipped ++ ys))
        → bounded_limit limit ≡ suc (length xs)
        → is_empty o.name ≡ false
        → All (IsPassed o.name) xs
        → All (IsPassed o.name) skipped
        → IsBehind o.name ys
        → (list_objects encode_name before objects account prefix limit [] ≡ record {
          objects = xs ++ (o ∷ []);
          next_cursor = if is_empty (skipped ++ ys) then none else some o.name;
        })
          × ((list_objects encode_name before objects account prefix limit o.name).objects
              ≡ take (bounded_limit limit) ys)
    unfolding list_objects
    list_objects-skips objects account prefix limit xs o skipped ys all full named h k behind =
        let whole : (xs ++ (o ∷ skipped)) ++ ys ≡ xs ++ (o ∷ (skipped ++ ys)) =
          append_assoc xs (o ∷ skipped) ys in
        let start : start_after o.name (xs ++ (o ∷ (skipped ++ ys)))
            ≡ length (xs ++ (o ∷ skipped)) =
          ap (start_after o.name) (sym whole)
          ∙ start_after-append o.name (xs ++ (o ∷ skipped)) ys (All-IsPassed o xs skipped h k)
              behind in
        (
          rw all (
              rw full (
                rw (take-length xs o (skipped ++ ys)) (
                  rw (last_name-append xs o) (
                    ap (λ c. record { objects = xs ++ (o ∷ []); next_cursor = c })
                      (more_left xs o (skipped ++ ys) (some o.name)))))),
          rw named (
              rw all (
                rw start (
                  ap (take (bounded_limit limit)) (
                    ap (drop (length (xs ++ (o ∷ skipped)))) (sym whole)
                    ∙ drop-length (xs ++ (o ∷ skipped)) ys)))),
        )
