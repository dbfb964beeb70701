-- ===== src/Objects/Tests.antt =====
-- Objects of one account and one of another, in an order of names that ignores case.
use prime_server.Base.{
  ℕ, Str, Bool, true, false, not, some, [], ◌∷◌, ◌≡◌, refl, sort, insert_sorted, Table, str_beq,
  str_ltb, to_lower, lower_unit, starts_with,
}
use prime_server.Objects.{Object, listed, list_objects}
use prime_server.Objects.Pages.{list_objects-skips}

abbrev owned : ℕ → ℕ → Object Unit
owned a n = record { account = a ∷ []; name = n ∷ []; blob_id = 1 ∷ []; fields = tt }

abbrev plain_name : Str → Str
plain_name s = s

abbrev before : Object Unit → Object Unit → Bool
before a b = not (str_ltb (to_lower b.name) (to_lower a.name))

abbrev stored : Table Str (Object Unit)
stored =
    ((1 ∷ []), owned b'A' b'c')
    ∷ ((2 ∷ []), owned b'a' b'a')
    ∷ ((3 ∷ []), owned b'B' b'b')
    ∷ ((4 ∷ []), owned b'a' b'B')
    ∷ []

-- The object B stands behind a, and is on neither page.
in_order :
    listed plain_name before stored (b'a' ∷ []) []
    ≡ owned b'a' b'a' ∷ owned b'a' b'B' ∷ owned b'A' b'c' ∷ []
unfolding sort insert_sorted to_lower lower_unit starts_with str_ltb str_beq
in_order = refl

a_not_behind : str_ltb (b'a' ∷ []) (b'B' ∷ []) ≡ false
unfolding str_ltb
a_not_behind = refl

c_behind : str_ltb (b'a' ∷ []) (b'c' ∷ []) ≡ true
unfolding str_ltb
c_behind = refl

list_objects-skips_example :
    (list_objects plain_name before stored (b'a' ∷ []) [] 1 []
      ≡ record { objects = owned b'a' b'a' ∷ []; next_cursor = some (b'a' ∷ []) })
    × ((list_objects plain_name before stored (b'a' ∷ []) [] 1 (b'a' ∷ [])).objects
        ≡ owned b'A' b'c' ∷ [])
list_objects-skips_example =
    list_objects-skips plain_name before stored (b'a' ∷ []) [] 1 [] (owned b'a' b'a')
      (owned b'a' b'B' ∷ []) (owned b'A' b'c' ∷ []) in_order refl refl tt (a_not_behind, tt)
      c_behind
