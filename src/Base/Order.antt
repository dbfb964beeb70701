-- ===== src/Base/Order.antt =====
-- The order of texts by their code units, and sorting by an order in which equal places mean equal
-- elements: the order of the input is forgotten.
use mathlib.Core.Path.{◌≡◌, refl, ◌∙◌, sym}
use mathlib.Core.Logic.{inl, inr, ∥∥₁_elim}
use mathlib.Core.Bool.{Bool, true, false, not}
use mathlib.Core.List.{List, [], ◌∷◌, Perm, Permᴰ}
use mathlib.Core.List
use native.Mathlib.Omega.{arith}
use prime_server.Base.Tests.{Bool-cases, eqb, eqb_iff}
use prime_server.Base.Strings.{Str, str_ltb}
use prime_server.Base.Sorting.{sort, insert_sorted}

-- Behind a smaller text, and so behind what is smaller than that.
pub str_ltb_before : (a b c : Str) → str_ltb a b ≡ true → str_ltb c b ≡ false → str_ltb a c ≡ true
unfolding str_ltb
str_ltb_before [] [] c h k = cc
str_ltb_before (x ∷ a) [] c h k = cc
str_ltb_before a (y ∷ b) [] h k = cc
str_ltb_before [] (y ∷ b) (z ∷ c) h k = refl
str_ltb_before (x ∷ a) (y ∷ b) (z ∷ c) h k = ground (arith, str_ltb_before a b c)

pub str_ltb_asym : (a b : Str) → str_ltb a b ≡ true → str_ltb b a ≡ false
unfolding str_ltb
str_ltb_asym [] [] h = refl
str_ltb_asym [] (y ∷ b) h = refl
str_ltb_asym (x ∷ a) [] h = cc
str_ltb_asym (x ∷ a) (y ∷ b) h = ground (arith, str_ltb_asym a b)

str_ltb_tie : (a b : Str) → str_ltb a b ≡ false → str_ltb b a ≡ false → a ≡ b
unfolding str_ltb
str_ltb_tie [] [] h k = refl
str_ltb_tie [] (y ∷ b) h k = cc
str_ltb_tie (x ∷ a) [] h k = cc
str_ltb_tie (x ∷ a) (y ∷ b) h k = elim (Bool-cases (eqb x y)) [
  | inl e ↦ cc ((eqb_iff x y).0 e, str_ltb_tie a b (ground arith) (ground arith))
  | inr e ↦ ground arith
]

-- `Array.prototype.sort` without a comparison puts texts in the order of their code units.
abbrev pub str_leb : Str → Str → Bool
str_leb a b = not (str_ltb b a)

pub str_leb_total : (a b : Str) → str_leb a b ≡ false → str_leb b a ≡ true
str_leb_total a b h = ground (arith, str_ltb_asym b a)

pub str_leb_trans : (a b c : Str) → str_leb a b ≡ true → str_leb b c ≡ true → str_leb a c ≡ true
str_leb_trans a b c h k = ground (arith, str_ltb_before c a b)

pub str_leb_antisym : (a b : Str) → str_leb a b ≡ true → str_leb b a ≡ true → a ≡ b
str_leb_antisym a b h k = str_ltb_tie a b (ground arith) (ground arith)

module _ {ℓ} {A : Type ℓ} (le : A → A → Bool) (total : (x y : A) → le x y ≡ false → le y x ≡ true)
    (transitive : (x y z : A) → le x y ≡ true → le y z ≡ true → le x z ≡ true)
    (antisymmetric : (x y : A) → le x y ≡ true → le y x ≡ true → x ≡ y) where
  insert_sorted_comm :
      (x y : A) (l : List A)
      → insert_sorted le x (insert_sorted le y l) ≡ insert_sorted le y (insert_sorted le x l)
  unfolding insert_sorted
  insert_sorted_comm x y [] = ground (arith, total x y, total y x, antisymmetric x y)
  insert_sorted_comm x y (z ∷ l) = ground (
    arith,
    total x y,
    total y x,
    antisymmetric x y,
    transitive x y z,
    transitive y x z,
    total x z,
    total y z,
    insert_sorted_comm x y l,
  )

  sort_permᴰ : {xs ys : List A} → Permᴰ xs ys → sort le xs ≡ sort le ys
  unfolding sort
  sort_permᴰ Permᴰ.nil = refl
  sort_permᴰ (Permᴰ.cons e p) = cc (e, sort_permᴰ p)
  sort_permᴰ (Permᴰ.swap {a} {b} {l = l} e f) =
      rw (sym e, sym f) (insert_sorted_comm a b (sort le l))
  sort_permᴰ (Permᴰ.trans p q) = sort_permᴰ p ∙ sort_permᴰ q

  -- Sorting forgets the order of its input.
  pub sort_perm : {xs ys : List A} → IsSet A → Perm xs ys → sort le xs ≡ sort le ys
  sort_perm set p = ∥∥₁_elim p (List.is_set set _ _) sort_permᴰ
