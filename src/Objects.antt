-- ===== src/Objects.antt =====
-- The objects and cursors of `JsonOperationalStore` (rpc/src/operational-store.mjs). `F` is the type
-- of what an object holds beside its account, name and blob.
pub mod Pages
mod Tests
use prime_server.Base.{
  ℕ, suc, ◌+◌, Str, Bool, true, false, not, ◌&&◌, ◌||◌, Option, none, some, List, [], ◌∷◌, ◌++◌,
  lit, is_empty, to_lower, starts_with, str_ltb, length, take, drop, keep, min, max, eqb, ltb, sort,
  values, lookup, insert, Table, ◌==◌, str_eq, decimal, if◌then◌else◌, Error, plain, Result, ok,
  err, ◌>>=◌, ◌>>◌, throw_if,
}

pub record Object (F : Type 0) : Type 0 where
  pub account : Str
  pub name : Str
  pub blob_id : Str
  pub fields : F

abbrev pub Cursors : Type 0
Cursors = Table Str Str

unfoldable pub get_cursor : Cursors → Str → Result (Option Str)
get_cursor cursors key = do
  throw_if (is_empty key) (plain (lit "cursor key is required"))
  ok (lookup key cursors)

-- The next block is a natural number; a negative one is refused by the source.
unfoldable pub set_cursor : Cursors → Str → ℕ → Result Cursors
set_cursor cursors key next_block = do
  throw_if (is_empty key) (plain (lit "cursor key is required"))
  ok (insert key (decimal next_block) cursors)

-- `Math.min(Math.max(Number(limit) || 100, 1), 1000)`.
abbrev pub bounded_limit : ℕ → ℕ
bounded_limit limit = min (max (if eqb limit 0 then 100 else limit) 1) 1000

pub record Listing (F : Type 0) : Type 0 where
  pub objects : List (Object F)
  pub next_cursor : Option Str

module _ {F : Type 0} where
  -- `objects.findIndex((object) => object.name > cursor)`, or the length if there is none.
  abbrev pub start_after : Str → List (Object F) → ℕ
  start_after cursor [] = 0
  start_after cursor (o ∷ os) =
      let rest = start_after cursor os in if str_ltb cursor o.name then 0 else suc rest

  abbrev pub last_name : List (Object F) → Option Str
  last_name [] = none
  last_name (o ∷ []) = some o.name
  last_name (o ∷ p ∷ os) = last_name (p ∷ os)

  abbrev pub is_listed : Str → Str → Object F → Bool
  is_listed account prefix o = to_lower o.account == to_lower account && starts_with o.name prefix

  -- One page of the objects in their order.
  abbrev pub page : List (Object F) → ℕ → ℕ → Listing F
  page objects start limit = record {
    objects = take limit (drop start objects);
    next_cursor =
        if ltb (start + length (take limit (drop start objects))) (length objects)
        then last_name (take limit (drop start objects))
        else none;
  }

  -- `encode_name` is the base64url form of a name, and `before a b` says that `localeCompare` does not
  -- put the name of `a` behind that of `b`.
  module _ (encode_name : Str → Str) (before : Object F → Object F → Bool) where
    abbrev pub object_key : Str → Str → Str
    object_key account name = to_lower account ++ (b':' ∷ encode_name name)

    unfoldable pub get_object : Table Str (Object F) → Str → Str → Option (Object F)
    get_object objects account name = lookup (object_key account name) objects

    unfoldable pub put_object : Table Str (Object F) → Object F → Result (Table Str (Object F))
    put_object objects o = do
      throw_if (is_empty o.account || is_empty o.name || is_empty o.blob_id)
          (plain (lit "object account, name, and blob ID are required"))
      ok (insert (object_key o.account o.name) o objects)

    abbrev pub listed : Table Str (Object F) → Str → Str → List (Object F)
    listed objects account prefix = sort before (keep (is_listed account prefix) (values objects))

    unfoldable pub list_objects : Table Str (Object F) → Str → Str → ℕ → Str → Listing F
    list_objects objects account prefix limit cursor =
        page (listed objects account prefix)
          (if is_empty cursor then 0 else start_after cursor (listed objects account prefix))
          (bounded_limit limit)
