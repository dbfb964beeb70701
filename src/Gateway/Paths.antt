-- ===== src/Gateway/Paths.antt =====
-- The paths of the developer API: `normalizeAccount`, `normalizeBlobName` and `parseDeveloperBlobPath`
-- of rpc/src/server.mjs, and the identifiers in the paths of the other routes.
pub mod Roundtrip
pub mod Url
mod Tests
use prime_server.Base.{
  ℕ, Str, Bool, true, false, ◌&&◌, ◌||◌, not, Option, none, some, List, [], ◌∷◌, ◌++◌, lit, length,
  take, drop, eqb, leb, ltb, is_empty, starts_with, ends_with_unit, includes_unit, byte_length,
  strip_0x, is_hex_digit, split_slash, ◌==◌, str_eq, if◌then◌else◌, Error, plain, gateway, Result,
  ok, err, ◌>>=◌, ◌>>◌, throw_if, require,
}
use prime_server.Base.Uri.{encode_uri_component, decode_uri_component}

abbrev pub developer_api_prefix : Str
developer_api_prefix = lit "/prime/v1"

abbrev pub bad_name : Error
bad_name =
    gateway 400 (lit "blob name must be between 1 and 1024 bytes and cannot end with a slash")

unfoldable pub normalize_blob_name : Str → Result Str
normalize_blob_name value = do
  name ←
      require (decode_uri_component value) (gateway 400 (lit "blob name is not valid URL encoding"))
  throw_if
      (is_empty name
        || ltb 1024 (byte_length name)
        || includes_unit name 0
        || starts_with name (b'/' ∷ [])
        || ends_with_unit name b'/')
      bad_name
  ok name

-- `encodeURIComponent(name)`, for the name of an object, which was decoded and so can be encoded.
abbrev pub encoded_name : Option Str → Str
encoded_name none = []
encoded_name (some s) = s

-- The URL of a blob under the base of the API.
unfoldable pub url_under : Str → Str → Str → Str
url_under base account name =
    base ++ (lit "/blobs/" ++ (account ++ (b'/' ∷ encoded_name (encode_uri_component name))))

abbrev pub optional_name : Option Str → Result (Option Str)
optional_name none = ok none
optional_name (some value) = do name ← normalize_blob_name value; ok (some name)

-- `get_address` is `getAddress` of viem for the texts that `isAddress` accepts.
module _ (get_address : Str → Option Str) where
  unfoldable pub normalize_account : Str → Result Str
  normalize_account value =
      require (get_address value) (gateway 400 (lit "a valid wallet account is required"))

  abbrev pub blob_path : Str × Option Str → Result (Option (Str × Option Str))
  blob_path (account_part, name_part) = do
    part ← require (decode_uri_component account_part) (plain (lit "URI malformed"))
    account ← normalize_account part
    name ← optional_name name_part
    ok (some (account, name))

  -- The account, and the name of a blob if the path has one.
  unfoldable pub parse_developer_blob_path : Str → Result (Option (Str × Option Str))
  parse_developer_blob_path pathname =
      if starts_with pathname (developer_api_prefix ++ lit "/blobs/")
      then blob_path (split_slash (drop (length (developer_api_prefix ++ lit "/blobs/")) pathname))
      else ok none

abbrev pub all_hex : Str → Bool
all_hex [] = true
all_hex (c ∷ s) = is_hex_digit c && all_hex s

abbrev all_id : Str → Bool
all_id [] = true
all_id (c ∷ s) =
    (leb b'A' c && leb c b'Z'
      || leb b'a' c && leb c b'z'
      || leb b'0' c && leb c b'9'
      || eqb c b'.'
      || eqb c b'_'
      || eqb c b'-')
    && all_id s

-- `/^\/internal\/fcc\/blobs\/(0x)?([a-fA-F0-9]{64})\/ciphertext$/`, after the prefix.
unfoldable pub match_ciphertext : Str → Option Str
match_ciphertext remainder =
    let s : Str = strip_0x remainder in
    if eqb (length (take 64 s)) 64 && all_hex (take 64 s) && drop 64 s == lit "/ciphertext"
    then some (take 64 s)
    else none

-- The last part of a path of a blob: nothing, `/recover`, `/content`, or another.
pub data Suffix : Type 0 where
  itself recover content : Suffix

abbrev pub suffix_of : Option Str → Option Suffix
suffix_of none = some itself
suffix_of (some s) =
    if s == lit "recover" then some recover else if s == lit "content" then some content else none

abbrev pub identified : Str × Option Str → Option (Str × Suffix)
identified (id, rest) =
    if is_empty id || not (all_id id)
    then none
    else elim (suffix_of rest) [ none ↦ none | some suffix ↦ some (id, suffix) ]

-- `/^\/v1\/blobs\/([A-Za-z0-9._-]+)$/`, and the same with `/recover` and `/content`.
unfoldable pub match_blob_path : Str → Option (Str × Suffix)
match_blob_path pathname =
    if starts_with pathname (lit "/v1/blobs/")
    then identified (split_slash (drop 10 pathname))
    else none
