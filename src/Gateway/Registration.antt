-- ===== src/Gateway/Registration.antt =====
-- Uploads under a registration: `parseHeaderInteger`, `parseHeaderEnum`, `requireBlobIdHeader` and
-- `assertRegistrationMatchesRequest` of rpc/src/server.mjs.
pub mod Claims
pub mod Matching
mod Tests
use prime_server.Base.{
  ℕ, ◌+◌, Str, Bool, true, false, not, ◌&&◌, ◌||◌, Option, none, some, is_some, List, [], ◌∷◌, ◌++◌,
  map, lit, to_lower, lookup, ◌==◌, str_eq, eqb, ltb, leb, length, is_empty, if◌then◌else◌, Error,
  gateway, Result, ok, err, ◌>>=◌, ◌>>◌, throw_if, require,
}
use prime_server.Registry.{Status, Origin, user, operator, BlobView, Policy}
use prime_server.Registry.Methods.{is_pending}
use prime_server.Gateway.{Headers, normalize_hex, text_of, is_identifier}

abbrev pub is_user : Origin → Bool
is_user user = true
is_user operator = false

abbrev refuse : ℕ → Str → Error
refuse status message = gateway status message

-- `names.indexOf(normalized)`, from an index on.
abbrev pub index_from : ℕ → Str → List Str → Option ℕ
index_from i s [] = none
index_from i s (n ∷ ns) = let rest = index_from (i + 1) s ns in if n == s then some i else rest

-- `value.replace(/-/g, "_")`.
unfoldable pub dashes_to_underscores : Str → Str
dashes_to_underscores = map (λ c. if eqb c b'-' then b'_' else c)

abbrev pub storage_modes : List Str
storage_modes = lit "public" ∷ lit "private" ∷ lit "confidential" ∷ []

abbrev pub access_policies : List Str
access_policies = lit "owner_only" ∷ lit "selected_wallets" ∷ lit "compute_only" ∷ []

unfoldable pub require_blob_id_header : Headers → Result Str
require_blob_id_header headers =
    let blob_id : Str = normalize_hex (text_of (lookup (lit "x-prime-blob-id") headers)) in
    if is_identifier blob_id
    then ok blob_id
    else err (refuse 400 (lit "x-prime-blob-id must be a 32-byte hex identifier"))

-- `claimed !== null && claimed !== expected`.
abbrev pub differs : Option ℕ → ℕ → Bool
differs none expected = false
differs (some n) expected = not (eqb n expected)

-- `number` gives the natural number that `Number(value)` is, if it is a safe integer and not
-- negative.
module _ (number : Str → Option ℕ) where
  unfoldable pub parse_header_integer : Headers → Str → Bool → Result (Option ℕ)
  parse_header_integer headers name required = elim (lookup name headers) [
    | none ↦ if required then err (refuse 400 (name ++ lit " is required")) else ok none
    | some value ↦ elim (number value) [
      | none ↦ err (refuse 400 (name ++ lit " must be a non-negative integer"))
      | some n ↦ ok (some n)
    ]
  ]

  abbrev pub bounded_by : List Str → Str → Option ℕ → Result (Option ℕ)
  bounded_by names name none = err (refuse 400 (name ++ lit " must be a supported value"))
  bounded_by names name (some n) =
      if leb (length names) n
      then err (refuse 400 (name ++ lit " must be a supported value"))
      else ok (some n)

  unfoldable pub parse_header_enum : Headers → Str → List Str → Bool → Result (Option ℕ)
  parse_header_enum headers name names required = elim (lookup name headers) [
    | none ↦ if required then err (refuse 400 (name ++ lit " is required")) else ok none
    | some value ↦ elim (index_from 0 (dashes_to_underscores (to_lower value)) names) [
      | some i ↦ ok (some i)
      | none ↦ bounded_by names name (number value)
    ]
  ]

  -- The loop over the encoding's headers.
  unfoldable pub check_claims : Headers → List (Str × ℕ) → Result (Unit {0})
  check_claims headers [] = ok tt
  check_claims headers ((header, expected) ∷ claims) = do
    claimed ← parse_header_integer headers header false
    throw_if (differs claimed expected)
        (refuse 400 (header ++ lit " does not match the registered encoding"))
    check_claims headers claims

-- The loop over the policy's headers.
unfoldable pub check_policy_claims : Headers → List (Str × Str) → Result (Unit {0})
check_policy_claims headers [] = ok tt
check_policy_claims headers ((header, expected) ∷ claims) = do
  claimed ←
      require (lookup header headers) (refuse 400 (header ++ lit " is required for paid uploads"))
  throw_if (not (normalize_hex claimed == normalize_hex expected))
      (refuse 400 (header ++ lit " does not match the registered policy"))
  check_policy_claims headers claims

abbrev pub encoding_claims : BlobView → List (Str × ℕ)
encoding_claims b =
    (lit "x-prime-chunk-size", b.chunk_size)
    ∷ (lit "x-prime-data-shards", b.data_shards)
    ∷ (lit "x-prime-total-shards", b.total_shards)
    ∷ []

abbrev pub policy_claims : Policy → List (Str × Str)
policy_claims p =
    (lit "x-prime-policy-commitment", p.policy_commitment)
    ∷ (lit "x-prime-key-envelope-commitment", p.key_envelope_commitment)
    ∷ (lit "x-prime-metadata-commitment", p.metadata_commitment)
    ∷ []

-- `claimed !== undefined && normalizeHex(claimed) !== normalizeHex(expected)`.
abbrev pub contradicts_hex : Option Str → Str → Bool
contradicts_hex none expected = false
contradicts_hex (some claimed) expected = not (normalize_hex claimed == normalize_hex expected)

abbrev pub is_paid : BlobView → Bool
is_paid b = not (is_empty b.payment.status_name) && not (b.payment.status_name == lit "none")

module _ (keccak256 : Str → Str) where
  -- The checks of the blob's identity and state; `now` is the time in seconds.
  unfoldable pub check_registered : BlobView → Str → Str → Str → ℕ → Result (Unit {0})
  check_registered b blob_id account name now = do
    throw_if (not (to_lower b.blob_id == blob_id)) (refuse 404 (lit "registered blob not found"))
    throw_if (not (is_user b.origin))
        (refuse 403 (lit "public uploads require a user-registered blob"))
    throw_if (not (to_lower b.owner == to_lower account))
        (refuse 403 (lit "registered blob owner does not match the account"))
    throw_if (not (b.blob_name == name))
        (refuse 409 (lit "registered blob name does not match the request"))
    throw_if
        (not (is_empty b.name_hash)
          && not (normalize_hex b.name_hash == normalize_hex (keccak256 name)))
        (refuse 409 (lit "registered blob name hash does not match the request"))
    throw_if (not (is_pending b.status)) (refuse 409 (lit "registered blob is no longer pending"))
    throw_if (ltb 0 b.expires_at && leb b.expires_at now)
        (refuse 410 (lit "registered blob has expired"))

module _ (number : Str → Option ℕ) where
  -- The checks of the headers that describe the content.
  unfoldable pub check_content : BlobView → Headers → Result (Unit {0})
  check_content b headers = do
    content_length ← parse_header_integer number headers (lit "content-length") true
    throw_if (differs content_length b.size)
        (refuse 400 (lit "content-length does not match the registered blob size"))
    throw_if (contradicts_hex (lookup (lit "x-prime-commitment") headers) b.commitment)
        (refuse 400 (lit "x-prime-commitment does not match the registered commitment"))
    expiry ← parse_header_integer number headers (lit "x-prime-expires-at") false
    throw_if (differs expiry b.expires_at)
        (refuse 400 (lit "x-prime-expires-at does not match the registered expiry"))
    throw_if (is_some (lookup (lit "x-prime-expiration-seconds") headers))
        (refuse 400 (lit "expiration must be registered on Flare before upload"))
    check_claims number headers (encoding_claims b)

  unfoldable pub check_payment : BlobView → Headers → Result (Unit {0})
  check_payment b headers = do
    throw_if (not (b.payment.status_name == lit "escrowed"))
        (refuse 409 (lit "paid blob registration is not awaiting upload"))
    throw_if (b.policy.storage_mode_name == lit "unknown")
        (refuse 502 (lit "paid blob policy is unavailable from the registry"))
    storage_mode ← parse_header_enum number headers (lit "x-prime-storage-mode") storage_modes true
    access_policy ←
        parse_header_enum number headers (lit "x-prime-access-policy") access_policies true
    throw_if (differs storage_mode b.policy.storage_mode)
        (refuse 400 (lit "x-prime-storage-mode does not match the registered policy"))
    throw_if (differs access_policy b.policy.access_policy)
        (refuse 400 (lit "x-prime-access-policy does not match the registered policy"))
    check_policy_claims headers (policy_claims b.policy)

module _ (keccak256 : Str → Str) (number : Str → Option ℕ) where
  unfoldable pub assert_registration_matches_request :
      Option BlobView → Str → Str → Str → Headers → ℕ → Result (Unit {0})
  assert_registration_matches_request registration blob_id account name headers now = do
    b ← require registration (refuse 404 (lit "registered blob not found"))
    check_registered keccak256 b blob_id account name now
    check_content number b headers
    if is_paid b then check_payment number b headers else ok tt
