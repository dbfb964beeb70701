-- ===== src/Gateway/Access/Tests.antt =====
-- A selected wallet with a grant.
use prime_server.Base.{
  Str, true, false, some, [], ◌∷◌, ◌≡◌, refl, ◌⊎◌, lit, to_lower, lower_unit, strip_0x, lookup,
  str_beq, str_eq, ok,
}
use prime_server.Registry.{AccessRequest, Blob, Registry}
use prime_server.Registry.Methods.{
  empty, fresh_blob, get_confidential_access_request, is_confidential_access_usable,
}
use prime_server.Gateway.{Headers, normalize_hex, text_of, is_identifier}
use prime_server.Gateway.Access.{
  number, is_selected_wallets, check_access_request, require_selected_wallet_ciphertext_access,
}
use prime_server.Gateway.Access.Granted.{
  memory_registry, IsGrant, require_selected_wallet_ciphertext_access-IsGrant,
}

abbrev identifier : Str
identifier = lit "aaaaaaaaaaaaaaaaaaaaaaaaaaaaaaaaaaaaaaaaaaaaaaaaaaaaaaaaaaaaaaaa"

abbrev shared : Blob
shared =
    record (fresh_blob (b'o' ∷ []) (record {
      blob_id = b'1' ∷ [];
      commitment = [];
      size = 1;
      chunk_size = 1;
      data_shards = 1;
      total_shards = 1;
      expires_at = 0;
    })) { selected_wallets = (b'w' ∷ [], true) ∷ [] }

abbrev request : AccessRequest
request = record {
  blob_id = b'1' ∷ [];
  requester = b'W' ∷ [];
  purpose = 0;
  deadline = 9;
  exists = true;
  consumed = false;
}

abbrev registry : Registry
registry = record (empty [] 0 []) {
  blobs = (b'1' ∷ [], shared) ∷ [];
  confidential_access_requests = (identifier, request) ∷ [];
}

abbrev headers : Headers
headers = (lit "x-prime-access-request-id", identifier) ∷ []

passes :
    require_selected_wallet_ciphertext_access headers
      (b'w' ∷ [])
      (b'o' ∷ [])
      (some (b'1' ∷ [], number 1))
      (memory_registry registry 5)
    ≡ ok tt
unfolding require_selected_wallet_ciphertext_access check_access_request is_selected_wallets
    is_identifier normalize_hex strip_0x to_lower lower_unit lookup str_beq lit
    get_confidential_access_request is_confidential_access_usable empty
passes = refl

require_selected_wallet_ciphertext_access-IsGrant_example :
    (to_lower (b'w' ∷ []) ≡ to_lower (b'o' ∷ []))
    ⊎ ((is_selected_wallets (number 1) ≡ true)
        × IsGrant registry 5
            (b'w' ∷ [])
            (b'1' ∷ [])
            (normalize_hex (text_of (lookup (lit "x-prime-access-request-id") headers))))
require_selected_wallet_ciphertext_access-IsGrant_example =
    require_selected_wallet_ciphertext_access-IsGrant registry 5 headers (b'w' ∷ []) (b'o' ∷ [])
      (b'1' ∷ []) (number 1) passes
