-- ===== src/Gateway/Access.antt =====
-- Who may have the ciphertext of a private blob: `requireAccountOwner` and
-- `requireSelectedWalletCiphertextAccess` of rpc/src/server.mjs.
pub mod Granted
mod Tests
use prime_server.Base.{
  ℕ, Str, Bool, true, false, not, ◌&&◌, ◌||◌, Option, none, some, is_some, List, [], ◌∷◌, lit,
  to_lower, lookup, ◌==◌, str_eq, eqb, if◌then◌else◌, Error, gateway, Result, ok, err, ◌>>=◌, ◌>>◌,
  throw_if, require,
}
use prime_server.Registry.{AccessRequest}
use prime_server.Gateway.{Headers, normalize_hex, text_of, is_identifier}

-- The access policy of a stored object, which is a number, a text or not there.
pub data PolicyValue : Type 0 where
  number : ℕ → PolicyValue
  text : Str → PolicyValue
  undefined : PolicyValue

-- `[1, "1", "selected_wallets"].includes(value)`.
unfoldable pub is_selected_wallets : PolicyValue → Bool
is_selected_wallets (number n) = eqb n 1
is_selected_wallets (text s) = s == lit "1" || s == lit "selected_wallets"
is_selected_wallets undefined = false

-- `isComputeOnly`.
unfoldable pub is_compute_only : PolicyValue → Bool
is_compute_only (number n) = eqb n 2
is_compute_only (text s) = s == lit "2" || s == lit "compute_only"
is_compute_only undefined = false

-- The two methods of the registry, which a registry may lack.
pub record AccessRegistry : Type 0 where
  pub get_request : Option (Str → Result (Option AccessRequest))
  pub check_usable : Option (Str → Result Bool)

unfoldable pub require_account_owner : Str → Str → Result (Unit {0})
require_account_owner session_address account =
    throw_if (not (to_lower session_address == to_lower account))
      (gateway 403 (lit "wallet does not own this account"))

abbrev unauthorized : Error
unauthorized = gateway 403 (lit "wallet is not authorized to retrieve this ciphertext")

abbrev pub is_open : AccessRequest → Bool
is_open q = q.exists && not q.consumed && eqb q.purpose 0

abbrev pub not_configured : Error
not_configured = gateway 503 (lit "selected-wallet ciphertext retrieval is not configured")

-- From the request on that the registry returned.
unfoldable pub check_access_request :
    (Str → Result Bool) → Str → Str → Str → Option AccessRequest → Result (Unit {0})
check_access_request is_usable request_id session_address blob_id access = do
  q ← require access (gateway 403 (lit "access request cannot retrieve ciphertext"))
  throw_if (not (is_open q)) (gateway 403 (lit "access request cannot retrieve ciphertext"))
  throw_if (not (to_lower q.requester == to_lower session_address))
      (gateway 403 (lit "access request requester does not match the session wallet"))
  throw_if (not (normalize_hex q.blob_id == normalize_hex blob_id))
      (gateway 403 (lit "access request does not match the blob"))
  usable ← is_usable request_id
  throw_if (not usable) (gateway 403 (lit "access request is no longer usable"))

-- The object's blob id and access policy, if there is an object.
unfoldable pub require_selected_wallet_ciphertext_access :
    Headers → Str → Str → Option (Str × PolicyValue) → AccessRegistry → Result (Unit {0})
require_selected_wallet_ciphertext_access headers session_address account object registry =
    let request_id : Str =
      normalize_hex (text_of (lookup (lit "x-prime-access-request-id") headers)) in
    let checked : Result (Unit {0}) = do
      (blob_id, access_policy) ← require object unauthorized
      throw_if (not (is_selected_wallets access_policy)) unauthorized
      throw_if (not (is_identifier request_id))
          (gateway 403 (lit "an active selected-wallet access request is required"))
      get_request ← require registry.get_request not_configured
      is_usable ← require registry.check_usable not_configured
      access ← get_request request_id
      check_access_request is_usable request_id session_address blob_id access
    in if to_lower session_address == to_lower account then ok tt else checked
