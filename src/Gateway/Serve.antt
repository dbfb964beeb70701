-- ===== src/Gateway/Serve.antt =====
-- A blob of the developer API that has an object: `objectHeaders` and the GET and HEAD of
-- `handleDeveloperRequest` (rpc/src/server.mjs).
use prime_server.Base.{
  ℕ, Str, Bool, not, some, [], ◌∷◌, ◌++◌, lit, lookup, leb, is_empty, decimal, ◌==◌, str_eq,
  if◌then◌else◌, gateway, Result, ok, err, ◌>>=◌, ◌>>◌, throw_if,
}
use prime_server.Objects.{Object}
use prime_server.Gateway.{Headers}
use prime_server.Gateway.Access.{
  PolicyValue, number, text, undefined, is_compute_only, require_account_owner,
  require_selected_wallet_ciphertext_access,
}
use prime_server.Gateway.Requests.{seconds}
use prime_server.Gateway.Site.{Request, Details, no_body, Response, Setup}
use prime_server.Gateway.Http.{response, serve_range}
use prime_server.Gateway.Content.{read_of, read_headers, compute_only}

abbrev pub is_expired : ℕ → Object Details → Bool
is_expired now o = leb o.fields.expires_at (seconds now)

abbrev pub policy_text : PolicyValue → Str
policy_text (number n) = decimal n
policy_text (text s) = s
policy_text undefined = lit "undefined"

abbrev pub header_unless_empty : Str → Str → Headers → Headers
header_unless_empty name value rest = if is_empty value then rest else (name, value) ∷ rest

abbrev pub policy_header : Str → PolicyValue → Headers → Headers
policy_header name (number n) rest = (name, decimal n) ∷ rest
policy_header name (text s) rest = (name, s) ∷ rest
policy_header name undefined rest = rest

unfoldable pub object_headers : Object Details → Headers
object_headers o =
    (
      lit "content-type",
      if is_empty o.fields.content_type
          then lit "application/octet-stream"
          else o.fields.content_type,
    )
    ∷ (lit "content-length", decimal o.fields.size)
    ∷ (lit "etag", b'"' ∷ o.fields.commitment ++ (b'"' ∷ []))
    ∷ (lit "x-prime-blob-id", o.blob_id)
    ∷ (lit "x-prime-name-hash", o.fields.name_hash)
    ∷ (lit "x-prime-expires-at", decimal o.fields.expires_at)
    ∷ (lit "accept-ranges", lit "bytes")
    ∷ policy_header (lit "x-prime-storage-mode") o.fields.storage_mode (
        policy_header (lit "x-prime-access-policy") o.fields.access_policy (
          header_unless_empty (lit "x-prime-policy-commitment") o.fields.policy_commitment
            (header_unless_empty (lit "x-prime-payment-status") o.fields.payment_status [])))

module _ {W : Type 0} (setup : Setup W) where
  abbrev pub read_object : W → Request → Object Details → Result Response
  read_object w request o = do
    throw_if (not (request.method == lit "GET")) (gateway 405 (lit "method not allowed"))
    throw_if (is_compute_only o.fields.access_policy) compute_only
    result ← read_of setup w o.blob_id
    ok (
        serve_range (lookup (lit "range") request.headers) result.bytes
          (object_headers o ++ read_headers result))

  abbrev pub by_method : W → Request → Object Details → Result Response
  by_method w request o =
      if request.method == lit "HEAD"
      then ok (response 200 (object_headers o) no_body)
      else read_object w request o

  abbrev pub check_put : Str → Str → Result Response
  check_put session_address account = do
    require_account_owner session_address account
    err (gateway 409 (lit "blob name already exists"))

  abbrev pub check_get : W → Str → Str → Request → Object Details → Result Response
  check_get w session_address account request o = do
    require_selected_wallet_ciphertext_access request.headers session_address account
        (some (o.blob_id, o.fields.access_policy)) (setup.access w)
    by_method w request o

  abbrev pub put_or_get : W → Str → Str → Request → Object Details → Result Response
  put_or_get w session_address account request o =
      if request.method == lit "PUT"
      then check_put session_address account
      else check_get w session_address account request o

  -- The answer to a session's request for a name that has an object.
  unfoldable pub serve_object : W → Str → Str → Request → Object Details → Result Response
  serve_object w session_address account request o = do
    throw_if (is_expired request.now o) (gateway 410 (lit "blob has expired"))
    put_or_get w session_address account request o
