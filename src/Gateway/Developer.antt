-- ===== src/Gateway/Developer.antt =====
-- The blobs of the developer API: `objectHeaders`, `objectResponse` and `handleDeveloperRequest` of
-- rpc/src/server.mjs, from the parsing of the path on.
pub mod Granted
use prime_server.Base.{
  ℕ, ◌+◌, ◌/◌, Str, Bool, true, false, not, ◌&&◌, ◌||◌, Option, none, some, List, [], ◌∷◌, ◌++◌,
  map, keep, lit, length, lookup, to_lower, leb, ltb, eqb, is_empty, decimal, ◌==◌, str_eq, take,
  drop, if◌then◌else◌, Error, plain, gateway, unauthenticated, Result, ok, err, throw_if, require,
}
use prime_server.Base.Action.{Action, pure, raise, lift, ◌>>=◌, ◌>>◌}
use prime_server.Registry.{BlobView}
use prime_server.Erasure.{Bytes}
use prime_server.Auth.{Claims, Manager, verify_token}
use prime_server.Objects.{Object, get_object, put_object, Listing, list_objects}
use prime_server.Gateway.{Headers, text_of}
use prime_server.Gateway.Access.{
  PolicyValue, number, text, undefined, require_account_owner, is_compute_only,
  require_selected_wallet_ciphertext_access,
}
use prime_server.Gateway.Registration.{require_blob_id_header, assert_registration_matches_request}
use prime_server.Gateway.Upload.{UploadResult, upload_registered_blob}
use prime_server.Gateway.Requests.{seconds, require_session, check_listing, check_upload}
use prime_server.Gateway.Serve.{is_expired, serve_object}
use prime_server.Gateway.Paths.{parse_developer_blob_path, developer_api_prefix, url_under}
use prime_server.Gateway.Site.{
  Request, Details, no_body, failure, object, listing, Response, Site, Setup,
}
use prime_server.Gateway.Http.{response, read_request_body, serve_range}
use prime_server.Gateway.Content.{read_of, read_headers, compute_only}

-- The object that a finished upload leaves, with the registry's view of the blob.
abbrev pub object_of : Str → Str → Str → Str → UploadResult → BlobView → Object Details
object_of account name content_type created_at result b = record {
  account = account;
  name = name;
  blob_id = result.blob_id;
  fields = record {
    size = result.size;
    content_type = content_type;
    commitment = result.commitment;
    name_hash = result.name_hash;
    created_at = created_at;
    expires_at = b.expires_at;
    status = result.status;
    origin = b.origin;
    storage_mode = text b.policy.storage_mode_name;
    access_policy = text b.policy.access_policy_name;
    policy_commitment = b.policy.policy_commitment;
    key_envelope_commitment = b.policy.key_envelope_commitment;
    metadata_commitment = b.policy.metadata_commitment;
    payment_status = b.payment.status_name;
    payment_asset = b.payment.asset_name;
    provider_settlements = result.provider_settlements;
  };
}

-- `request.headers["content-type"] || "application/octet-stream"`.
abbrev pub content_type_of : Headers → Str
content_type_of headers =
    let value : Str = text_of (lookup (lit "content-type") headers) in
    if is_empty value then lit "application/octet-stream" else value

module _ {W : Type 0} (setup : Setup W) where
  abbrev pub api_base : Request → Str
  api_base request =
      if is_empty setup.public_base_url
      then request.origin ++ developer_api_prefix
      else setup.public_base_url

  abbrev pub with_url : Request → Object Details → Object Details × Str
  with_url request o = (o, url_under (api_base request) o.account o.name)

  -- A call on the registry and the providers.
  abbrev pub in_world : {A : Type 0} → Site W → W × Result A → Site W × Result A
  in_world s (w, r) = (record s { world = w }, r)

  unfoldable pub on_world : {A : Type 0} → Action W A → Action (Site W) A
  on_world m s = in_world s (m s.world)

  abbrev pub after_store :
      Site W
      → Object Details
      → Result (List (Str × Object Details))
      → Site W × Result (Object Details)
  after_store s o (ok objects) = (record s { objects = objects }, ok o)
  after_store s o (err e) = (s, err e)

  unfoldable pub store_object : Object Details → Action (Site W) (Object Details)
  store_object o s = after_store s o (put_object setup.encode_name setup.before s.objects o)

  abbrev pub created_response : Request → Str → Str → Object Details → Response
  created_response request account name o =
      response 201
        ((lit "content-type", lit "application/json; charset=utf-8")
          ∷ (lit "location", url_under (request.origin ++ developer_api_prefix) account name)
          ∷ (lit "etag", b'"' ∷ o.fields.commitment ++ (b'"' ∷ []))
          ∷ [])
        (object o (url_under (api_base request) o.account o.name))

  -- A PUT on a name that no object has.
  unfoldable pub put_blob : Str → Str → Request → Action (Site W) Response
  put_blob account name request s0 =
      let run : Action (Site W) Response = do
        (blob_id, registration, input) ← lift (check_upload setup account name request s0.world)
        result ← on_world (
            upload_registered_blob setup.services setup.keccak256 setup.sha256 setup.clay
              setup.config input blob_id name account registration setup.providers
              (seconds request.now))
        b ← lift (
            require result.registry
              (plain (lit "Cannot read properties of null (reading 'expiresAt')")))
        stored ← store_object (
            object_of account name (content_type_of request.headers)
              (setup.crypto.to_iso_string request.now) result b)
        pure (created_response request account name stored)
      in run s0

  -- The listing of an account's blobs; those that have expired are left out.
  abbrev pub listed_blobs : Str → Request → Listing Details → Response
  listed_blobs account request page = response 200 [] (
      listing account
        (map (with_url request) (keep (λ o. not (is_expired request.now o)) page.objects))
        page.next_cursor)

  -- `Number(limit)` of the parameter or 100.
  abbrev pub limit_of : Option Str → ℕ
  limit_of none = 100
  limit_of (some value) = if is_empty value then 100 else setup.number_of_limit value

  unfoldable pub list_blobs : Str → Str → Request → Action (Site W) Response
  list_blobs session_address account request s0 =
      let run : Action (Site W) Response = do
        lift (check_listing session_address account request)
        pure (
            listed_blobs account request (
              list_objects setup.encode_name setup.before s0.objects account
                (text_of (request.param (lit "prefix"))) (limit_of (request.param (lit "limit")))
                (text_of (request.param (lit "cursor")))))
      in run s0

  -- On the name of a blob, with the object of that name; one that has expired is refused.
  unfoldable pub handle_object :
      Str → Str → Str → Request → Option (Object Details) → Action (Site W) Response
  handle_object session_address account name request none s =
      let put : Action (Site W) Response = do
        lift (require_account_owner session_address account)
        put_blob account name request
      in if request.method == lit "PUT"
        then put s
        else (s, err (gateway 404 (lit "blob not found")))
  handle_object session_address account name request (some o) s =
      (s, serve_object setup s.world session_address account request o)

  abbrev pub handle_path : Str × Option Str → Str → Request → Action (Site W) Response
  handle_path (account, none) session_address request s =
      list_blobs session_address account request s
  handle_path (account, some name) session_address request s =
      handle_object session_address account name request
        (get_object setup.encode_name setup.before s.objects account name) s

  abbrev pub handle_found : Option (Str × Option Str) → Request → Action (Site W) Response
  handle_found none request s = (s, ok (response 404 [] (failure (lit "route not found"))))
  handle_found (some path) request s0 =
      let run : Action (Site W) Response = do
        session ← lift (require_session setup s0.manager request)
        handle_path path (text_of session.address) request
      in run s0

  -- `handleDeveloperRequest` from `parseDeveloperBlobPath` on.
  unfoldable pub handle_blobs : Request → Action (Site W) Response
  handle_blobs request = do
    path ← lift (parse_developer_blob_path setup.crypto.get_address request.pathname)
    handle_found path request
