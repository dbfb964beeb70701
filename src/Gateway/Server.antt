-- ===== src/Gateway/Server.antt =====
-- The server of the gateway: `createPrimeRpcServer` of rpc/src/server.mjs, and the routes of
-- `handleDeveloperRequest` that are not about blobs. The object store and the sessions are configured.
pub mod Served
pub mod Sessions
pub mod Unexpiring
pub mod Samples
mod Tests
use prime_server.Base.{
  ℕ, ◌+◌, Str, Bool, true, false, not, ◌&&◌, ◌||◌, Option, none, some, List, [], ◌∷◌, ◌++◌, lit,
  length, is_empty, starts_with, ◌==◌, str_eq, if◌then◌else◌, Error, gateway, Result, ok, err,
  throw_if, require,
}
use prime_server.Base.Action.{Action, pure, raise, lift, reads, ◌>>=◌, ◌>>◌}
use prime_server.Auth.{Manager, Challenge, Session, Claims, create_challenge, create_session}
use prime_server.Registry.{BlobView}
use prime_server.Jobs.{Job}
use prime_server.Gateway.{Headers, text_of}
use prime_server.Gateway.Upload.{upload_blob}
use prime_server.Gateway.Rebuild.{RebuildResult, rebuild_blob}
use prime_server.Gateway.Paths.{
  developer_api_prefix, Suffix, itself, recover, content, match_blob_path,
}
use prime_server.Gateway.Site.{
  Request, SessionRequest, SessionBody, malformed, not_an_object, fields, Body, no_body, failure,
  health, jobs, uploaded, recovered, blob, about_service, challenge, session, account, Response,
  Site, Setup,
}
use prime_server.Gateway.Http.{response, read_request_body, error_response}
use prime_server.Gateway.Content.{serve_content, handle_fcc_internal_request}
use prime_server.Gateway.Requests.{require_session}
use prime_server.Gateway.Proxy.{handle_fcc_proxy_request}
use prime_server.Gateway.Developer.{on_world, handle_blobs}

abbrev pub json : Body → Response
json body = response 200 [] body

abbrev pub not_found : Str → Response
not_found what = response 404 [] (failure (what ++ lit " not found"))

-- `applyCorsHeaders`.
abbrev pub cors_headers : Str → Headers
cors_headers origin =
    (lit "access-control-allow-origin", if is_empty origin then lit "*" else origin)
    ∷ (lit "access-control-allow-methods", lit "GET,PUT,HEAD,POST,OPTIONS")
    ∷ (
      lit "access-control-allow-headers",
      lit
          "authorization,content-type,range,x-prime-blob-id,x-prime-commitment,x-prime-chunk-size,x-prime-data-shards,x-prime-total-shards,x-prime-expires-at,x-prime-storage-mode,x-prime-access-policy,x-prime-policy-commitment,x-prime-key-envelope-commitment,x-prime-metadata-commitment,x-prime-access-request-id",
    )
    ∷ (
      lit "access-control-expose-headers",
      lit
          "content-range,etag,x-prime-blob-id,x-prime-name-hash,x-prime-expires-at,x-prime-recovered,x-prime-missing-shards,x-prime-storage-mode,x-prime-access-policy,x-prime-policy-commitment,x-prime-payment-status",
    )
    ∷ (lit "access-control-max-age", lit "600")
    ∷ []

abbrev pub with_headers : Headers → Response → Response
with_headers more r = record r { headers = more ++ r.headers }

-- `readJsonBody`, where a body that is too large or missing is no JSON either.
abbrev pub session_fields : SessionBody → Result SessionRequest
session_fields malformed = err (gateway 400 (lit "request body must be valid JSON"))
session_fields not_an_object = err (gateway 400 (lit "request body must be a JSON object"))
session_fields (fields f) = ok f

-- `now = Date.now()` among the parameters of `createSession`: the body may give it.
abbrev pub clock_of : Option ℕ → ℕ → ℕ
clock_of none now = now
clock_of (some given) now = given

module _ {W : Type 0} where
  abbrev pub caught : Site W × Result Response → Site W × Response
  caught (s, ok r) = (s, r)
  caught (s, err e) = (s, error_response e)

module _ {W : Type 0} (setup : Setup W) where
  abbrev pub json_body : Result (List ℕ) → Result SessionRequest
  json_body (err _) = err (gateway 400 (lit "request body must be valid JSON"))
  json_body (ok bytes) = session_fields (setup.read_session bytes)

  unfoldable pub read_json_body : Request → Result SessionRequest
  read_json_body request = json_body (read_request_body setup.is_above request)

  abbrev pub opened : Site W → Result (Manager × Challenge) → Site W × Result Response
  opened s (ok (manager, c)) = (record s { manager = manager }, ok (json (challenge c)))
  opened s (err e) = (s, err e)

  -- `nonce` is what `randomBytes` gave.
  unfoldable pub get_challenge : Str → Request → Action (Site W) Response
  get_challenge nonce request s = opened s (
      create_challenge setup.crypto s.manager (text_of (request.param (lit "address"))) nonce
        request.now)

  abbrev pub logged_in : Site W → Manager × Result Session → Site W × Result Response
  logged_in s (manager, ok r) = (record s { manager = manager }, ok (json (session r)))
  logged_in s (manager, err e) = (record s { manager = manager }, err e)

  abbrev pub log_in : Request → SessionRequest → Action (Site W) Response
  log_in request f s = logged_in s (
      create_session setup.crypto s.manager f.address f.nonce f.signature
        (clock_of f.now request.now))

  unfoldable pub post_session : Request → Action (Site W) Response
  post_session request = do f ← lift (read_json_body request); log_in request f

  abbrev pub iso_of : Option ℕ → Str
  iso_of none = []
  iso_of (some t) = setup.crypto.to_iso_string t

  unfoldable pub get_account : Request → Action (Site W) Response
  get_account request s0 =
      let run : Action (Site W) Response = do
        claims ← lift (require_session setup s0.manager request)
        pure (json (account (text_of claims.address) (iso_of claims.expires_at)))
      in run s0

  -- The `if`s of `handleDeveloperRequest` in their order.
  unfoldable pub handle_developer_request : Str → Request → Action (Site W) Response
  handle_developer_request nonce request s =
      let get : Bool = request.method == lit "GET" in
      if get && request.pathname == developer_api_prefix
      then pure
          (json (
            about_service
              (not (is_empty setup.fcc_proxy_url) && not (is_empty setup.fcc_internal_token))))
          s
      else if starts_with request.pathname (lit "/prime/v1/fcc/")
      then lift (handle_fcc_proxy_request setup s.manager request) s
      else if get && request.pathname == lit "/prime/v1/auth/challenge"
      then get_challenge nonce request s
      else if request.method == lit "POST" && request.pathname == lit "/prime/v1/auth/session"
      then post_session request s
      else if get && request.pathname == lit "/prime/v1/account"
      then get_account request s
      else handle_blobs setup request s

  unfoldable pub post_blob : Request → Action (Site W) Response
  post_blob request s0 =
      let run : Action (Site W) Response = do
        input ← lift (read_request_body setup.is_above request)
        result ← on_world setup (
            upload_blob setup.services setup.keccak256 setup.sha256 setup.clay setup.config input
              setup.providers [] 0 (setup.random s0.world))
        pure (response 201 [] (uploaded result))
      in run s0

  abbrev pub some_result : Action W RebuildResult → Action W (Option RebuildResult)
  some_result m = do result ← m; pure (some result)

  abbrev pub recovery_of :
      Option (Str → Action W (Option RebuildResult)) → Str → Action W (Option RebuildResult)
  recovery_of (some recover_blob) blob_id = recover_blob blob_id
  recovery_of none blob_id =
      some_result
        (rebuild_blob setup.services setup.sha256 setup.clay setup.config blob_id setup.providers)

  unfoldable pub post_recover : Str → Action (Site W) Response
  post_recover blob_id = do
    result ← on_world setup (recovery_of setup.recover blob_id)
    pure (json (recovered result))

  abbrev pub describe : Option BlobView → Response
  describe none = not_found (lit "blob")
  describe (some b) = json (blob b)

  unfoldable pub get_blob : Str → Action (Site W) Response
  get_blob blob_id = reads (λ s. describe (setup.services.get_blob s.world blob_id))

  abbrev pub jobs_of : Option (W → List (Job RebuildResult)) → W → Response
  jobs_of none w = json (jobs [])
  jobs_of (some list) w = json (jobs (list w))

  -- The routes of a blob by its id.
  abbrev pub blob_route : Option (Str × Suffix) → Request → Action (Site W) Response
  blob_route none request s = (s, ok (not_found (lit "route")))
  blob_route (some (id, recover)) request s =
      if request.method == lit "POST" then post_recover id s else (s, ok (not_found (lit "route")))
  blob_route (some (id, itself)) request s =
      if request.method == lit "GET" then get_blob id s else (s, ok (not_found (lit "route")))
  blob_route (some (id, content)) request s =
      if request.method == lit "GET"
      then (s, serve_content setup s.world id request)
      else (s, ok (not_found (lit "route")))

  unfoldable pub public_route : Request → Action (Site W) Response
  public_route request s =
      let get : Bool = request.method == lit "GET" in
      if get && request.pathname == lit "/health"
      then pure (json (health (length setup.providers))) s
      else if get && request.pathname == lit "/v1/recovery"
      then reads (λ t. jobs_of setup.list_jobs t.world) s
      else if request.method == lit "POST" && request.pathname == lit "/v1/blobs"
      then post_blob request s
      else blob_route (match_blob_path request.pathname) request s

  -- The `try` and `catch` of the server.
  unfoldable pub respond : Action (Site W) Response → Site W → Site W × Response
  respond m s = caught (m s)

  abbrev pub with_cors : Site W × Response → Site W × Response
  with_cors (s, r) = (s, with_headers (cors_headers setup.cors_origin) r)

  abbrev pub developer_route : Str → Request → Site W → Site W × Response
  developer_route nonce request s =
      if request.method == lit "OPTIONS"
      then (s, with_headers (cors_headers setup.cors_origin) (response 204 [] no_body))
      else with_cors (respond (handle_developer_request nonce request) s)

  abbrev pub other_route : Str → Request → Site W → Site W × Response
  other_route nonce request s =
      if starts_with request.pathname developer_api_prefix
      then developer_route nonce request s
      else respond (public_route request) s

  abbrev pub after_internal : Result (Option Response) → Str → Request → Site W → Site W × Response
  after_internal (ok (some r)) nonce request s = (s, r)
  after_internal (ok none) nonce request s = other_route nonce request s
  after_internal (err e) nonce request s = (s, error_response e)

  -- The listener of the server; `nonce` is what `randomBytes` gives.
  unfoldable pub handle_request : Str → Request → Site W → Site W × Response
  handle_request nonce request s =
      if starts_with request.pathname (lit "/internal/fcc/")
      then after_internal (handle_fcc_internal_request setup s.world request) nonce request s
      else other_route nonce request s
