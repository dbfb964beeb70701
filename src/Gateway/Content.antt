-- ===== src/Gateway/Content.antt =====
-- The routes that serve the content of a blob by its id: `/v1/blobs/<id>/content` in
-- `createPrimeRpcServer` and `handleFccInternalRequest` of rpc/src/server.mjs.
pub mod Guarded
use prime_server.Base.{
  ℕ, Str, Bool, true, false, not, ◌&&◌, ◌||◌, Option, none, some, List, [], ◌∷◌, ◌++◌, lit, length,
  drop, lookup, eqb, is_empty, starts_with, decimal, ◌==◌, str_eq, if◌then◌else◌, Error, gateway,
  Result, ok, err, ◌>>=◌, ◌>>◌, throw_if, require,
}
use prime_server.Registry.{Policy, BlobView}
use prime_server.Gateway.{Headers, text_of}
use prime_server.Gateway.Read.{ReadResult}
use prime_server.Gateway.Rebuild.{read_at}
use prime_server.Gateway.Paths.{match_ciphertext}
use prime_server.Gateway.Site.{Request, content, failure, Response, Setup}
use prime_server.Gateway.Http.{response, serve_range}

-- `blob.policy?.accessPolicyName === "compute_only" || blob.policy?.accessPolicy === 2`.
abbrev pub is_compute_only : Policy → Bool
is_compute_only p = p.access_policy_name == lit "compute_only" || eqb p.access_policy 2

abbrev pub is_confidential : Policy → Bool
is_confidential p = eqb p.storage_mode 2 || p.storage_mode_name == lit "confidential"

abbrev pub compute_only : Error
compute_only = gateway 403 (lit "compute-only blobs require an FCC access result")

abbrev pub bool_text : Bool → Str
bool_text true = lit "true"
bool_text false = lit "false"

-- `result.missingShards.join(",")`.
abbrev pub join_comma : List ℕ → Str
join_comma [] = []
join_comma (n ∷ []) = decimal n
join_comma (n ∷ m ∷ ns) = decimal n ++ (b',' ∷ join_comma (m ∷ ns))

abbrev pub read_headers : ReadResult → Headers
read_headers result =
    (lit "x-prime-recovered", bool_text result.recovered)
    ∷ (lit "x-prime-missing-shards", join_comma result.missing_shards)
    ∷ []

abbrev pub content_headers : ReadResult → Headers
content_headers result =
    (lit "content-type", lit "application/octet-stream")
    ∷ (lit "accept-ranges", lit "bytes")
    ∷ (lit "x-prime-blob-id", result.blob.blob_id)
    ∷ (lit "x-prime-content-hash", result.content_hash)
    ∷ read_headers result

-- The response of the internal route, with the whole content.
abbrev pub ciphertext_response : Str → ReadResult → Response
ciphertext_response blob_id result =
    response 200
      ((lit "content-type", lit "application/octet-stream")
        ∷ (lit "content-length", decimal (length result.bytes))
        ∷ (lit "etag", b'"' ∷ result.content_hash ++ (b'"' ∷ []))
        ∷ (lit "x-prime-blob-id", blob_id)
        ∷ read_headers result)
      (content result.bytes)

module _ {W : Type 0} (setup : Setup W) where
  -- `readBlob` with the server's engine and providers.
  abbrev pub read_of : W → Str → Result ReadResult
  read_of w blob_id =
      read_at setup.services setup.sha256 setup.clay setup.config blob_id setup.providers w

  abbrev pub serve_stored : W → Str → Request → Option BlobView → Result Response
  serve_stored w blob_id request none = ok (response 404 [] (failure (lit "blob not found")))
  serve_stored w blob_id request (some b) = do
    throw_if (is_compute_only b.policy) compute_only
    result ← read_of w blob_id
    ok (serve_range (lookup (lit "range") request.headers) result.bytes (content_headers result))

  unfoldable pub serve_content : W → Str → Request → Result Response
  serve_content w blob_id request =
      serve_stored w blob_id request (setup.services.get_blob w blob_id)

  abbrev pub serve_ciphertext : W → Option Str → Result Response
  serve_ciphertext w none = ok (response 404 [] (failure (lit "FCC internal route not found")))
  serve_ciphertext w (some hex) = do
    b ← require (setup.services.get_blob w (lit "0x" ++ hex)) (gateway 404 (lit "blob not found"))
    throw_if (not (is_confidential b.policy))
        (gateway 403 (lit "FCC ciphertext route requires confidential storage"))
    throw_if
        (not (eqb b.policy.access_policy 2 || b.policy.access_policy_name == lit "compute_only"))
        (gateway 403 (lit "FCC ciphertext route requires compute-only access"))
    result ← read_of w (lit "0x" ++ hex)
    ok (ciphertext_response (lit "0x" ++ hex) result)

  abbrev pub authorize_fcc : Request → Result (Unit {0})
  authorize_fcc request = do
    throw_if (not (request.method == lit "GET")) (gateway 405 (lit "method not allowed"))
    throw_if (is_empty setup.fcc_internal_token)
        (gateway 404 (lit "FCC internal storage route is not configured"))
    throw_if
        (not
          (text_of (lookup (lit "x-prime-fcc-token") request.headers) == setup.fcc_internal_token))
        (gateway 401 (lit "FCC internal storage authorization failed"))

  -- The response, or `none` if the path is not for this route.
  unfoldable pub handle_fcc_internal_request : W → Request → Result (Option Response)
  handle_fcc_internal_request w request =
      let served : Result (Option Response) = do
        authorize_fcc request
        answer ←
            serve_ciphertext w
              (match_ciphertext (drop (length (lit "/internal/fcc/blobs/")) request.pathname))
        ok (some answer)
      in if starts_with request.pathname (lit "/internal/fcc/blobs/") then served else ok none
