-- ===== src/Gateway/Server/Served.antt =====
-- Who is served the content of a blob, by any route of the server.
use prime_server.Base.{
  ℕ, Str, Bool, true, false, not, ◌&&◌, ◌≡◌, refl, Option, none, some, List, [], ◌∷◌, ◌++◌, lit,
  starts_with, ◌==◌, str_eq, str_beq_iff, if◌then◌else◌, Error, ◌||◌, eqb, is_empty, Result, ok,
  err, ◌⊎◌, inl, inr,
}
use prime_server.Base.Action.{Action, reads}
use prime_server.Auth.{Manager, Session, Challenge, create_challenge, create_session}
use prime_server.Registry.{BlobView}
use prime_server.Jobs.{Job}
use prime_server.Gateway.Rebuild.{RebuildResult}
use prime_server.Gateway.{text_of}
use prime_server.Gateway.Read.{is_ok_status}
use prime_server.Erasure.{Bytes}
use prime_server.Gateway.Paths.{Suffix, itself, recover, match_blob_path}
use prime_server.Gateway.Paths
use prime_server.Gateway.Site.{Request, content, Response, Site, Setup}
use prime_server.Gateway.Http.Shown.{
  Shows, Returns, err-Returns, ok-Returns, weaken-Returns, weaken-Shows, error_response-Shows,
  throw_if-Returns, if-Returns, bind-Returns,
}
use prime_server.Gateway.Http.Acted.{
  action-Returns, pure-Returns, if-Returns_at, if-Returns_when, lifted-Returns,
}
use prime_server.Gateway.Content.{handle_fcc_internal_request}
use prime_server.Gateway.Content.Guarded.{
  IsPublic, serve_content-Returns, IsInternal, handle_fcc_internal_request-Shows,
}
use prime_server.Gateway.Proxy.{
  normalize_fcc_proxy_url, answer_of_proxy, proxy_info, proxy_result, match_result,
  handle_fcc_proxy_request,
}
use prime_server.Gateway.Requests.{require_session}
use prime_server.Gateway.Developer.Granted.{IsGranted, handle_blobs-Returns}
use prime_server.Gateway.Server.{
  clock_of, read_json_body, opened, logged_in, get_challenge, post_session, get_account,
  handle_developer_request, post_blob, post_recover, get_blob, describe, jobs_of, blob_route,
  public_route, caught, with_cors, respond, after_internal, other_route, developer_route,
  handle_request,
}

-- The three ways to the content of a blob.
pub data IsServed {W : Type 0} (setup : Setup W) (s : Site W) (request : Request) (bytes : Bytes)
    : Type 0 where
  by_id :
      request.method ≡ lit "GET"
      → (id : Str) → match_blob_path request.pathname ≡ some (id, Paths.content)
      → IsPublic setup s.world id bytes
      → IsServed setup s request bytes
  by_token : IsInternal setup s.world request bytes → IsServed setup s request bytes
  by_session : IsGranted setup s request bytes → IsServed setup s request bytes

module _ {W : Type 0} (setup : Setup W) {P : Bytes → Type 0} where
  proxy_info-Returns : Returns P (proxy_info setup)
  proxy_info-Returns =
      bind-Returns (setup.fetch_json (normalize_fcc_proxy_url setup.fcc_proxy_url ++ lit "/info")) _
        λ answer _.
          throw_if-Returns (not (is_ok_status answer.0)) _ _
            λ _. bind-Returns answer.1 _ λ value _. ok-Returns _ (record { shown = λ bytes h. cc })

  answer_of_proxy-Returns :
      (id : Str) (answer : ℕ × Result Str) → Returns P (answer_of_proxy setup id answer)
  answer_of_proxy-Returns id (status, body) =
      if-Returns (eqb status 404 || eqb status 202) _ _
        (λ _. ok-Returns _ (record { shown = λ bytes h. cc }))
        λ _.
          throw_if-Returns (not (is_ok_status status)) _ _
            λ _. bind-Returns body _ λ value _. ok-Returns _ (record { shown = λ bytes h. cc })

  proxy_result-Returns : (found : Option Str) → Returns P (proxy_result setup found)
  proxy_result-Returns none = ok-Returns _ (record { shown = λ bytes h. cc })
  proxy_result-Returns (some hex) =
      bind-Returns
        (setup.fetch_json
          (normalize_fcc_proxy_url setup.fcc_proxy_url ++ (lit "/action/result/0x" ++ hex)))
        _ λ answer _. answer_of_proxy-Returns (lit "0x" ++ hex) answer

  handle_fcc_proxy_request-Returns :
      (manager : Manager) (request : Request)
      → Returns P (handle_fcc_proxy_request setup manager request)
  unfolding handle_fcc_proxy_request
  handle_fcc_proxy_request-Returns manager request =
      throw_if-Returns (not (request.method == lit "GET")) _ _ λ _.
        bind-Returns (require_session setup manager request) _ λ _ _.
          throw_if-Returns (is_empty (normalize_fcc_proxy_url setup.fcc_proxy_url)) _ _ λ _.
            if-Returns (request.pathname == lit "/prime/v1/fcc/info") _ _ (λ _. proxy_info-Returns)
              λ _. proxy_result-Returns (match_result request.pathname)

  post_blob-Returns : (request : Request) (s : Site W) → Returns P (post_blob setup request s).1
  unfolding post_blob
  post_blob-Returns request s = action-Returns _ _ s λ s1 input _.
      action-Returns _ _ s1 λ s2 result _. pure-Returns _ s2 (record { shown = λ bytes h. cc })

  post_recover-Returns : (id : Str) (s : Site W) → Returns P (post_recover setup id s).1
  unfolding post_recover
  post_recover-Returns id s =
      action-Returns _ _ s λ s1 result _. pure-Returns _ s1 (record { shown = λ bytes h. cc })

  logged_in-Returns :
      (s : Site W) (made : Manager × Result Session) → Returns P (logged_in setup s made).1
  logged_in-Returns s (manager, ok r) = ok-Returns _ (record { shown = λ bytes h. cc })
  logged_in-Returns s (manager, err e) = err-Returns e

  opened-Returns :
      (s : Site W) (made : Result (Manager × Challenge)) → Returns P (opened setup s made).1
  opened-Returns s (ok (manager, c)) = ok-Returns _ (record { shown = λ bytes h. cc })
  opened-Returns s (err e) = err-Returns e

  post_session-Returns :
      (request : Request) (s : Site W) → Returns P (post_session setup request s).1
  unfolding post_session
  post_session-Returns request s = lifted-Returns (read_json_body setup request) _ s λ f _.
      logged_in-Returns s (
        create_session setup.crypto s.manager f.address f.nonce f.signature
          (clock_of f.now request.now))

  get_account-Returns : (request : Request) (s : Site W) → Returns P (get_account setup request s).1
  unfolding get_account
  get_account-Returns request s =
      action-Returns _ _ s λ s1 claims _. pure-Returns _ s1 (record { shown = λ bytes h. cc })

  get_challenge-Returns :
      (nonce : Str) (request : Request) (s : Site W)
      → Returns P (get_challenge setup nonce request s).1
  unfolding get_challenge
  get_challenge-Returns nonce request s = opened-Returns s (
      create_challenge setup.crypto s.manager (text_of (request.param (lit "address"))) nonce
        request.now)

module _ {W : Type 0} (setup : Setup W) (request : Request) (s : Site W) where
  handle_developer_request-Returns :
      (nonce : Str)
      → Returns (IsServed setup s request) (handle_developer_request setup nonce request s).1
  unfolding handle_developer_request prime_server.Base.Action.lift
  handle_developer_request-Returns nonce =
      if-Returns_at (request.method == lit "GET" && request.pathname == lit "/prime/v1") _ _
        (pure-Returns _ s (record { shown = λ bytes h. cc }))
        (if-Returns_at (starts_with request.pathname (lit "/prime/v1/fcc/")) _ _
          (handle_fcc_proxy_request-Returns setup s.manager request)
          (if-Returns_at
            (request.method == lit "GET" && request.pathname == lit "/prime/v1/auth/challenge") _ _
            (get_challenge-Returns setup nonce request s)
            (if-Returns_at
              (request.method == lit "POST" && request.pathname == lit "/prime/v1/auth/session") _ _
              (post_session-Returns setup request s)
              (if-Returns_at
                (request.method == lit "GET" && request.pathname == lit "/prime/v1/account") _ _
                (get_account-Returns setup request s)
                (weaken-Returns (λ bytes g. by_session g)
                  (handle_blobs-Returns setup s request))))))

  describe-Shows : {P : Bytes → Type 0} (found : Option BlobView) → Shows P (describe setup found)
  describe-Shows none = record { shown = λ bytes h. cc }
  describe-Shows (some b) = record { shown = λ bytes h. cc }

  jobs_of-Shows :
      {P : Bytes → Type 0} (list : Option (W → List (Job RebuildResult)))
      → Shows P (jobs_of setup list s.world)
  jobs_of-Shows none = record { shown = λ bytes h. cc }
  jobs_of-Shows (some list) = record { shown = λ bytes h. cc }

  get_blob-Returns : (id : Str) → Returns (IsServed setup s request) (get_blob setup id s).1
  unfolding get_blob reads
  get_blob-Returns id = ok-Returns _ (describe-Shows (setup.services.get_blob s.world id))

  blob_route-Returns :
      (route : Option (Str × Suffix))
      → match_blob_path request.pathname ≡ route
      → Returns (IsServed setup s request) (blob_route setup route request s).1
  blob_route-Returns none path = ok-Returns _ (record { shown = λ bytes h. cc })
  blob_route-Returns (some (id, recover)) path =
      if-Returns_at (request.method == lit "POST") _ _ (post_recover-Returns setup id s)
        (ok-Returns _ (record { shown = λ bytes h. cc }))
  blob_route-Returns (some (id, itself)) path =
      if-Returns_at (request.method == lit "GET") _ _ (get_blob-Returns id)
        (ok-Returns _ (record { shown = λ bytes h. cc }))
  blob_route-Returns (some (id, Paths.content)) path =
      if-Returns_when (request.method == lit "GET") _ _
        (λ get.
          weaken-Returns (λ bytes open_to_all. by_id ((str_beq_iff _ _).0 get) id path open_to_all)
            (serve_content-Returns setup s.world id request))
        (ok-Returns _ (record { shown = λ bytes h. cc }))

  public_route-Returns : Returns (IsServed setup s request) (public_route setup request s).1
  unfolding public_route reads
  public_route-Returns =
      if-Returns_at (request.method == lit "GET" && request.pathname == lit "/health") _ _
        (pure-Returns _ s (record { shown = λ bytes h. cc }))
        (if-Returns_at (request.method == lit "GET" && request.pathname == lit "/v1/recovery") _ _
          (ok-Returns _ (jobs_of-Shows setup.list_jobs))
          (if-Returns_at (request.method == lit "POST" && request.pathname == lit "/v1/blobs") _ _
            (post_blob-Returns setup request s)
            (blob_route-Returns (match_blob_path request.pathname) refl)))

module _ {W : Type 0} {P : Bytes → Type 0} where
  if-Shows_at :
      (t : Bool) (a b : Site W × Response)
      → Shows P a.1
      → Shows P b.1
      → Shows P (if t then a else b).1
  if-Shows_at true a b on_true on_false = on_true
  if-Shows_at false a b on_true on_false = on_false

  caught-Shows : (x : Site W × Result Response) → Returns P x.1 → Shows P (caught x).1
  caught-Shows (s', ok r) given = given.returned r refl
  caught-Shows (s', err e) given = error_response-Shows e

  with_cors-Shows :
      (setup : Setup W) (x : Site W × Response) → Shows P x.1 → Shows P (with_cors setup x).1
  with_cors-Shows setup (s', r) given = record { shown = given.shown }

-- An answer, and the answer to an error.
module _ {W : Type 0} (setup : Setup W) (request : Request) (s : Site W) where
  respond-Shows :
      (m : Action (Site W) Response)
      → Returns (IsServed setup s request) (m s).1
      → Shows (IsServed setup s request) (respond setup m s).1
  unfolding respond
  respond-Shows m given = caught-Shows (m s) given

  developer_route-Shows :
      (nonce : Str) → Shows (IsServed setup s request) (developer_route setup nonce request s).1
  developer_route-Shows nonce =
      if-Shows_at (request.method == lit "OPTIONS") _ _ (record { shown = λ bytes h. cc })
        (with_cors-Shows setup (respond setup (handle_developer_request setup nonce request) s) (
          respond-Shows (handle_developer_request setup nonce request)
            (handle_developer_request-Returns setup request s nonce)))

  other_route-Shows :
      (nonce : Str) → Shows (IsServed setup s request) (other_route setup nonce request s).1
  other_route-Shows nonce =
      if-Shows_at (starts_with request.pathname (lit "/prime/v1")) _ _ (developer_route-Shows nonce)
        (respond-Shows (public_route setup request) (public_route-Returns setup request s))

  after_internal-Shows :
      (nonce : Str) (x : Result (Option Response))
      → handle_fcc_internal_request setup s.world request ≡ x
      → Shows (IsServed setup s request) (after_internal setup x nonce request s).1
  after_internal-Shows nonce (ok (some r)) answered =
      weaken-Shows (λ bytes kept. by_token kept)
        (handle_fcc_internal_request-Shows setup s.world request r answered)
  after_internal-Shows nonce (ok none) answered = other_route-Shows nonce
  after_internal-Shows nonce (err e) answered = error_response-Shows e

  -- In any state of the server, a response that holds bytes of a content is one of three: the content
  -- of a blob, for a GET by its id, whose policy is not compute-only, by its number and its name; the ciphertext
  -- on the internal route, for a GET with the configured token, which is not empty, of a stored blob
  -- that is confidential and compute-only; or an object of the developer API, for a GET of a session
  -- whose wallet passes the check of access, where the object has not expired and is not compute-only.
  -- In each case the bytes are all that was read of that blob, or a range inside it.
  pub handle_request-IsServed :
      (nonce : Str) (bytes : Bytes)
      → (handle_request setup nonce request s).1.body ≡ content bytes
      → IsServed setup s request bytes
  unfolding handle_request
  handle_request-IsServed nonce bytes h =
      (if-Shows_at (starts_with request.pathname (lit "/internal/fcc/")) _ _
          (after_internal-Shows nonce _ refl) (other_route-Shows nonce)).shown
        bytes h
