-- ===== src/Gateway/Developer/Granted.antt =====
-- Who is served an object of the developer API.
use prime_server.Base.{
  ◌<◌, Str, false, not, ◌≡◌, refl, Option, none, some, ◌++◌, lit, lookup, ◌==◌, str_eq,
  same_text_of, gateway, ok, err, arith,
}
use prime_server.Base.Action.{lift}
use prime_server.Erasure.{Bytes}
use prime_server.Auth.{Claims}
use prime_server.Objects.{Object, get_object}
use prime_server.Gateway.{text_of}
use prime_server.Gateway.Access.{
  require_account_owner, is_compute_only, require_selected_wallet_ciphertext_access,
}
use prime_server.Gateway.Read.{ReadResult}
use prime_server.Gateway.Paths.{parse_developer_blob_path}
use prime_server.Gateway.Site.{Request, Details, Site, Setup}
use prime_server.Gateway.Http.Shown.{
  IsPart, Returns, err-Returns, ok-Returns, throw_if-Returns, if-Returns, unit-Returns,
  bind-Returns, serve_range-Shows, weaken-Returns,
}
use prime_server.Gateway.Http.Acted.{action-Returns, pure-Returns, if-Returns_at, lifted-Returns}
use prime_server.Gateway.Content.{read_of, read_headers}
use prime_server.Gateway.Requests.{seconds, require_session}
use prime_server.Gateway.Serve.{is_expired, object_headers, serve_object}
use prime_server.Gateway.Developer.{
  put_blob, list_blobs, handle_object, handle_path, handle_found, handle_blobs,
}

-- The bytes are a part of what is read of an object that is in time and not kept for computations, for
-- a session wallet that passes the check of its access.
pub record IsAdmitted {W : Type 0} (setup : Setup W) (w : W) (session_address account : Str)
    (request : Request) (o : Object Details) (bytes : Bytes) : Type 0 where
  pub get : request.method ≡ lit "GET"
  pub in_time : seconds request.now < o.fields.expires_at
  pub allowed :
      require_selected_wallet_ciphertext_access request.headers session_address account
        (some (o.blob_id, o.fields.access_policy))
        (setup.access w)
      ≡ ok tt
  pub not_for_compute : is_compute_only o.fields.access_policy ≡ false
  pub result : ReadResult
  pub read : read_of setup w o.blob_id ≡ ok result
  pub part : IsPart result.bytes bytes

module _ {W : Type 0} (setup : Setup W) where
  serve_object-Returns :
      (w : W) (session_address account : Str) (request : Request) (o : Object Details)
      → Returns
          (IsAdmitted setup w session_address account request o)
          (serve_object setup w session_address account request o)
  unfolding serve_object
  serve_object-Returns w session_address account request o =
      throw_if-Returns (is_expired request.now o) _ _ λ time.
        if-Returns (request.method == lit "PUT") _ _
          (λ _.
            unit-Returns (require_account_owner session_address account)
              (err (gateway 409 (lit "blob name already exists"))) λ _. err-Returns _)
          λ _.
            unit-Returns
              (require_selected_wallet_ciphertext_access request.headers session_address account
                (some (o.blob_id, o.fields.access_policy)) (setup.access w))
              _
              λ allowed.
                if-Returns (request.method == lit "HEAD") _ _
                  (λ _. ok-Returns _ (record { shown = λ bytes h. cc }))
                  λ _. throw_if-Returns (not (request.method == lit "GET")) _ _ λ get.
                    throw_if-Returns (is_compute_only o.fields.access_policy) _ _ λ closed.
                      bind-Returns (read_of setup w o.blob_id) _ λ result read. ok-Returns _ (
                        serve_range-Shows (lookup (lit "range") request.headers) result.bytes
                          (object_headers o ++ read_headers result)
                          λ bytes part. record {
                            get = same_text_of _ _ get;
                            in_time = ground arith;
                            allowed = allowed;
                            not_for_compute = closed;
                            result = result;
                            read = read;
                            part = part;
                          })

  put_blob-Returns :
      {P : Bytes → Type 0} (account name : Str) (request : Request) (s : Site W)
      → Returns P (put_blob setup account name request s).1
  unfolding put_blob
  put_blob-Returns account name request s = action-Returns _ _ s λ s1 checked _.
      action-Returns _ _ s1 λ s2 result _. action-Returns _ _ s2 λ s3 b _.
        action-Returns _ _ s3 λ s4 stored _. pure-Returns _ s4 (record { shown = λ bytes h. cc })

  list_blobs-Returns :
      {P : Bytes → Type 0} (session_address account : Str) (request : Request) (s : Site W)
      → Returns P (list_blobs setup session_address account request s).1
  unfolding list_blobs
  list_blobs-Returns session_address account request s =
      action-Returns _ _ s λ s1 _ _. pure-Returns _ s1 (record { shown = λ bytes h. cc })

-- The same with the path, the session and the object that the request names.
pub record IsGranted {W : Type 0} (setup : Setup W) (s : Site W) (request : Request) (bytes : Bytes)
    : Type 0 where
  pub account : Str
  pub name : Str
  pub path :
      parse_developer_blob_path setup.crypto.get_address request.pathname
      ≡ ok (some (account, some name))
  pub claims : Claims
  pub session : require_session setup s.manager request ≡ ok claims
  pub o : Object Details
  pub found : get_object setup.encode_name setup.before s.objects account name ≡ some o
  pub admitted : IsAdmitted setup s.world (text_of claims.address) account request o bytes

module _ {W : Type 0} (setup : Setup W) (s : Site W) (request : Request) where
  handle_object-Returns :
      (session_address account name : Str) (found : Option (Object Details)) {P : Bytes → Type 0}
      → ((o : Object Details)
          → found ≡ some o
          → (bytes : Bytes) → IsAdmitted setup s.world session_address account request o bytes
          → P bytes)
      → Returns P (handle_object setup session_address account name request found s).1
  unfolding handle_object
  handle_object-Returns session_address account name none next =
      if-Returns_at (request.method == lit "PUT") _ _
        (action-Returns (lift (require_account_owner session_address account)) _ s
          λ s1 _ _. put_blob-Returns setup account name request s1)
        (err-Returns (gateway 404 (lit "blob not found")))
  handle_object-Returns session_address account name (some o) next =
      weaken-Returns (next o refl)
        (serve_object-Returns setup s.world session_address account request o)

  handle_path-Returns :
      (path : Str × Option Str)
      → parse_developer_blob_path setup.crypto.get_address request.pathname ≡ ok (some path)
      → (claims : Claims) → require_session setup s.manager request ≡ ok claims
      → Returns
          (IsGranted setup s request)
          (handle_path setup path (text_of claims.address) request s).1
  handle_path-Returns (account, none) path claims session =
      list_blobs-Returns setup (text_of claims.address) account request s
  handle_path-Returns (account, some name) path claims session =
      handle_object-Returns (text_of claims.address) account name _ λ o found bytes admitted.
        record {
          account = account;
          name = name;
          path = path;
          claims = claims;
          session = session;
          o = o;
          found = found;
          admitted = admitted;
        }

  handle_found-Returns :
      (found : Option (Str × Option Str))
      → parse_developer_blob_path setup.crypto.get_address request.pathname ≡ ok found
      → Returns (IsGranted setup s request) (handle_found setup found request s).1
  handle_found-Returns none parsed = ok-Returns _ (record { shown = λ bytes h. cc })
  handle_found-Returns (some path) parsed =
      lifted-Returns (require_session setup s.manager request) _ s
        λ claims session. handle_path-Returns path parsed claims session

  pub handle_blobs-Returns : Returns (IsGranted setup s request) (handle_blobs setup request s).1
  unfolding handle_blobs
  handle_blobs-Returns =
      lifted-Returns (parse_developer_blob_path setup.crypto.get_address request.pathname) _ s
        λ found parsed. handle_found-Returns found parsed
