-- ===== src/Gateway/Requests.antt =====
-- What the developer API checks of a request: `bearerToken` of rpc/src/auth.mjs, `requireSession`
-- and the first part of a PUT in `handleDeveloperRequest` (rpc/src/server.mjs).
use prime_server.Base.{
  ℕ, ◌/◌, Str, Bool, ◌&&◌, ◌||◌, Option, none, some, [], ◌∷◌, lit, lookup, to_lower, leb, eqb, ◌==◌,
  str_eq, take, drop, if◌then◌else◌, plain, gateway, unauthenticated, Result, ok, err, ◌>>=◌, ◌>>◌,
  throw_if, not,
}
use prime_server.Registry.{BlobView}
use prime_server.Erasure.{Bytes}
use prime_server.Auth.{Claims, Manager, verify_token}
use prime_server.Gateway.{Headers, text_of}
use prime_server.Gateway.Access.{require_account_owner}
use prime_server.Gateway.Registration.{require_blob_id_header, assert_registration_matches_request}
use prime_server.Gateway.Site.{Request, Setup}
use prime_server.Gateway.Http.{read_request_body}

-- `/^Bearer\s+(.+)$/i`: the white space of a header's value, and what `(.+)` takes of the text after
-- its first white space.
abbrev is_space : ℕ → Bool
is_space c = leb 9 c && leb c 13 || eqb c 32 || eqb c 160

abbrev after_space : Str → Option Str
after_space [] = none
after_space (c ∷ s) = elim (if is_space c then after_space s else none) [
  | some rest ↦ some rest
  | none ↦ some (c ∷ s)
]

abbrev after_scheme : Str → Option Str
after_scheme [] = none
after_scheme (c ∷ s) = if is_space c then after_space s else none

unfoldable pub bearer_token : Headers → Option Str
bearer_token headers =
    let value : Str = text_of (lookup (lit "authorization") headers) in
    if to_lower (take 6 value) == lit "bearer" then after_scheme (drop 6 value) else none

-- The clock in seconds.
abbrev pub seconds : ℕ → ℕ
seconds now = now / 1000

module _ {W : Type 0} (setup : Setup W) where
  abbrev pub as_challenge : Result Claims → Result Claims
  as_challenge (ok claims) = ok claims
  as_challenge (err (plain message)) = err (unauthenticated message)
  as_challenge (err (gateway _ message)) = err (unauthenticated message)
  as_challenge (err (unauthenticated message)) = err (unauthenticated message)

  unfoldable pub require_session : Manager → Request → Result Claims
  require_session manager request =
      as_challenge (verify_token setup.crypto manager (bearer_token request.headers) request.now)

  -- The blob's id, its registration and the input of a PUT.
  unfoldable pub check_upload : Str → Str → Request → W → Result (Str × Option BlobView × Bytes)
  check_upload account name request w = do
    blob_id ← require_blob_id_header request.headers
    assert_registration_matches_request setup.keccak256 setup.number
        (setup.services.get_blob w blob_id) blob_id account name request.headers
        (seconds request.now)
    input ← read_request_body setup.is_above request
    ok (blob_id, setup.services.get_blob w blob_id, input)

-- The checks of a listing.
unfoldable pub check_listing : Str → Str → Request → Result (Unit {0})
check_listing session_address account request = do
  require_account_owner session_address account
  throw_if (not (request.method == lit "GET")) (gateway 405 (lit "method not allowed"))
