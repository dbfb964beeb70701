-- ===== src/Gateway/Http.antt =====
-- Bodies, ranges and errors of the gateway's responses: `readRequestBody`, `objectHeaders` and what
-- the routes share (rpc/src/server.mjs). The headers of a JSON body that depend on nothing else, its
-- type and length, are left out.
pub mod Shown
pub mod Acted
use prime_server.Base.{
  ℕ, ◌+◌, Str, Bool, true, false, not, ◌&&◌, ◌||◌, Option, none, some, List, [], ◌∷◌, ◌++◌, lit,
  length, lookup, insert, includes, ltb, eqb, is_empty, decimal, ◌==◌, str_eq, if◌then◌else◌, Error,
  plain, gateway, unauthenticated, Result, ok, err, ◌>>=◌, ◌>>◌, throw_if,
}
use prime_server.Erasure.{Bytes}
use prime_server.Range.{Range, whole, invalid, range, parse_range, slice}
use prime_server.Gateway.{Headers}
use prime_server.Gateway.Site.{max_body_bytes, Request, Body, no_body, content, failure, Response}

abbrev pub response : ℕ → Headers → Body → Response
response status headers body = record { status = status; headers = headers; body = body }

abbrev pub too_large : Error
too_large = plain (lit "blob is larger than the first chunkset capacity")

-- The loop over the chunks of the body, with the number of the bytes before.
unfoldable pub read_chunks : ℕ → List Bytes → Result Bytes
read_chunks total [] = if eqb total 0 then err (plain (lit "blob body is required")) else ok []
read_chunks total (chunk ∷ chunks) = do
  throw_if (ltb max_body_bytes (total + length chunk)) too_large
  rest ← read_chunks (total + length chunk) chunks
  ok (chunk ++ rest)

unfoldable pub read_request_body : (Str → ℕ → Bool) → Request → Result Bytes
read_request_body is_above request = do
  throw_if (is_declared (lookup (lit "content-length") request.headers)) too_large
  read_chunks 0 request.chunks
  where
    -- `Number(request.headers["content-length"] || 0) > MAX_BODY_BYTES`.
    is_declared : Option Str → Bool
    is_declared none = false
    is_declared (some value) = not (is_empty value) && is_above value max_body_bytes

-- The response with the range or the whole of the bytes; the headers are those of a whole content but
-- its length.
abbrev pub answer_range : Range → Bytes → Headers → Response
answer_range invalid bytes headers =
    response 416 ((lit "content-range", lit "bytes */" ++ decimal (length bytes)) ∷ [])
      (failure (lit "range not satisfiable"))
answer_range whole bytes headers =
    response 200 (insert (lit "content-length") (decimal (length bytes)) headers) (content bytes)
answer_range (range start last) bytes headers =
    response 206
      (insert (lit "content-range")
        (lit "bytes "
          ++ (decimal start ++ (b'-' ∷ (decimal last ++ (b'/' ∷ decimal (length bytes))))))
        (insert (lit "content-length") (decimal (length (slice bytes start last))) headers))
      (content (slice bytes start last))

unfoldable pub serve_range : Option Str → Bytes → Headers → Response
serve_range header bytes headers = answer_range (parse_range header (length bytes)) bytes headers

-- The status of an error that is no `GatewayError`, by its message.
abbrev pub status_of_message : Str → ℕ
status_of_message message =
    if includes message (lit "already exists")
    then 409
    else if includes message (lit "required")
        || includes message (lit "larger")
        || includes message (lit "requires four")
        || includes message (lit "mismatch")
        || includes message (lit "invalid")
    then 400
    else 502

-- The `catch` of the server.
unfoldable pub error_response : Error → Response
error_response (plain message) = response (status_of_message message) [] (failure message)
error_response (gateway status message) = response status [] (failure message)
error_response (unauthenticated message) =
    response 401 ((lit "www-authenticate", lit "Bearer") ∷ []) (failure message)
