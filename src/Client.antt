-- ===== src/Client.antt =====
-- The upload of a registered blob by the client of the SDK (`uploadRegisteredBlob` of
-- sdk/src/client.mjs) without a policy: its checks, its path and its headers.
pub mod Accepted
mod Tests
use prime_server.Base.{
  ℕ, Str, not, ◌||◌, Option, none, some, List, [], ◌∷◌, ◌++◌, lit, length, is_empty, decimal, eqb,
  plain, Result, ok, ◌>>=◌, ◌>>◌, throw_if, require,
}
use prime_server.Base.Uri.{encode_uri_component}
use prime_server.Erasure.{Bytes}
use prime_server.Prepare.{Prepared}
use prime_server.Gateway.{Headers}

abbrev pub upload_headers : Str → Prepared → Bytes → Headers
upload_headers content_type prepared input =
    (lit "content-type", content_type)
    ∷ (lit "content-length", decimal (length input))
    ∷ (lit "x-prime-blob-id", prepared.blob_id)
    ∷ (lit "x-prime-commitment", prepared.commitment)
    ∷ (lit "x-prime-chunk-size", decimal prepared.chunk_size)
    ∷ (lit "x-prime-data-shards", decimal prepared.data_shards)
    ∷ (lit "x-prime-total-shards", decimal prepared.total_shards)
    ∷ (lit "x-prime-expires-at", decimal prepared.expires_at)
    ∷ []

-- The path below the client's base URL, and the headers, of the PUT.
unfoldable pub upload_request : Str → Str → Prepared → Bytes → Result (Str × Headers)
upload_request account content_type prepared input = do
  throw_if (is_empty prepared.blob_id || is_empty prepared.name || is_empty prepared.commitment)
      (plain (lit "prepared blob metadata is incomplete"))
  throw_if (not (eqb (length input) prepared.size))
      (plain (lit "upload body does not match the prepared blob size"))
  account_part ← require (encode_uri_component account) (plain (lit "URI malformed"))
  name_part ← require (encode_uri_component prepared.name) (plain (lit "URI malformed"))
  ok (
    lit "/blobs/" ++ (account_part ++ (b'/' ∷ name_part)),
    upload_headers content_type prepared input,
  )
