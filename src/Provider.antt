-- ===== src/Provider.antt =====
-- The requests for shards that a provider serves (provider/src/server.mjs), from the parsed path on.
-- `sign` is the signature of the provider's identity, in base64.
pub mod Answers
pub mod Listener
mod Tests
use prime_server.Base.{
  ℕ, ◌+◌, ◌-◌, ◌*◌, Str, Bool, true, false, ◌||◌, Option, none, some, List, [], ◌∷◌, ◌++◌, lit,
  is_empty, includes, decimal, length, ltb, ◌==◌, str_eq, if◌then◌else◌, Error, plain, gateway,
  unauthenticated, Result, ok, err, ◌>>=◌, ◌>>◌, throw_if,
}
use prime_server.Erasure.{Bytes}
use prime_server.Range.{Range, whole, invalid, range, provider_parse_range}
use prime_server.Storage.{
  Metadata, Disk, put_shard, get_shard_metadata, ReadShard, read_shard, conflict,
}

pub data Response : Type 0 where
  failure : (status : ℕ) (message : Str) → Response
  unsatisfiable : (size : ℕ) → Response  -- status 416
  stored : (metadata : Metadata) (signed_payload signature : Str) → Response  -- status 201
  complete : (metadata : Metadata) (bytes : Bytes) → Response  -- status 200
  -- Status 206, with the start, the last byte and the size of the header `content-range`.
  partial : (metadata : Metadata) (bytes : Bytes) (start last size : ℕ) → Response

abbrev pub max_body_bytes : ℕ
max_body_bytes = 64 * 1024 * 1024

abbrev pub too_large : Error
too_large = plain (lit "request body too large")

-- The loop of `readRequestBody`, with the number of bytes that were read.
abbrev pub read_chunks : ℕ → List Bytes → Result Bytes
read_chunks total [] = ok []
read_chunks total (chunk ∷ chunks) = do
  throw_if (ltb max_body_bytes (total + length chunk)) too_large
  rest ← read_chunks (total + length chunk) chunks
  ok (chunk ++ rest)

unfoldable pub read_request_body : ℕ → List Bytes → Result Bytes
read_request_body declared_length chunks = do
  throw_if (ltb max_body_bytes declared_length) too_large
  read_chunks 0 chunks

-- `acknowledgementPayload`; an absent context is empty.
unfoldable pub acknowledgement_payload : Str → Str → Metadata → Str
acknowledgement_payload context provider_id m =
    if is_empty context
    then provider_id
      ++ (b':' ∷ m.blob_id)
      ++ (b':' ∷ m.shard_index)
      ++ (b':' ∷ m.commitment)
      ++ (b':' ∷ decimal m.size)
    else context

abbrev pub is_bad_request : Str → Bool
is_bad_request message =
    includes message (lit "too large")
    || includes message (lit "mismatch")
    || includes message (lit "invalid")

-- The status of an error: of a file that is not there, of a conflict, and by the message.
unfoldable pub failed : Error → Response
failed (gateway status message) = failure 500 message
failed (unauthenticated message) = failure 500 message
failed (plain message) =
    if message == lit "ENOENT"
    then failure 404 (lit "shard not found")
    else if message == lit "shard already exists with different content"
    then failure 409 message
    else failure (if is_bad_request message then 400 else 500) message

abbrev pub or_failed : Result Response → Response
or_failed (ok r) = r
or_failed (err e) = failed e

-- The rest of a GET request, with the shard's metadata and the parsed range.
abbrev pub serve_range : Disk → Str → Str → Metadata → Range → Result Response
serve_range disk blob_id shard_index m invalid = ok (unsatisfiable m.size)
serve_range disk blob_id shard_index m whole = do
  result ← read_shard disk blob_id shard_index 0 (some m.size)
  ok (complete m result.bytes)
serve_range disk blob_id shard_index m (range start end_inclusive) = do
  result ← read_shard disk blob_id shard_index start (some (end_inclusive + 1))
  ok (partial m result.bytes result.start (result.end_exclusive - 1) result.size)

unfoldable pub serve_get : Disk → Str → Str → Option Str → Response
unfolding get_shard_metadata read_shard provider_parse_range failed
serve_get disk blob_id shard_index header = or_failed (do
  m ← get_shard_metadata disk blob_id shard_index
  serve_range disk blob_id shard_index m (provider_parse_range header m.size))

module _ (provider_id : Str) (sign : Str → Str) (sha256 : Bytes → Str) where
  abbrev pub acknowledged : Str → Disk → Result (Disk × Metadata) → Disk × Response
  acknowledged context disk (err e) = (disk, failed e)
  acknowledged context disk (ok (disk', m)) =
      let payload = acknowledgement_payload context provider_id m in
      (disk', stored m payload (sign payload))

  unfoldable pub serve_put :
      Disk → Str → Str → ℕ → List Bytes → Option Str → Str → ℕ → Disk × Response
  unfolding put_shard read_request_body failed
  serve_put disk blob_id shard_index declared_length chunks commitment context now =
      acknowledged context disk (do
        content ← read_request_body declared_length chunks
        put_shard sha256 disk blob_id shard_index content commitment now)
