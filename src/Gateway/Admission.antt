-- ===== src/Gateway/Admission.antt =====
-- What `uploadRegisteredBlob` of rpc/src/server.mjs checks before it places the shards of a blob.
use prime_server.Base.{
  ℕ, Str, not, ◌&&◌, ◌||◌, lit, length, ◌==◌, str_eq, eqb, leb, ltb, is_empty, to_lower, plain,
  Result, ◌>>◌, throw_if,
}
use prime_server.Registry.{BlobView}
use prime_server.Registry.Methods.{is_pending}
use prime_server.Erasure.{Bytes, Config, Encoded}
use prime_server.Gateway.{normalize_hex}
use prime_server.Gateway.Registration.{is_user}

module _ (keccak256 : Str → Str) where
  -- `now` is the time in seconds.
  unfoldable pub check_registration : BlobView → Str → Str → Str → Bytes → ℕ → Result (Unit {0})
  check_registration b blob_id blob_name account input now = do
    throw_if (not (normalize_hex b.blob_id == normalize_hex blob_id))
        (plain (lit "registered blob ID does not match the request"))
    throw_if (not (is_user b.origin)) (plain (lit "public uploads require a user-registered blob"))
    throw_if (not (to_lower b.owner == to_lower account))
        (plain (lit "registered blob owner does not match the account"))
    throw_if (not (b.blob_name == blob_name))
        (plain (lit "registered blob name does not match the request"))
    throw_if
        (not (is_empty b.name_hash)
          && not (normalize_hex b.name_hash == normalize_hex (keccak256 blob_name)))
        (plain (lit "registered blob name hash does not match the request"))
    throw_if (not (is_pending b.status)) (plain (lit "registered blob is no longer pending"))
    throw_if (ltb 0 b.expires_at && leb b.expires_at now)
        (plain (lit "registered blob has expired"))
    throw_if (not (eqb b.size (length input)))
        (plain (lit "input size does not match the registered blob"))

-- The checks after the input is encoded.
unfoldable pub check_encoding : Config → BlobView → Encoded → Result (Unit {0})
check_encoding config b encoded = do
  throw_if (not (normalize_hex encoded.clay_chunkset_root == normalize_hex b.commitment))
      (plain (lit "locally recomputed commitment does not match the registered commitment"))
  throw_if (not (eqb encoded.original_size b.size))
      (plain (lit "encoded size does not match the registered blob"))
  throw_if
      (not (eqb config.chunk_size_bytes b.chunk_size)
        || not (eqb config.k b.data_shards)
        || not (eqb config.n b.total_shards))
      (plain (lit "registered erasure parameters are not supported"))
