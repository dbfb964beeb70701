-- ===== src/Gateway/Read.antt =====
-- `readProviderShard` and `readBlob` of rpc/src/server.mjs: a blob is read from the shards of its
-- providers, and decoded when some are missing.
pub mod Collected
pub mod Original
mod Tests
use prime_server.Base.{
  ℕ, Str, Bool, not, ◌&&◌, ◌||◌, Option, none, some, List, [], ◌∷◌, ◌++◌, map, lit, length, take,
  keep, ltb, leb, eqb, lookup, get_elem?, ◌==◌, str_eq, nat_eq, if◌then◌else◌, decimal, sort,
  concat, upto, from_entries, is_empty, Error, plain, Result, ok, err, ◌>>=◌, ◌>>◌, throw_if,
  require, Table,
}
use prime_server.Registry.{Acknowledgement, BlobView}
use prime_server.Erasure.{Bytes, Config, Clay, Decoded, decode}
use prime_server.Gateway.{Endpoint, Fetch, find_provider}

-- `response.ok`.
abbrev pub is_ok_status : ℕ → Bool
is_ok_status status = leb 200 status && ltb status 300

abbrev returned : Endpoint → Str → Error
returned p what = plain (lit "provider " ++ (p.provider_id ++ (lit " returned " ++ what)))

abbrev pub shard_url : Endpoint → Str → ℕ → Str
shard_url p blob_id shard_index =
    p.url ++ (lit "/v1/shards/" ++ (blob_id ++ (b'/' ∷ decimal shard_index)))

pub record ReadResult : Type 0 where
  pub blob : BlobView
  pub bytes : Bytes
  pub missing_shards : List ℕ
  pub recovered : Bool
  pub recovered_shards : List (ℕ × Option Bytes)
  pub content_hash : Str

-- The acknowledgements by shard; of several for a shard the last one counts.
abbrev pub by_shard : List Acknowledgement → List (ℕ × Acknowledgement)
by_shard [] = []
by_shard (a ∷ others) = (a.shard_index, a) ∷ by_shard others

abbrev pub acknowledgements_of : BlobView → Table ℕ Acknowledgement
acknowledgements_of b = from_entries (by_shard b.acknowledgements) []

-- `available` and `missing` after the loop over the shards.
abbrev pub collect : (ℕ → Option Bytes) → List ℕ → List (ℕ × Bytes) × List ℕ
collect attempt [] = ([], [])
collect attempt (i ∷ is) =
    let (available, missing) = collect attempt is in
    elim (attempt i) [
      | some bytes ↦ ((i, bytes) ∷ available, missing)
      | none ↦ (available, i ∷ missing)
    ]

abbrev pub by_index : ℕ × Bytes → ℕ × Bytes → Bool
by_index (i, _) (j, _) = leb i j

abbrev pub bytes_of : List (ℕ × Bytes) → List Bytes
bytes_of [] = []
bytes_of ((_, b) ∷ rest) = b ∷ bytes_of rest

-- `Buffer.concat(available.filter(…).sort(…).map(…)).subarray(0, blob.size)`.
unfoldable pub join_shards : List (ℕ × Bytes) → BlobView → Bytes
join_shards available b =
    take b.size (concat (bytes_of (sort by_index (keep (λ (i, _). ltb i b.data_shards) available))))

abbrev pub chunks_for : List Bytes → List ℕ → List (ℕ × Option Bytes)
chunks_for chunks [] = []
chunks_for chunks (i ∷ is) = (i, get_elem? chunks i) ∷ chunks_for chunks is

abbrev pub not_enough : ℕ → ℕ → Error
not_enough have want =
    plain
      (lit "not enough healthy shards for recovery: " ++ (decimal have ++ (b'/' ∷ decimal want)))

module _ (sha256 : Bytes → Str) (fetch : Fetch) where
  unfoldable pub read_provider_shard : Endpoint → Str → ℕ → Str → ℕ → Result Bytes
  read_provider_shard p blob_id shard_index expected_commitment expected_size = do
    (status, bytes) ← fetch (shard_url p blob_id shard_index)
    throw_if (not (is_ok_status status)) (returned p (decimal status))
    throw_if (not (eqb (length bytes) expected_size)) (returned p (lit "the wrong shard size"))
    throw_if (not (sha256 bytes == expected_commitment)) (returned p (lit "a corrupt shard"))
    ok bytes

  -- One round of the loop of `readBlob`: the shard's bytes, or `none` where the shard is missing.
  unfoldable pub read_shard : BlobView → Str → List Endpoint → ℕ → Option Bytes
  unfolding find_provider
  read_shard b blob_id providers i = elim (find_provider providers (lookup i b.placement)) [
    | none ↦ none
    | some p ↦ elim (lookup i (acknowledgements_of b)) [
      | none ↦ none
      | some a ↦ elim (read_provider_shard p blob_id i a.commitment a.size) [
        | ok bytes ↦ some bytes
        | err _ ↦ none
      ]
    ]
  ]

module _ (sha256 : Bytes → Str) (clay : Clay) (config : Config) where
  abbrev pub read_result : BlobView → Bytes → List ℕ → List (ℕ × Option Bytes) → ReadResult
  read_result b bytes missing recovered_shards = record {
    blob = b;
    bytes = bytes;
    missing_shards = missing;
    recovered = not (is_empty missing);
    recovered_shards = recovered_shards;
    content_hash = sha256 bytes;
  }

  -- The rest of `readBlob`, from the count of the shards on.
  unfoldable pub assemble : BlobView → List (ℕ × Bytes) → List ℕ → Result ReadResult
  assemble b available missing = do
    throw_if (ltb (length available) b.data_shards) (not_enough (length available) b.data_shards)
    elim missing [
      | [] ↦ ok (read_result b (join_shards available b) [] [])
      | i ∷ is ↦ do
        decoded ← decode sha256 clay config available (i ∷ is) b.size
        ok (read_result b decoded.recovered (i ∷ is) (chunks_for decoded.chunks (i ∷ is)))
    ]

  -- `found` is what `registry.getBlob(blobId)` returned.
  unfoldable pub read_blob : Fetch → Option BlobView → Str → List Endpoint → Result ReadResult
  read_blob fetch found blob_id providers = do
    b ← require found (plain (lit "blob not found"))
    let (available, missing) =
        collect (read_shard sha256 fetch b blob_id providers) (upto b.total_shards)
    assemble b available missing
