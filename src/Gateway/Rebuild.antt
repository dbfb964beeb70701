-- ===== src/Gateway/Rebuild.antt =====
-- `rebuildBlob` of rpc/src/server.mjs: the missing shards of a blob are decoded and stored again.
pub mod Healthy
pub mod Stuck
mod Tests
use prime_server.Base.{
  ℕ, Str, Bool, not, Option, none, some, List, [], ◌∷◌, ◌++◌, lit, length, lookup, nat_eq, is_empty,
  Error, plain, Result, throw_if, require,
}
use prime_server.Base.Action.{Action, pure, lift, reads, ◌>>=◌, ◌>>◌}
use prime_server.Registry.{Status, BlobView}
use prime_server.Erasure.{Bytes, Config, Clay}
use prime_server.Gateway.{Endpoint, find_provider, text_of}
use prime_server.Gateway.Read.{ReadResult, read_blob}
use prime_server.Gateway.Services.{Services, PutReply}
use prime_server.Gateway.Upload.{context_of, upload_shard}

-- An entry of `rebuiltShards`.
pub record RebuiltShard : Type 0 where
  pub shard_index : ℕ
  pub provider_id : Str
  pub commitment : Str

pub record RebuildResult : Type 0 where
  pub blob_id : Str
  pub rebuilt_shards : List RebuiltShard
  pub status : Status
  pub content_hash : Str

abbrev pub is_required : Option Str → Error
is_required id = plain (lit "provider " ++ (text_of id ++ lit " is required for shard rebuild"))

-- `Buffer.from(result.recoveredShards[shardIndex])`, which throws if there are no bytes.
abbrev pub recovered_shard : ReadResult → ℕ → Result Bytes
recovered_shard result i = elim (lookup i result.recovered_shards) [
  | none ↦
      require none
        (plain (lit "The first argument must be of type string or an instance of Buffer"))
  | some bytes ↦
      require bytes
        (plain (lit "The first argument must be of type string or an instance of Buffer"))
]

abbrev pub rebuild_result : Str → List RebuiltShard → ReadResult → RebuildResult
rebuild_result blob_id shards result = record {
  blob_id = blob_id;
  rebuilt_shards = shards;
  status = result.blob.status;
  content_hash = result.content_hash;
}

module _ {W : Type 0} (services : Services W) (sha256 : Bytes → Str) (clay : Clay)
    (config : Config) where
  -- `readBlob` in a state of the registry and the providers.
  abbrev pub read_at : Str → List Endpoint → W → Result ReadResult
  read_at blob_id providers w =
      read_blob sha256 clay config (services.fetch w) (services.get_blob w blob_id) blob_id
        providers

  unfoldable pub read : Str → List Endpoint → Action W ReadResult
  read blob_id providers w = (w, read_at blob_id providers w)

  -- One round of the loop over the missing shards.
  unfoldable pub rebuild_shard : ReadResult → Str → List Endpoint → ℕ → Action W RebuiltShard
  rebuild_shard result blob_id providers i = do
    p ← lift (
        require (find_provider providers (lookup i result.blob.placement))
          (is_required (lookup i result.blob.placement)))
    bytes ← lift (recovered_shard result i)
    context ←
        reads
          (context_of services result.blob blob_id p.provider_id i (sha256 bytes) (length bytes))
    services.start_recovery blob_id i
    services.reassign_shard blob_id i p.provider_id
    receipt ← upload_shard services p blob_id i bytes (sha256 bytes) context
    services.acknowledge_shard (record {
      blob_id = blob_id;
      shard_index = i;
      provider_id = p.provider_id;
      commitment = receipt.commitment;
      size = receipt.size;
      ack_context = context;
      signed_payload = receipt.signed_payload;
      signature = receipt.signature;
    })
    services.record_rebuilt_shard blob_id i p.provider_id receipt.commitment
    pure (record { shard_index = i; provider_id = p.provider_id; commitment = receipt.commitment })

  unfoldable pub rebuild_shards :
      ReadResult → Str → List Endpoint → List ℕ → Action W (List RebuiltShard)
  rebuild_shards result blob_id providers [] = pure []
  rebuild_shards result blob_id providers (i ∷ is) = do
    shard ← rebuild_shard result blob_id providers i
    shards ← rebuild_shards result blob_id providers is
    pure (shard ∷ shards)

  -- From the missing shards on that the first read found.
  unfoldable pub rebuild_missing :
      ReadResult → Str → List Endpoint → List ℕ → Action W RebuildResult
  rebuild_missing result blob_id providers [] = pure (rebuild_result blob_id [] result)
  rebuild_missing result blob_id providers (i ∷ is) = do
    shards ← rebuild_shards result blob_id providers (i ∷ is)
    final ← read blob_id providers
    lift (
        throw_if (not (is_empty final.missing_shards))
          (plain (lit "rebuilt blob is still missing shards")))
    pure (rebuild_result blob_id shards final)

  unfoldable pub rebuild_blob : Str → List Endpoint → Action W RebuildResult
  rebuild_blob blob_id providers = do
    result ← read blob_id providers
    rebuild_missing result blob_id providers result.missing_shards
