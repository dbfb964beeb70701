-- ===== src/Gateway/Upload.antt =====
-- `uploadShard`, `placeEncodedBlob`, `uploadRegisteredBlob` and `uploadBlob` of rpc/src/server.mjs.
-- The checks before an upload are in Admission. What is changed before an error stays changed.
pub mod Kept
pub mod Finished
pub mod Samples
mod Tests
use prime_server.Base.{
  ℕ, suc, ◌+◌, ◌*◌, Str, Bool, true, false, not, ◌&&◌, ◌||◌, Option, none, some, is_some, List, [],
  ◌∷◌, ◌++◌, lit, length, lookup, find, get_elem?, ◌==◌, str_eq, nat_eq, eqb, leb, ltb, is_empty,
  to_lower, if◌then◌else◌, decimal, Error, plain, Result, ok, err, throw_if, require,
}
use prime_server.Base.Action.{Action, pure, lift, reads, ◌>>=◌, ◌>>◌}
use prime_server.Ack.{acknowledgement_context}
use prime_server.Registry.{Status, active, Acknowledgement, BlobView}
use prime_server.Registry.Methods.{NewBlob}
use prime_server.Erasure.{Bytes, Config, four_provider_config, Clay, Encoded, encode}
use prime_server.Gateway.{Endpoint, find_provider, normalize_hex, text_of}
use prime_server.Gateway.Read.{is_ok_status, shard_url}
use prime_server.Gateway.Admission.{check_registration, check_encoding}
use prime_server.Gateway.Settle.{Settlement, ClaimSettlement, settle_provider_claims}
use prime_server.Gateway.Services.{Services, PutReply}

-- An entry of `receipts`.
pub record Placed : Type 0 where
  pub provider_id : Str
  pub shard_index : ℕ
  pub commitment : Str
  pub size : ℕ

pub record UploadResult : Type 0 where
  pub blob_id : Str
  pub commitment : Str
  pub name_hash : Str
  pub chunk_commitments : List Str
  pub clay_chunk_roots : List Str
  pub size : ℕ
  pub status : Status
  pub providers : List Placed
  pub provider_settlements : List Settlement
  pub registry : Option BlobView

-- `hasExistingProvider`.
abbrev pub existing_provider : BlobView → ℕ → Option Str
existing_provider b i = elim (lookup i b.placement) [
  | none ↦ none
  | some p ↦ if p == lit "0" then none else some p
]

unfoldable pub choose_provider : BlobView → List Endpoint → ℕ → Option Endpoint
unfolding find_provider
choose_provider b providers i = elim (existing_provider b i) [
  | none ↦ get_elem? providers i
  | some p ↦ find_provider providers (some p)
]

unfoldable pub existing_acknowledgement : BlobView → ℕ → Str → Option Acknowledgement
existing_acknowledgement b i provider_id =
    find (λ (a : Acknowledgement). eqb a.shard_index i && a.provider_id == provider_id)
      b.acknowledgements

abbrev pub unavailable : BlobView → ℕ → Error
unavailable b i = plain (
    lit "assigned provider "
    ++ (text_of (lookup i b.placement) ++ (lit " is unavailable for shard " ++ decimal i)))

abbrev pub rejected : Endpoint → PutReply → Error
rejected p reply = plain (
    lit "provider "
    ++ (p.provider_id
        ++ (lit " rejected shard: "
            ++ (if is_empty reply.error then decimal reply.status else reply.error))))

abbrev pub disagrees : Acknowledgement → PutReply → Bool
disagrees a receipt =
    not (normalize_hex a.commitment == normalize_hex receipt.commitment)
    || not (eqb a.size receipt.size)

abbrev pub placed : Endpoint → ℕ → PutReply → Placed
placed p i receipt = record {
  provider_id = p.provider_id;
  shard_index = i;
  commitment = receipt.commitment;
  size = receipt.size;
}

-- `registryState?.nameHash || blob.nameHash || ""`.
abbrev pub name_hash_of : Option BlobView → BlobView → Str
name_hash_of none b = b.name_hash
name_hash_of (some state) b = if is_empty state.name_hash then b.name_hash else state.name_hash

-- `registryState?.status || "active"`.
abbrev pub status_of : Option BlobView → Status
status_of none = active
status_of (some state) = state.status

abbrev pub upload_result :
    Bytes
    → Encoded
    → Str
    → BlobView
    → List Placed
    → List Settlement
    → Option BlobView
    → UploadResult
upload_result input encoded blob_id b receipts settlements state = record {
  blob_id = blob_id;
  commitment = encoded.clay_chunkset_root;
  name_hash = name_hash_of state b;
  chunk_commitments = encoded.chunk_commitments;
  clay_chunk_roots = encoded.clay_chunk_roots;
  size = length input;
  status = status_of state;
  providers = receipts;
  provider_settlements = settlements;
  registry = state;
}

module _ {W : Type 0} (services : Services W) where
  -- `acknowledgementContext`, in the state of the registry.
  unfoldable pub context_of : BlobView → Str → Str → ℕ → Str → ℕ → W → Str
  context_of b blob_id provider_id shard_index commitment size w = acknowledgement_context (record {
    chain_id = services.chain_id w;
    registry_address = services.address w;
    blob_id = blob_id;
    owner = b.owner;
    name_hash = b.name_hash;
    provider_id = provider_id;
    shard_index = shard_index;
    commitment = commitment;
    size = size;
  })

  unfoldable pub upload_shard : Endpoint → Str → ℕ → Bytes → Str → Str → Action W PutReply
  upload_shard p blob_id shard_index bytes commitment context = do
    receipt ← services.put (shard_url p blob_id shard_index) commitment context bytes
    lift (throw_if (not (is_ok_status receipt.status)) (rejected p receipt))
    pure receipt

  -- A receipt is compared with the acknowledgement that was there, or acknowledged.
  unfoldable pub confirm :
      Str → ℕ → Endpoint → Str → PutReply → Option Acknowledgement → Action W (Unit {0})
  confirm blob_id i p context receipt (some a) = lift (
      throw_if (disagrees a receipt)
        (plain (lit "existing acknowledgement does not match shard " ++ decimal i)))
  confirm blob_id i p context receipt none = services.acknowledge_shard (record {
    blob_id = blob_id;
    shard_index = i;
    provider_id = p.provider_id;
    commitment = receipt.commitment;
    size = receipt.size;
    ack_context = context;
    signed_payload = receipt.signed_payload;
    signature = receipt.signature;
  })

  -- `if (!hasExistingProvider) await registry.assignShard(…)`.
  unfoldable pub ensure_placed : Str → ℕ → Endpoint → Option Str → Action W (Unit {0})
  ensure_placed blob_id i p (some _) = pure tt
  ensure_placed blob_id i p none = services.assign_shard blob_id i p.provider_id

  -- One round of the loop of `placeEncodedBlob`.
  unfoldable pub place_shard : BlobView → Str → List Endpoint → ℕ → Bytes → Str → Action W Placed
  place_shard b blob_id providers i chunk commitment = do
    p ← lift (require (choose_provider b providers i) (unavailable b i))
    ensure_placed blob_id i p (existing_provider b i)
    context ← reads (context_of b blob_id p.provider_id i commitment (length chunk))
    receipt ← upload_shard p blob_id i chunk commitment context
    confirm blob_id i p context receipt (existing_acknowledgement b i p.provider_id)
    pure (placed p i receipt)

  -- The loop, from a shard on; an encoding has as many commitments as chunks.
  unfoldable pub place_shards :
      BlobView → Str → List Endpoint → List Str → ℕ → List Bytes → Action W (List Placed)
  place_shards b blob_id providers commitments i [] = pure []
  place_shards b blob_id providers commitments i (chunk ∷ chunks) = do
    receipt ← place_shard b blob_id providers i chunk (text_of (get_elem? commitments i))
    receipts ← place_shards b blob_id providers commitments (i + 1) chunks
    pure (receipt ∷ receipts)

  -- `settleProviderClaims`, with a registry that may lack its method.
  unfoldable pub settle :
      Option (ClaimSettlement W)
      → List Endpoint
      → Str
      → Option BlobView
      → Action W (List Settlement)
  settle none providers blob_id state = pure []
  settle (some claim) providers blob_id none = pure []
  settle (some claim) providers blob_id (some b) = settle_provider_claims claim providers blob_id b

  abbrev pub refreshed : Str → List Settlement → Option BlobView → W → Option BlobView
  refreshed blob_id [] state w = state
  refreshed blob_id (_ ∷ _) state w = services.get_blob w blob_id

  -- The rest of `placeEncodedBlob` after its loop.
  unfoldable pub finish :
      Bytes → Encoded → Str → List Endpoint → BlobView → List Placed → Action W UploadResult
  finish input encoded blob_id providers b receipts = do
    services.finalize_blob blob_id
    state ← reads (λ w. services.get_blob w blob_id)
    settlements ← settle services.claim_settlement providers blob_id state
    final ← reads (refreshed blob_id settlements state)
    pure (upload_result input encoded blob_id b receipts settlements final)

  unfoldable pub place_encoded_blob : Bytes → Encoded → Str → List Endpoint → Action W UploadResult
  place_encoded_blob input encoded blob_id providers = do
    lift (
        throw_if (not (eqb (length providers) four_provider_config.n))
          (plain (lit "the first upload path requires four providers")))
    found ← reads (λ w. services.get_blob w blob_id)
    b ← lift (require found (plain (lit "blob registration not found")))
    receipts ← place_shards b blob_id providers encoded.chunk_commitments 0 encoded.chunks
    finish input encoded blob_id providers b receipts

module _ {W : Type 0} (services : Services W) where
  -- The part of `uploadBlob` that creates the blob.
  unfoldable pub register_operator_blob : Str → NewBlob → Action W (Unit {0})
  register_operator_blob [] n = do
    create ←
        lift
          (require services.create_operator_blob (plain (lit "operator blob support is required")))
    create n
  register_operator_blob (c ∷ name) n = do
    create ← lift (
        require services.create_operator_blob_named
          (plain (lit "operator named blob support is required")))
    create (c ∷ name) n

module _ {W : Type 0} (services : Services W) (keccak256 : Str → Str) (sha256 : Bytes → Str)
    (clay : Clay) (config : Config) where
  -- `now` is the time in seconds.
  unfoldable pub upload_registered_blob :
      Bytes → Str → Str → Str → Option BlobView → List Endpoint → ℕ → Action W UploadResult
  upload_registered_blob input blob_id blob_name account registration providers now = do
    b ← lift (require registration (plain (lit "blob registration is required")))
    lift (check_registration keccak256 b blob_id blob_name account input now)
    encoded ← lift (encode sha256 clay config input)
    lift (check_encoding config b encoded)
    place_encoded_blob services input encoded blob_id providers

  abbrev pub blob_arguments : Bytes → Encoded → Str → ℕ → NewBlob
  blob_arguments input encoded blob_id expires_at = record {
    blob_id = blob_id;
    commitment = encoded.clay_chunkset_root;
    size = length input;
    chunk_size = config.chunk_size_bytes;
    data_shards = config.k;
    total_shards = config.n;
    expires_at = expires_at;
  }

  -- `random` are the 16 random bytes that make the blob's id with the input.
  unfoldable pub upload_blob : Bytes → List Endpoint → Str → ℕ → Bytes → Action W UploadResult
  upload_blob input providers blob_name expires_at random = do
    encoded ← lift (encode sha256 clay config input)
    register_operator_blob services blob_name
        (blob_arguments input encoded (sha256 (input ++ random)) expires_at)
    place_encoded_blob services input encoded (sha256 (input ++ random)) providers
