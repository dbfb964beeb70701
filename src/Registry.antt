-- ===== src/Registry.antt =====
-- The state of `MemoryRegistry` (rpc/src/memory-registry.mjs), and the view of a blob that both
-- registries return from `getBlob`.
pub mod Methods
pub mod Calls
pub mod Transitions
pub mod Refines
pub mod Invariant
pub mod Sound
pub mod Metadata
pub mod Access
mod Tests
use prime_server.Base.{ℕ, Str, List, Bool, Table}

pub record Provider : Type 0 where
  pub provider_id : Str
  pub endpoint : Str
  pub public_key : Str
  pub active : Bool

pub data Status : Type 0 where
  pending active recovering rebuilt revoked : Status

pub data Origin : Type 0 where
  user operator : Origin

pub record Policy : Type 0 where
  pub storage_mode : ℕ
  pub storage_mode_name : Str
  pub access_policy : ℕ
  pub access_policy_name : Str
  pub policy_commitment : Str
  pub key_envelope_commitment : Str
  pub metadata_commitment : Str

pub record Payment : Type 0 where
  pub asset : ℕ
  pub asset_name : Str
  pub status : ℕ
  pub status_name : Str
  pub payer : Str
  pub total_paid : ℕ
  pub provider_pool : ℕ
  pub provider_reward_per_shard : ℕ
  pub protocol_fee : ℕ
  pub provider_settled : ℕ
  pub quote_commitment : Str
  pub paid_at : ℕ
  pub settled_at : ℕ

pub record Acknowledgement : Type 0 where
  pub provider_id : Str
  pub shard_index : ℕ
  pub commitment : Str
  pub size : ℕ

pub record Blob : Type 0 where
  pub blob_id : Str
  pub owner : Str
  pub commitment : Str
  pub size : ℕ
  pub chunk_size : ℕ
  pub data_shards : ℕ
  pub total_shards : ℕ
  pub expires_at : ℕ
  pub blob_name : Str
  pub name_hash : Str
  pub origin : Origin
  pub status : Status
  pub policy : Policy
  pub payment : Payment
  pub placement : Table ℕ Str
  pub acknowledgements : Table Str Acknowledgement
  pub selected_wallets : Table Str Bool

pub record AccessRequest : Type 0 where
  pub blob_id : Str
  pub requester : Str
  pub purpose : ℕ
  pub deadline : ℕ
  pub exists : Bool
  pub consumed : Bool

pub record Registry : Type 0 where
  pub coordinator : Str
  pub chain_id : ℕ
  pub address : Str
  pub providers : Table Str Provider
  pub blobs : Table Str Blob
  pub blob_id_by_owner_name_hash : Table Str Str
  pub confidential_access_requests : Table Str AccessRequest

-- What `getBlob` returns: the placement by shard, and the acknowledgements as an array.
pub record BlobView : Type 0 where
  pub blob_id : Str
  pub owner : Str
  pub commitment : Str
  pub size : ℕ
  pub chunk_size : ℕ
  pub data_shards : ℕ
  pub total_shards : ℕ
  pub expires_at : ℕ
  pub origin : Origin
  pub blob_name : Str
  pub name_hash : Str
  pub status : Status
  pub policy : Policy
  pub payment : Payment
  pub placement : Table ℕ Str
  pub acknowledgements : List Acknowledgement
