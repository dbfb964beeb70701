-- ===== src/Gateway/Services.antt =====
-- What the gateway's uploads and rebuilds call: the registry and the providers, over one state `W`
-- that holds both. A registry may lack some of its methods.
pub mod Memory
pub mod Kept
use prime_server.Base.{ℕ, Str, Option, Result}
use prime_server.Base.Action.{Action}
use prime_server.Registry.{BlobView}
use prime_server.Registry.Methods.{NewBlob, ShardReceipt}
use prime_server.Erasure.{Bytes}
use prime_server.Gateway.{Fetch}
use prime_server.Gateway.Settle.{ClaimSettlement}

-- The answer of a provider to a shard: the status of the response, and the fields of its body.
pub record PutReply : Type 0 where
  pub status : ℕ
  pub error : Str
  pub commitment : Str
  pub size : ℕ
  pub signed_payload : Str
  pub signature : Str

pub record Services (W : Type 0) : Type 0 where
  pub chain_id : W → Str
  pub address : W → Str
  pub get_blob : W → Str → Option BlobView
  pub create_operator_blob : Option (NewBlob → Action W (Unit {0}))
  pub create_operator_blob_named : Option (Str → NewBlob → Action W (Unit {0}))
  pub assign_shard : Str → ℕ → Str → Action W (Unit {0})
  pub acknowledge_shard : ShardReceipt → Action W (Unit {0})
  pub finalize_blob : Str → Action W (Unit {0})
  pub start_recovery : Str → ℕ → Action W (Unit {0})
  pub reassign_shard : Str → ℕ → Str → Action W (Unit {0})
  pub record_rebuilt_shard : Str → ℕ → Str → Str → Action W (Unit {0})
  pub claim_settlement : Option (ClaimSettlement W)
  -- `fetch` of a URL, and `fetch` with the method PUT, the headers for the commitment and the context,
  -- and a body.
  pub fetch : W → Fetch
  pub put : Str → Str → Str → Bytes → Action W PutReply
