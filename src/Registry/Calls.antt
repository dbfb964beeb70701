-- ===== src/Registry/Calls.antt =====
-- The calls of `MemoryRegistry` that change it (rpc/src/memory-registry.mjs), as data, and a client
-- that makes them one after another.
use prime_server.Base.{ℕ, Str, Bool, List, [], ◌∷◌, Result, ok, err}
use prime_server.Registry.{Registry}
use prime_server.Registry.Methods.{
  NewBlob, ShardReceipt, Verify, register_provider, create_blob, create_blob_named,
  create_operator_blob, create_operator_blob_named, assign_shard, acknowledge_shard, finalize_blob,
  set_blob_wallet_access, seed_confidential_access_request, start_recovery, reassign_shard,
  record_rebuilt_shard,
}

pub data Call : Type 0 where
  register : (provider_id endpoint public_key : Str) → Call
  create : Str → NewBlob → Call
  create_named : (blob_name owner : Str) → NewBlob → Call
  create_operator : NewBlob → Call
  create_operator_named : (blob_name : Str) → NewBlob → Call
  assign : Str → ℕ → Str → Call
  acknowledge : ShardReceipt → Call
  finalize : Str → Call
  set_wallet : Str → Str → Bool → Call
  seed : (request_id blob_id requester : Str) (purpose deadline : ℕ) (consumed : Bool) → Call
  start : Str → ℕ → Call
  reassign : Str → ℕ → Str → Call
  record_rebuilt : Str → ℕ → Str → Str → Call

-- A call that throws leaves the registry as it was.
abbrev pub settled : Registry → Result Registry → Registry
settled r (ok r') = r'
settled r (err _) = r

module _ (keccak256 : Str → Str) (verify : Verify) where
  unfoldable pub apply : Registry → Call → Result Registry
  apply r (register p e k) = register_provider r p e k
  apply r (create owner n) = create_blob r owner n
  apply r (create_named name owner n) = create_blob_named keccak256 r name owner n
  apply r (create_operator n) = create_operator_blob r n
  apply r (create_operator_named name n) = create_operator_blob_named keccak256 r name n
  apply r (assign id i p) = assign_shard r id i p
  apply r (acknowledge a) = acknowledge_shard verify r a
  apply r (finalize id) = finalize_blob r id
  apply r (set_wallet id w allowed) = set_blob_wallet_access r id w allowed
  apply r (seed q id w purpose deadline consumed) =
      ok (seed_confidential_access_request r q id w purpose deadline consumed)
  apply r (start id i) = start_recovery r id i
  apply r (reassign id i p) = reassign_shard r id i p
  apply r (record_rebuilt id i p c) = record_rebuilt_shard r id i p c

  unfoldable pub run : Registry → List Call → Registry
  run r [] = r
  run r (c ∷ cs) = run (settled r (apply r c)) cs
