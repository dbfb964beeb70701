-- ===== src/Registry/Transitions.antt =====
-- The transition system that `MemoryRegistry` implements: what one call may do to one blob, and to
-- the registry. Every call that returns makes one of these steps.
use prime_server.Base.{
  ℕ, Str, Bool, true, false, none, some, [], ◌≡◌, ◌⊎◌, lit, drop, is_empty, is_some, length, lookup,
  insert, str_eq, nat_eq, ok,
}
use prime_server.Ack.{acknowledgement_context}
use prime_server.Registry.{
  Provider, pending, active, recovering, rebuilt, operator, Blob, AccessRequest, Registry,
}
use prime_server.Registry.Methods.{
  put_blob, name_key, is_active_provider, ShardReceipt, ack_key, entry_of, ack_fields, Verify,
  is_invalid_name,
}

module _ (keccak256 : Str → Str) (verify : Verify) where
  -- What a call may do to the blob stored under `id`, with the guard under which it does so.
  pub data Change (r : Registry) (id : Str) : Blob → Blob → Type 0 where
    place :
        {b : Blob} (i : ℕ) (p : Str)
        → b.status ≡ pending
        → is_active_provider r p ≡ true
        → lookup i b.placement ≡ none
        → Change r id b (record b { placement = insert i p b.placement })
    confirm :
        {b : Blob} (a : ShardReceipt) (p : Provider)
        → a.blob_id ≡ id
        → (b.status ≡ pending) ⊎ (b.status ≡ recovering)
        → lookup a.shard_index b.placement ≡ some a.provider_id
        → lookup a.provider_id r.providers ≡ some p
        → p.active ≡ true
        → verify p.public_key (acknowledgement_context (ack_fields r b a)) a.signature ≡ ok true
        → Change r id b (record b {
          acknowledgements =
              insert (ack_key a.provider_id a.shard_index) (entry_of a) b.acknowledgements;
        })
    activate :
        {b : Blob}
        → length b.acknowledgements ≡ b.total_shards
        → Change r id b (record b { status = active })
    permit :
        {b : Blob} (wallet : Str) (allowed : Bool)
        → (b.policy.access_policy ≡ 1) ⊎ (b.policy.access_policy_name ≡ lit "selected_wallets")
        → Change r id b (record b { selected_wallets = insert wallet allowed b.selected_wallets })
    begin :
        {b : Blob} (i : ℕ)
        → (b.status ≡ active) ⊎ (b.status ≡ rebuilt)
        → is_some (lookup i b.placement) ≡ true
        → Change r id b (record b { status = recovering })
    replace :
        {b : Blob} (i : ℕ) (p : Str)
        → b.status ≡ recovering
        → is_active_provider r p ≡ true
        → Change r id b (record b { placement = insert i p b.placement })
    rebuild :
        {b : Blob} (i : ℕ) (p commitment : Str)
        → b.status ≡ recovering
        → lookup i b.placement ≡ some p
        → is_empty commitment ≡ false
        → Change r id b (record b { status = rebuilt })

  -- A blob as a call creates it.
  pub record IsFresh (r : Registry) (id : Str) (b : Blob) : Type 0 where
    pub keyed : b.blob_id ≡ id
    pub waiting : b.status ≡ pending
    pub unplaced : b.placement ≡ []
    pub unacknowledged : b.acknowledgements ≡ []
    pub closed : b.selected_wallets ≡ []
    pub owned : b.origin ≡ operator → b.owner ≡ r.coordinator

  pub data Step (r : Registry) : Registry → Type 0 where
    enrol :
        (p : Provider)
        → lookup p.provider_id r.providers ≡ none
        → p.active ≡ true
        → Step r (record r { providers = insert p.provider_id p r.providers })
    add :
        (id : Str) (b : Blob)
        → lookup id r.blobs ≡ none
        → IsFresh r id b
        → b.blob_name ≡ []
        → b.name_hash ≡ []
        → Step r (put_blob r id b)
    add_named :
        (id name : Str) (b : Blob)
        → lookup id r.blobs ≡ none
        → IsFresh r id b
        → is_invalid_name name ≡ false
        → b.blob_name ≡ name
        → b.name_hash ≡ drop 2 (keccak256 name)
        → lookup (name_key b.owner (keccak256 name)) r.blob_id_by_owner_name_hash ≡ none
        → Step r (record r {
          blobs = insert id b r.blobs;
          blob_id_by_owner_name_hash =
              insert (name_key b.owner (keccak256 name)) id r.blob_id_by_owner_name_hash;
        })
    change :
        (id : Str) {b b' : Blob}
        → lookup id r.blobs ≡ some b
        → Change r id b b'
        → Step r (put_blob r id b')
    note :
        (key : Str) (q : AccessRequest)
        → Step r (record r {
          confidential_access_requests = insert key q r.confidential_access_requests;
        })
