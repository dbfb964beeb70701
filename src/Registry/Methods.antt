-- ===== src/Registry/Methods.antt =====
-- The methods of `MemoryRegistry` (rpc/src/memory-registry.mjs). Each checks before it writes, so a
-- method that throws leaves the registry as it was: it returns the new registry or the error.
use prime_server.Base.{
  ℕ, Str, Bool, true, false, not, ◌&&◌, ◌||◌, Option, none, some, [], ◌∷◌, ◌++◌, lit, is_empty,
  to_lower, strip_0x, starts_with, ends_with_unit, includes_unit, byte_length, decimal, drop,
  length, values, lookup, insert, is_some, ltb, leb, eqb, ◌==◌, str_eq, nat_eq, Error, plain,
  Result, ok, ◌>>=◌, ◌>>◌, throw_if, require,
}
use prime_server.Ack.{AckFields, acknowledgement_context}
use prime_server.Registry.{
  Provider, Status, pending, active, recovering, rebuilt, revoked, user, operator, Policy, Payment,
  Acknowledgement, Blob, AccessRequest, Registry, BlobView,
}

abbrev pub fail : Str → Error
fail message = plain message

abbrev pub is_pending : Status → Bool
is_pending pending = true
is_pending _ = false

abbrev pub is_recovering : Status → Bool
is_recovering recovering = true
is_recovering _ = false

abbrev pub is_active_or_rebuilt : Status → Bool
is_active_or_rebuilt active = true
is_active_or_rebuilt rebuilt = true
is_active_or_rebuilt _ = false

abbrev pub is_revoked : Status → Bool
is_revoked revoked = true
is_revoked _ = false

unfoldable pub empty : Str → ℕ → Str → Registry
empty coordinator chain_id address = record {
  coordinator = coordinator;
  chain_id = chain_id;
  address = address;
  providers = [];
  blobs = [];
  blob_id_by_owner_name_hash = [];
  confidential_access_requests = [];
}

unfoldable pub register_provider : Registry → Str → Str → Str → Result Registry
register_provider r provider_id endpoint public_key = do
  throw_if (is_some (lookup provider_id r.providers)) (fail (lit "provider already registered"))
  let provider : Provider = record {
    provider_id = provider_id;
    endpoint = endpoint;
    public_key = public_key;
    active = true;
  }
  ok (record r { providers = insert provider_id provider r.providers })

-- The argument of `createBlob`; its owner is a parameter, as two of the callers replace it.
pub record NewBlob : Type 0 where
  pub blob_id : Str
  pub commitment : Str
  pub size : ℕ
  pub chunk_size : ℕ
  pub data_shards : ℕ
  pub total_shards : ℕ
  pub expires_at : ℕ

abbrev pub initial_policy : Policy
initial_policy = record {
  storage_mode = 0;
  storage_mode_name = lit "public";
  access_policy = 0;
  access_policy_name = lit "owner_only";
  policy_commitment = [];
  key_envelope_commitment = [];
  metadata_commitment = [];
}

abbrev pub initial_payment : Payment
initial_payment = record {
  asset = 0;
  asset_name = lit "native_flare";
  status = 0;
  status_name = lit "none";
  payer = [];
  total_paid = 0;
  provider_pool = 0;
  provider_reward_per_shard = 0;
  protocol_fee = 0;
  provider_settled = 0;
  quote_commitment = [];
  paid_at = 0;
  settled_at = 0;
}

abbrev pub fresh_blob : Str → NewBlob → Blob
fresh_blob owner n = record {
  blob_id = n.blob_id;
  owner = owner;
  commitment = n.commitment;
  size = n.size;
  chunk_size = n.chunk_size;
  data_shards = n.data_shards;
  total_shards = n.total_shards;
  expires_at = n.expires_at;
  blob_name = [];
  name_hash = [];
  origin = user;
  status = pending;
  policy = initial_policy;
  payment = initial_payment;
  placement = [];
  acknowledgements = [];
  selected_wallets = [];
}

-- `this.blobs.set(id, blob)`; an object changed in place keeps its place.
abbrev pub put_blob : Registry → Str → Blob → Registry
put_blob r id b = record r { blobs = insert id b r.blobs }

unfoldable pub create_blob : Registry → Str → NewBlob → Result Registry
create_blob r owner n = do
  throw_if (is_some (lookup n.blob_id r.blobs)) (fail (lit "blob already exists"))
  ok (put_blob r n.blob_id (fresh_blob owner n))

-- The test that refuses a blob name.
unfoldable pub is_invalid_name : Str → Bool
is_invalid_name name =
    is_empty name
    || ltb 1024 (byte_length name)
    || includes_unit name 0
    || starts_with name (b'/' ∷ [])
    || ends_with_unit name b'/'

abbrev pub name_key : Str → Str → Str
name_key owner name_hash = to_lower owner ++ (b':' ∷ name_hash)

-- `blobs.get(blobId).origin = "operator"`.
abbrev pub mark_operator : Str → Registry → Result Registry
mark_operator id r = do
  b ← require (lookup id r.blobs) (fail (lit "Cannot set properties of undefined"))
  ok (put_blob r id (record b { origin = operator }))

module _ (keccak256 : Str → Str) where
  unfoldable pub create_blob_named : Registry → Str → Str → NewBlob → Result Registry
  create_blob_named r blob_name owner n = do
    throw_if (is_invalid_name blob_name) (fail (lit "invalid blob name"))
    throw_if (is_some (lookup (name_key owner (keccak256 blob_name)) r.blob_id_by_owner_name_hash))
        (fail (lit "blob name already exists"))
    created ← create_blob r owner n
    b ← require (lookup n.blob_id created.blobs) (fail (lit "Cannot set properties of undefined"))
    ok (record created {
      blobs =
          insert n.blob_id
            (record b { blob_name = blob_name; name_hash = drop 2 (keccak256 blob_name) })
            created.blobs;
      blob_id_by_owner_name_hash =
          insert (name_key owner (keccak256 blob_name)) n.blob_id
            created.blob_id_by_owner_name_hash;
    })

  unfoldable pub create_operator_blob_named : Registry → Str → NewBlob → Result Registry
  create_operator_blob_named r blob_name n = do
    created ← create_blob_named r blob_name r.coordinator n
    mark_operator n.blob_id created

unfoldable pub create_operator_blob : Registry → NewBlob → Result Registry
create_operator_blob r n = do
  created ← create_blob r r.coordinator n
  mark_operator n.blob_id created

-- `this.blobs.get(blobId)`, or the error that every method throws for an unknown blob.
abbrev pub existing : Registry → Str → Result Blob
existing r id = require (lookup id r.blobs) (fail (lit "blob does not exist"))

-- `this.providers.get(providerId)?.active`.
abbrev pub is_active_provider : Registry → Str → Bool
is_active_provider r id = elim (lookup id r.providers) [ none ↦ false | some p ↦ p.active ]

-- `blob.placement.get(shardIndex) === providerId`.
abbrev pub is_placed : Blob → ℕ → Str → Bool
is_placed b shard_index provider_id = elim (lookup shard_index b.placement) [
  | none ↦ false
  | some p ↦ p == provider_id
]

unfoldable pub assign_shard : Registry → Str → ℕ → Str → Result Registry
assign_shard r blob_id shard_index provider_id = do
  b ← existing r blob_id
  throw_if (not (is_pending b.status)) (fail (lit "blob is not pending"))
  throw_if (not (is_active_provider r provider_id)) (fail (lit "provider is inactive"))
  throw_if (is_some (lookup shard_index b.placement)) (fail (lit "shard is already assigned"))
  ok (put_blob r blob_id (record b { placement = insert shard_index provider_id b.placement }))

-- The argument of `acknowledgeShard`.
pub record ShardReceipt : Type 0 where
  pub blob_id : Str
  pub shard_index : ℕ
  pub provider_id : Str
  pub commitment : Str
  pub size : ℕ
  pub ack_context : Str
  pub signed_payload : Str
  pub signature : Str

abbrev pub ack_key : Str → ℕ → Str
ack_key provider_id shard_index = provider_id ++ (b':' ∷ decimal shard_index)

abbrev pub ack_fields : Registry → Blob → ShardReceipt → AckFields
ack_fields r b a = record {
  chain_id = decimal r.chain_id;
  registry_address = r.address;
  blob_id = a.blob_id;
  owner = b.owner;
  name_hash = b.name_hash;
  provider_id = a.provider_id;
  shard_index = a.shard_index;
  commitment = a.commitment;
  size = a.size;
}

-- `expectedPayload` of `acknowledgeShard`, and the entry that it stores.
abbrev pub expected_payload : Registry → Blob → ShardReceipt → Str
expected_payload r b a = acknowledgement_context (ack_fields r b a)

-- `given && given !== expected`: an empty context is not compared.
unfoldable pub contradicts : Str → Str → Bool
contradicts given expected = not (is_empty given) && not (given == expected)

abbrev pub entry_of : ShardReceipt → Acknowledgement
entry_of a = record {
  provider_id = a.provider_id;
  shard_index = a.shard_index;
  commitment = a.commitment;
  size = a.size;
}

-- `createPublicKey` and `verify` of node:crypto, which throw on a malformed key: the public key,
-- the payload and the signature.
abbrev pub Verify : Type 0
Verify = Str → Str → Str → Result Bool

unfoldable pub acknowledge_shard : Verify → Registry → ShardReceipt → Result Registry
acknowledge_shard verify r a = do
  b ← existing r a.blob_id
  throw_if (not (is_pending b.status) && not (is_recovering b.status))
      (fail (lit "blob is not writable"))
  throw_if (not (is_placed b a.shard_index a.provider_id)) (fail (lit "provider is not assigned"))
  p ← require (lookup a.provider_id r.providers) (fail (lit "provider is inactive"))
  throw_if (not p.active) (fail (lit "provider is inactive"))
  valid ← verify p.public_key a.signed_payload a.signature
  throw_if (not valid) (fail (lit "invalid provider acknowledgement signature"))
  throw_if (contradicts a.ack_context (expected_payload r b a))
      (fail (lit "acknowledgement context mismatch"))
  throw_if (not (a.signed_payload == expected_payload r b a))
      (fail (lit "acknowledgement payload mismatch"))
  ok (
      put_blob r a.blob_id (record b {
        acknowledgements =
            insert (ack_key a.provider_id a.shard_index) (entry_of a) b.acknowledgements;
      }))

unfoldable pub finalize_blob : Registry → Str → Result Registry
finalize_blob r blob_id = do
  b ← existing r blob_id
  throw_if (not (eqb (length b.acknowledgements) b.total_shards))
      (fail (lit "missing acknowledgements"))
  ok (put_blob r blob_id (record b { status = active }))

unfoldable pub get_blob_policy : Registry → Str → Option Policy
get_blob_policy r blob_id = elim (lookup blob_id r.blobs) [ none ↦ none | some b ↦ some b.policy ]

unfoldable pub get_blob_payment : Registry → Str → Option Payment
get_blob_payment r blob_id = elim (lookup blob_id r.blobs) [ none ↦ none | some b ↦ some b.payment ]

unfoldable pub set_blob_wallet_access : Registry → Str → Str → Bool → Result Registry
set_blob_wallet_access r blob_id wallet allowed = do
  b ← existing r blob_id
  throw_if
      (not (eqb b.policy.access_policy 1)
        && not (b.policy.access_policy_name == lit "selected_wallets"))
      (fail (lit "selected wallet policy required"))
  let wallets = insert (to_lower wallet) allowed b.selected_wallets
  ok (put_blob r blob_id (record b { selected_wallets = wallets }))

abbrev pub request_key : Str → Str
request_key request_id = to_lower (strip_0x request_id)

unfoldable pub seed_confidential_access_request :
    Registry → Str → Str → Str → ℕ → ℕ → Bool → Registry
seed_confidential_access_request r request_id blob_id requester purpose deadline consumed =
    let request : AccessRequest = record {
      blob_id = blob_id;
      requester = requester;
      purpose = purpose;
      deadline = deadline;
      exists = true;
      consumed = consumed;
    } in
    record r {
      confidential_access_requests =
          insert (request_key request_id) request r.confidential_access_requests;
    }

unfoldable pub get_confidential_access_request : Registry → Str → Option AccessRequest
get_confidential_access_request r request_id =
    lookup (request_key request_id) r.confidential_access_requests

abbrev pub is_authorized : Blob → Str → Bool
is_authorized b requester =
    to_lower b.owner == to_lower requester
    || elim (lookup (to_lower requester) b.selected_wallets) [ none ↦ false | some w ↦ w ]

-- `now` is `Math.floor(Date.now() / 1000)`.
abbrev pub is_usable : ℕ → AccessRequest → Blob → Bool
is_usable now q b =
    q.exists
    && not q.consumed
    && leb now q.deadline
    && not (is_revoked b.status)
    && (eqb b.expires_at 0 || ltb now b.expires_at)
    && is_authorized b q.requester

unfoldable pub is_confidential_access_usable : Registry → ℕ → Str → Bool
unfolding get_confidential_access_request
is_confidential_access_usable r now request_id =
    elim (get_confidential_access_request r request_id) [
      | none ↦ false
      | some q ↦ elim (lookup q.blob_id r.blobs) [ none ↦ false | some b ↦ is_usable now q b ]
    ]

unfoldable pub start_recovery : Registry → Str → ℕ → Result Registry
start_recovery r blob_id shard_index = do
  b ← existing r blob_id
  throw_if (not (is_active_or_rebuilt b.status)) (fail (lit "blob is not active"))
  throw_if (not (is_some (lookup shard_index b.placement))) (fail (lit "shard is not assigned"))
  ok (put_blob r blob_id (record b { status = recovering }))

unfoldable pub reassign_shard : Registry → Str → ℕ → Str → Result Registry
reassign_shard r blob_id shard_index provider_id = do
  b ← existing r blob_id
  throw_if (not (is_recovering b.status)) (fail (lit "recovery is not active"))
  throw_if (not (is_active_provider r provider_id)) (fail (lit "provider is inactive"))
  ok (put_blob r blob_id (record b { placement = insert shard_index provider_id b.placement }))

unfoldable pub record_rebuilt_shard : Registry → Str → ℕ → Str → Str → Result Registry
record_rebuilt_shard r blob_id shard_index provider_id commitment = do
  b ← existing r blob_id
  throw_if (not (is_recovering b.status)) (fail (lit "recovery is not active"))
  throw_if (not (is_placed b shard_index provider_id)) (fail (lit "provider is not assigned"))
  throw_if (is_empty commitment) (fail (lit "commitment is required"))
  ok (put_blob r blob_id (record b { status = rebuilt }))

unfoldable pub get_blob : Registry → Str → Option BlobView
get_blob r blob_id = elim (lookup blob_id r.blobs) [
  | none ↦ none
  | some b ↦ some (record {
    blob_id = b.blob_id;
    owner = b.owner;
    commitment = b.commitment;
    size = b.size;
    chunk_size = b.chunk_size;
    data_shards = b.data_shards;
    total_shards = b.total_shards;
    expires_at = b.expires_at;
    origin = b.origin;
    blob_name = b.blob_name;
    name_hash = b.name_hash;
    status = b.status;
    policy = b.policy;
    payment = b.payment;
    placement = b.placement;
    acknowledgements = values b.acknowledgements;
  })
]
