-- ===== src/Registry/Tests.antt =====
-- Concrete runs of the registry, with a stand-in for the hash and for the signature scheme: the
-- signature of a text is the key followed by the text.
use prime_server.Base.{
  Str, true, false, Option, none, some, List, [], ◌∷◌, ◌++◌, lit, ◌≡◌, ◌≢◌, refl, ◌==◌, str_eq,
  lookup, insert, to_lower, ok, decimal, decimal_onto, strip_0x, byte_length, includes_unit,
  starts_with, ends_with_unit, lower_unit, str_beq,
}
use prime_server.Ack.{acknowledgement_context, normalize_hex, join_bar}
use prime_server.Registry.{pending, active, Blob, Registry, AccessRequest}
use prime_server.Registry.Methods.{
  empty, NewBlob, fresh_blob, initial_policy, ShardReceipt, Verify, get_confidential_access_request,
  is_confidential_access_usable, set_blob_wallet_access, register_provider, create_blob,
  create_blob_named, assign_shard, acknowledge_shard, finalize_blob, is_invalid_name, contradicts,
  start_recovery, seed_confidential_access_request,
}
use prime_server.Registry.Calls.{
  Call, register, create_named, assign, acknowledge, finalize, start, apply, run, settled,
}
use prime_server.Registry.Transitions.{Step}
use prime_server.Registry.Refines.{apply-Step}
use prime_server.Registry.Invariant.{IsSigned, run-IsSigned}
use prime_server.Registry.Sound.{IsSoundRegistry, run-IsSound, names_unique}
use prime_server.Registry.Metadata.{IsKept, run-progressed}
use prime_server.Registry.Access.{set_blob_wallet_access-usable}

abbrev hash : Str → Str
hash s = b'0' ∷ b'x' ∷ s

abbrev signs : Verify
signs key text signature = ok (signature == (key ++ text))

abbrev new_registry : Registry
new_registry = empty (b'c' ∷ []) 7 (b'r' ∷ [])

abbrev one_shard : NewBlob
one_shard = record {
  blob_id = b'1' ∷ [];
  commitment = b'5' ∷ [];
  size = 3;
  chunk_size = 3;
  data_shards = 1;
  total_shards = 1;
  expires_at = 0;
}

abbrev context : Str
context = lit "prime-ack-v1|7|r|1|a|n|0|5|3|p"

abbrev receipt : ShardReceipt
receipt = record {
  blob_id = b'1' ∷ [];
  shard_index = 0;
  provider_id = b'p' ∷ [];
  commitment = b'5' ∷ [];
  size = 3;
  ack_context = [];
  signed_payload = context;
  signature = b'k' ∷ context;
}

abbrev upload : List Call
upload =
    register (b'p' ∷ []) (b'e' ∷ []) (b'k' ∷ [])
    ∷ create_named (b'n' ∷ []) (b'A' ∷ []) one_shard
    ∷ assign (b'1' ∷ []) 0 (b'p' ∷ [])
    ∷ acknowledge receipt
    ∷ finalize (b'1' ∷ [])
    ∷ []

abbrev uploaded : Registry
uploaded = run hash signs new_registry upload

upload-active :
    (elim (lookup (b'1' ∷ []) uploaded.blobs) [ none ↦ pending | some b ↦ b.status ]) ≡ active
unfolding run apply empty register_provider create_blob create_blob_named assign_shard
    acknowledge_shard finalize_blob is_invalid_name lookup insert lit to_lower lower_unit decimal
    decimal_onto strip_0x byte_length includes_unit starts_with ends_with_unit
    acknowledgement_context normalize_hex join_bar contradicts str_beq
upload-active = refl

-- The registry before the last call, and the acknowledgement on it.
abbrev assigned : Registry
assigned = run hash signs new_registry (
    register (b'p' ∷ []) (b'e' ∷ []) (b'k' ∷ [])
    ∷ create_named (b'n' ∷ []) (b'A' ∷ []) one_shard
    ∷ assign (b'1' ∷ []) 0 (b'p' ∷ [])
    ∷ [])

abbrev acknowledged : Registry
acknowledged = settled assigned (apply hash signs assigned (acknowledge receipt))

acknowledge_returns : apply hash signs assigned (acknowledge receipt) ≡ ok acknowledged
unfolding run apply empty register_provider create_blob create_blob_named assign_shard
    acknowledge_shard finalize_blob is_invalid_name lookup insert lit to_lower lower_unit decimal
    decimal_onto strip_0x byte_length includes_unit starts_with ends_with_unit
    acknowledgement_context normalize_hex join_bar contradicts str_beq start_recovery
    seed_confidential_access_request set_blob_wallet_access
acknowledge_returns = refl

apply-Step_example : Step hash signs assigned acknowledged
apply-Step_example = apply-Step hash signs assigned (acknowledge receipt) acknowledge_returns

run-IsSigned_example : IsSigned signs (run hash signs (empty (b'c' ∷ []) 7 (b'r' ∷ [])) upload)
run-IsSigned_example = run-IsSigned hash signs (b'c' ∷ []) 7 (b'r' ∷ []) upload

run-IsSound_example : IsSoundRegistry hash (run hash signs (empty (b'c' ∷ []) 7 (b'r' ∷ [])) upload)
run-IsSound_example = run-IsSound hash signs (b'c' ∷ []) 7 (b'r' ∷ []) upload

-- The blob as it is stored at the end.
abbrev stored : Registry → Option Blob
stored r = lookup (b'1' ∷ []) r.blobs

abbrev blob_of : Option Blob → Blob
blob_of none = fresh_blob [] one_shard
blob_of (some b) = b

abbrev the_blob : Registry → Blob
the_blob r = blob_of (stored r)

uploaded-stored : lookup (b'1' ∷ []) uploaded.blobs ≡ some (the_blob uploaded)
unfolding run apply empty register_provider create_blob create_blob_named assign_shard
    acknowledge_shard finalize_blob is_invalid_name lookup insert lit to_lower lower_unit decimal
    decimal_onto strip_0x byte_length includes_unit starts_with ends_with_unit
    acknowledgement_context normalize_hex join_bar contradicts str_beq start_recovery
    seed_confidential_access_request set_blob_wallet_access
uploaded-stored = refl

uploaded-named : (the_blob uploaded).blob_name ≢ []
unfolding run apply empty register_provider create_blob create_blob_named assign_shard
    acknowledge_shard finalize_blob is_invalid_name lookup insert lit to_lower lower_unit decimal
    decimal_onto strip_0x byte_length includes_unit starts_with ends_with_unit
    acknowledgement_context normalize_hex join_bar contradicts str_beq start_recovery
    seed_confidential_access_request set_blob_wallet_access
uploaded-named h = cc

names_unique_example : one_shard.blob_id ≡ one_shard.blob_id
names_unique_example =
    names_unique hash signs (b'c' ∷ []) 7 (b'r' ∷ []) upload (b'1' ∷ []) (b'1' ∷ [])
      (the_blob uploaded) (the_blob uploaded) uploaded-stored uploaded-stored uploaded-named refl
      refl

run-progressed_example :
    IsKept
      (b'1' ∷ [])
      (the_blob uploaded)
      (run hash signs uploaded (start (b'1' ∷ []) 0 ∷ assign (b'1' ∷ []) 1 (b'p' ∷ []) ∷ []))
run-progressed_example =
    run-progressed hash signs (start (b'1' ∷ []) 0 ∷ assign (b'1' ∷ []) 1 (b'p' ∷ []) ∷ []) uploaded
      (b'1' ∷ []) (the_blob uploaded) uploaded-stored

-- A blob with the policy `selected_wallets`, and a request for it.
abbrev guarded : Blob
guarded = record (fresh_blob (b'a' ∷ []) one_shard) {
  policy = record initial_policy { access_policy = 1 };
}

abbrev request : AccessRequest
request = record {
  blob_id = b'1' ∷ [];
  requester = b'w' ∷ [];
  purpose = 0;
  deadline = 9;
  exists = true;
  consumed = false;
}

abbrev guarded_registry : Registry
guarded_registry = record new_registry {
  blobs = (b'1' ∷ [], guarded) ∷ [];
  confidential_access_requests = (b'q' ∷ [], request) ∷ [];
}

abbrev granted : Registry
granted =
    settled guarded_registry (set_blob_wallet_access guarded_registry (b'1' ∷ []) (b'W' ∷ []) true)

grant_returns : set_blob_wallet_access guarded_registry (b'1' ∷ []) (b'W' ∷ []) true ≡ ok granted
unfolding set_blob_wallet_access lookup str_beq
grant_returns = refl

guarded-stored : lookup (b'1' ∷ []) guarded_registry.blobs ≡ some guarded
unfolding lookup str_beq
guarded-stored = refl

request-stored : get_confidential_access_request guarded_registry (b'q' ∷ []) ≡ some request
unfolding get_confidential_access_request lookup str_beq strip_0x to_lower lower_unit
request-stored = refl

same_wallet : to_lower (b'w' ∷ []) ≡ to_lower (b'W' ∷ [])
unfolding to_lower lower_unit
same_wallet = refl

other_owner : (to_lower (b'a' ∷ []) == to_lower (b'W' ∷ [])) ≡ false
unfolding to_lower lower_unit str_beq
other_owner = refl

set_blob_wallet_access-usable_example : is_confidential_access_usable granted 5 (b'q' ∷ []) ≡ true
set_blob_wallet_access-usable_example =
    set_blob_wallet_access-usable guarded_registry granted (b'1' ∷ []) (b'W' ∷ []) true guarded
      (b'q' ∷ []) request 5 grant_returns guarded-stored request-stored refl same_wallet other_owner
