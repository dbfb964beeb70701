-- ===== src/Gateway/Rebuild/Tests.antt =====
-- The blob of the upload's tests, of which only the first shard can be read: a rebuild, and a rebuild
-- after one that was begun and not recorded.
use prime_server.Base.{
  true, none, some, [], ◌∷◌, ◌≡◌, refl, lit, ok, err, Error, values, lookup, str_eq, str_beq,
  to_lower, lower_unit, strip_0x, hex, from_hex, is_hex_digit, decimal, decimal_onto, insert,
  byte_length, starts_with, ends_with_unit, includes_unit, sort, insert_sorted, sorted_set,
  distinct,
}
use prime_server.Base.Action.{pure, lift, reads, ◌>>=◌}
use prime_server.Ack.{acknowledgement_context, join_bar}
use prime_server.Erasure.{encode, pad_input, decode, decode_erased, verified}
use prime_server.Erasure.Tests.{copies, pair, same_bytes}
use prime_server.Registry.{Blob, BlobView, recovering}
use prime_server.Registry.Methods.{
  empty, get_blob, fresh_blob, register_provider, create_blob_named, create_blob, is_invalid_name,
  assign_shard, acknowledge_shard, finalize_blob, start_recovery, contradicts,
}
use prime_server.Registry.Calls.{start, run, apply}
use prime_server.Gateway.{normalize_hex, find_provider}
use prime_server.Gateway.Admission.{check_registration, check_encoding}
use prime_server.Gateway.Read.{
  ReadResult, read_blob, read_shard, read_provider_shard, assemble, join_shards,
}
use prime_server.Gateway.Services.Memory.{World, memory_services, call}
use prime_server.Gateway.Services.Kept.{IsReached, memory-AreKept}
use prime_server.Gateway.Upload.{
  upload_registered_blob, place_encoded_blob, place_shards, place_shard, ensure_placed,
  upload_shard, confirm, finish, settle, choose_provider, existing_acknowledgement, context_of,
}
use prime_server.Gateway.Upload.Kept.{upload_registered_blob-Keeps}
use prime_server.Gateway.Upload.Samples.{
  same_text, any_signature, providers, honest, registered, calls, first, uploaded,
}
use prime_server.Gateway.Rebuild.{read_at, rebuild_blob}
use prime_server.Gateway.Rebuild.Healthy.{Outcome, rebuild_blob-Outcome}
use prime_server.Gateway.Rebuild.Stuck.{rebuild_blob_stuck}

reached : IsReached same_text any_signature honest (empty (lit "op") 1 (lit "memory")) uploaded.0
reached =
    (upload_registered_blob-Keeps (memory_services same_text any_signature honest)
        (memory-AreKept same_text any_signature honest (empty (lit "op") 1 (lit "memory")))
        same_text same_bytes copies pair (5 ∷ []) (lit "a") (lit "0xab") (lit "ME")
        (get_blob first.registry (lit "a")) providers 1).at
      first (calls, refl)

rebuild_blob-Outcome_example :
    Outcome same_text any_signature honest same_bytes copies pair (lit "a") providers (
      rebuild_blob
        (memory_services same_text any_signature honest)
        same_bytes
        copies
        pair
        (lit "a")
        providers
        uploaded.0)
rebuild_blob-Outcome_example =
    rebuild_blob-Outcome same_text any_signature honest same_bytes copies pair (lit "op") 1
      (lit "memory") uploaded.0 (lit "a") providers reached

abbrev begun : World (Unit {0})
begun = (call same_text any_signature honest (start (lit "a") 1) uploaded.0).0

abbrev stored : Blob
stored = elim (lookup (lit "a") begun.registry.blobs) [
  | none ↦ fresh_blob [] registered
  | some b ↦ b
]

abbrev view : BlobView
view = record {
  blob_id = stored.blob_id;
  owner = stored.owner;
  commitment = stored.commitment;
  size = stored.size;
  chunk_size = stored.chunk_size;
  data_shards = stored.data_shards;
  total_shards = stored.total_shards;
  expires_at = stored.expires_at;
  origin = stored.origin;
  blob_name = stored.blob_name;
  name_hash = stored.name_hash;
  status = stored.status;
  policy = stored.policy;
  payment = stored.payment;
  placement = stored.placement;
  acknowledgements = values stored.acknowledgements;
}

abbrev found : ReadResult
found = record {
  blob = view;
  bytes = 5 ∷ [];
  missing_shards = 1 ∷ [];
  recovered = true;
  recovered_shards = (1, some (5 ∷ 0 ∷ [])) ∷ [];
  content_hash = 5 ∷ [];
}

is_stored : lookup (lit "a") begun.registry.blobs ≡ some stored
unfolding upload_registered_blob place_encoded_blob place_shards place_shard ensure_placed
    upload_shard confirm finish settle choose_provider existing_acknowledgement context_of
    check_registration check_encoding call pure lift reads ◌>>=◌ run apply register_provider
    create_blob_named create_blob is_invalid_name assign_shard acknowledge_shard finalize_blob
    start_recovery get_blob empty contradicts encode pad_input find_provider acknowledgement_context
    join_bar prime_server.Ack.normalize_hex normalize_hex to_lower lower_unit strip_0x hex from_hex
    is_hex_digit decimal decimal_onto lookup insert str_beq lit byte_length starts_with
    ends_with_unit includes_unit
is_stored = refl

is_recovering : stored.status ≡ recovering
unfolding upload_registered_blob place_encoded_blob place_shards place_shard ensure_placed
    upload_shard confirm finish settle choose_provider existing_acknowledgement context_of
    check_registration check_encoding call pure lift reads ◌>>=◌ run apply register_provider
    create_blob_named create_blob is_invalid_name assign_shard acknowledge_shard finalize_blob
    start_recovery get_blob empty contradicts encode pad_input find_provider acknowledgement_context
    join_bar prime_server.Ack.normalize_hex normalize_hex to_lower lower_unit strip_0x hex from_hex
    is_hex_digit decimal decimal_onto lookup insert str_beq lit byte_length starts_with
    ends_with_unit includes_unit
is_recovering = refl

reads_one :
    read_at
      (memory_services same_text any_signature honest)
      same_bytes
      copies
      pair
      (lit "a")
      providers
      begun
    ≡ ok found
unfolding upload_registered_blob place_encoded_blob place_shards place_shard ensure_placed
    upload_shard confirm finish settle choose_provider existing_acknowledgement context_of
    check_registration check_encoding call pure lift reads ◌>>=◌ run apply register_provider
    create_blob_named create_blob is_invalid_name assign_shard acknowledge_shard finalize_blob
    start_recovery get_blob empty contradicts encode pad_input find_provider acknowledgement_context
    join_bar prime_server.Ack.normalize_hex normalize_hex to_lower lower_unit strip_0x hex from_hex
    is_hex_digit decimal decimal_onto lookup insert str_beq lit byte_length starts_with
    ends_with_unit includes_unit read_blob read_shard read_provider_shard assemble join_shards
    decode decode_erased verified sort insert_sorted sorted_set distinct
reads_one = refl

rebuild_blob_stuck_example :
    (e : Error) × (rebuild_blob
        (memory_services same_text any_signature honest)
        same_bytes
        copies
        pair
        (lit "a")
        providers
        begun
      ≡ (begun, err e))
rebuild_blob_stuck_example =
    rebuild_blob_stuck same_text any_signature honest same_bytes copies pair begun found (lit "a")
      providers 1 [] stored is_stored is_recovering reads_one refl
