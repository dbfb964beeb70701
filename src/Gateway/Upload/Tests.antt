-- ===== src/Gateway/Upload/Tests.antt =====
-- An upload of the sample registration.
use prime_server.Base.{
  ℕ, [], ◌∷◌, ◌≡◌, refl, lit, ok, to_lower, lower_unit, strip_0x, hex, from_hex, is_hex_digit,
  decimal, decimal_onto, lookup, insert, byte_length, starts_with, ends_with_unit, includes_unit,
  str_eq, str_beq,
}
use prime_server.Base.Action.{pure, lift, reads, ◌>>=◌}
use prime_server.Ack.{acknowledgement_context, join_bar}
use prime_server.Erasure.{encode, pad_input}
use prime_server.Erasure.Tests.{copies, pair, same_bytes}
use prime_server.Registry.{active}
use prime_server.Registry.Methods.{
  empty, get_blob, register_provider, create_blob_named, create_blob, is_invalid_name, assign_shard,
  acknowledge_shard, finalize_blob, contradicts,
}
use prime_server.Registry.Calls.{run, apply}
use prime_server.Registry.Invariant.{IsSigned}
use prime_server.Gateway.{normalize_hex, find_provider}
use prime_server.Gateway.Admission.{check_registration, check_encoding}
use prime_server.Gateway.Services.Memory.{call}
use prime_server.Gateway.Upload.{
  Placed, UploadResult, upload_registered_blob, place_encoded_blob, place_shards, place_shard,
  ensure_placed, upload_shard, confirm, finish, settle, choose_provider, existing_acknowledgement,
  context_of,
}
use prime_server.Gateway.Upload.Finished.{IsFinished, IsAdmitted, upload_registered_blob-IsFinished}
use prime_server.Gateway.Upload.Samples.{
  same_text, any_signature, providers, honest, calls, first, uploaded,
}

abbrev placed_at : ℕ → ℕ → Placed
placed_at n i = record { provider_id = n ∷ []; shard_index = i; commitment = 5 ∷ 0 ∷ []; size = 2 }

abbrev result : UploadResult
result = record {
  blob_id = lit "a";
  commitment = lit "0500";
  name_hash = lit "ab";
  chunk_commitments = (5 ∷ 0 ∷ []) ∷ (5 ∷ 0 ∷ []) ∷ [];
  clay_chunk_roots = [];
  size = 1;
  status = active;
  providers = placed_at 49 0 ∷ placed_at 50 1 ∷ [];
  provider_settlements = [];
  registry = get_blob uploaded.0.registry (lit "a");
}

returns : uploaded ≡ (uploaded.0, ok result)
unfolding upload_registered_blob place_encoded_blob place_shards place_shard ensure_placed
    upload_shard confirm finish settle choose_provider existing_acknowledgement context_of
    check_registration check_encoding call pure lift reads ◌>>=◌ run apply register_provider
    create_blob_named create_blob is_invalid_name assign_shard acknowledge_shard finalize_blob
    get_blob empty contradicts encode pad_input find_provider acknowledgement_context join_bar
    prime_server.Ack.normalize_hex normalize_hex to_lower lower_unit strip_0x hex from_hex
    is_hex_digit decimal decimal_onto lookup insert str_beq lit byte_length starts_with
    ends_with_unit includes_unit
returns = refl

upload_registered_blob-IsFinished_example :
    IsAdmitted same_bytes copies pair
      (5 ∷ [])
      (lit "a")
      (lit "ME")
      (get_blob first.registry (lit "a"))
    × IsFinished uploaded.0 (lit "a") result
    × IsSigned any_signature uploaded.0.registry
upload_registered_blob-IsFinished_example =
    upload_registered_blob-IsFinished same_text any_signature honest same_bytes copies pair
      (lit "op") 1 (lit "memory") first uploaded.0 (5 ∷ []) (lit "a") (lit "0xab") (lit "ME")
      (get_blob first.registry (lit "a")) providers 1 result (calls, refl) returns
