-- ===== src/Prepare/Tests.antt =====
-- One byte prepared with the code of two copies, and its registration.
use prime_server.Base.{
  some, [], ◌∷◌, ◌≡◌, refl, lit, ok, is_hex_digit, byte_length, includes_unit, starts_with,
  ends_with_unit, hex, from_hex,
}
use prime_server.Erasure.Tests.{copies, pair, same_bytes}
use prime_server.Registry.{BlobView, user, pending}
use prime_server.Registry.Methods.{initial_policy, initial_payment}
use prime_server.Policy.{is_bytes32, zero_bytes32}
use prime_server.Prepare.{Prepared, validate_name, resolve_expiry, encode_input, prepare_blob}
use prime_server.Prepare.Agrees.{IsRegistered, IsEncoded, prepare_blob-encode}

abbrev prepared : Prepared
prepared = record {
  blob_id = zero_bytes32;
  name = lit "a";
  commitment = lit "0x0500";
  size = 1;
  chunk_size = 2;
  data_shards = 1;
  total_shards = 2;
  expires_at = 70;
  chunk_commitments = (5 ∷ 0 ∷ []) ∷ (5 ∷ 0 ∷ []) ∷ [];
  clay_chunk_roots = [];
}

prepares :
    prepare_blob same_bytes copies pair
      (5 ∷ [])
      (lit "a")
      (some (some 20))
      (some 0)
      zero_bytes32
      50
      []
    ≡ ok prepared
unfolding prepare_blob validate_name resolve_expiry encode_input is_bytes32 is_hex_digit lit
    byte_length includes_unit starts_with ends_with_unit hex from_hex
prepares = refl

abbrev registration : BlobView
registration = record {
  blob_id = zero_bytes32;
  owner = [];
  commitment = lit "0x0500";
  size = 1;
  chunk_size = 2;
  data_shards = 1;
  total_shards = 2;
  expires_at = 70;
  origin = user;
  blob_name = lit "a";
  name_hash = [];
  status = pending;
  policy = initial_policy;
  payment = initial_payment;
  placement = [];
  acknowledgements = [];
}

is_registered : IsRegistered prepared registration
is_registered = record {
  committed = refl;
  sized = refl;
  chunk_sized = refl;
  data_shards = refl;
  total_shards = refl;
}

prepare_blob-encode_example : IsEncoded same_bytes copies pair (5 ∷ []) prepared registration
prepare_blob-encode_example =
    prepare_blob-encode same_bytes copies pair (5 ∷ []) (lit "a") (some (some 20)) (some 0)
      zero_bytes32 50 [] prepared registration prepares is_registered
