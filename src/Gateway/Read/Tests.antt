-- ===== src/Gateway/Read/Tests.antt =====
-- A read of one byte from two copies, of which only the second can be fetched.
use prime_server.Base.{
  ℕ, zero, suc, ◌≤◌, ◌<◌, some, is_some, List, [], ◌∷◌, ◌≡◌, refl, arith, length, keep, upto, ok,
  err, plain, lookup, insert, str_beq, str_eq, nat_eq, ◌==◌, lit, decimal, decimal_onto,
  if◌then◌else◌,
}
use prime_server.Registry.{active, user, Acknowledgement, BlobView}
use prime_server.Registry.Methods.{initial_policy, initial_payment}
use prime_server.Erasure.Laws.{chunk_at}
use prime_server.Erasure.Tests.{
  pair, copies, copies-IsErasureCode, same_bytes, encoded, encode_five,
}
use prime_server.Gateway.{Endpoint, Fetch, find_provider}
use prime_server.Gateway.Read.{
  ReadResult, read_provider_shard, read_shard, acknowledgements_of, read_blob,
}
use prime_server.Gateway.Read.Original.{IsUploaded, IsOriginal, read_blob-IsOriginal}

abbrev receipt_for : ℕ → Acknowledgement
receipt_for i = record {
  provider_id = b'p' ∷ [];
  shard_index = i;
  commitment = 5 ∷ 0 ∷ [];
  size = 2;
}

abbrev view : BlobView
view = record {
  blob_id = b'1' ∷ [];
  owner = b'a' ∷ [];
  commitment = [];
  size = 1;
  chunk_size = 2;
  data_shards = 1;
  total_shards = 2;
  expires_at = 0;
  origin = user;
  blob_name = [];
  name_hash = [];
  status = active;
  policy = initial_policy;
  payment = initial_payment;
  placement = (0, b'p' ∷ []) ∷ (1, b'p' ∷ []) ∷ [];
  acknowledgements = receipt_for 0 ∷ receipt_for 1 ∷ [];
}

abbrev one_provider : List Endpoint
one_provider = record { provider_id = b'p' ∷ []; url = [] } ∷ []

abbrev network : Fetch
network url = if url == lit "/v1/shards/1/1" then ok (200, 5 ∷ 0 ∷ []) else err (plain [])

view-IsUploaded : IsUploaded same_bytes copies pair copies-IsErasureCode (5 ∷ []) encoded view
unfolding lookup insert
view-IsUploaded = record {
  total_shards = refl;
  data_shards = refl;
  size = refl;
  acknowledged = acked;
}
  where
    acked :
        (i : ℕ)
        → i < 2
        → (a : Acknowledgement) × (lookup i (acknowledgements_of view) ≡ some a)
          × (a.commitment ≡ chunk_at encoded.chunks i)
          × (a.size ≡ length (chunk_at encoded.chunks i))
    acked zero h = (receipt_for 0, refl, refl, refl)
    acked (suc zero) h = (receipt_for 1, refl, refl, refl)
    acked (suc (suc i)) h = ground arith

one_readable :
    1
    ≤ length (
        keep
          (λ i. is_some (read_shard same_bytes network view (b'1' ∷ []) one_provider i))
          (upto 2))
unfolding read_shard read_provider_shard find_provider lookup insert str_beq lit decimal
    decimal_onto
one_readable = omega arith

read_blob-IsOriginal_example :
    (r : ReadResult) × (read_blob same_bytes copies pair network
        (some view)
        (b'1' ∷ [])
        one_provider
      ≡ ok r)
    × IsOriginal same_bytes copies pair copies-IsErasureCode network
        (b'1' ∷ [])
        one_provider
        (5 ∷ [])
        encoded
        view
        view-IsUploaded
        (λ i x inside sized hashed. hashed)
        r
read_blob-IsOriginal_example =
    read_blob-IsOriginal same_bytes copies pair copies-IsErasureCode network (b'1' ∷ [])
      one_provider (5 ∷ []) encoded view view-IsUploaded (λ i x inside sized hashed. hashed)
      encode_five (omega arith) one_readable
