-- ===== src/Prepare.antt =====
-- The preparation of a blob by a client (sdk/src/prepare.mjs). A number of the caller is a natural one,
-- if it is a safe integer and not negative, or `none`. The configuration is an argument beside the
-- constant that the source uses.
pub mod Agrees
mod Tests
use prime_server.Base.{
  ℕ, ◌+◌, ◌-◌, ◌*◌, Str, Bool, not, ◌&&◌, ◌||◌, Option, none, some, List, [], ◌∷◌, ◌++◌, map, lit,
  length, ltb, leb, eqb, is_empty, is_safe, hex, from_hex, concat, replicate, byte_length,
  includes_unit, starts_with, ends_with_unit, decimal, if◌then◌else◌, Error, plain, Result, ok, err,
  ◌>>=◌, ◌>>◌, throw_if, require,
}
use prime_server.Erasure.{Bytes, Config, Clay}
use prime_server.Policy.{is_bytes32}

abbrev pub prime_blob_config : Config
prime_blob_config = record { n = 4; k = 2; d = 3; chunk_size_bytes = 1024 * 1024 }

unfoldable pub validate_name : Str → Result (Unit {0})
validate_name name =
    throw_if
      (is_empty name
        || ltb 1024 (byte_length name)
        || includes_unit name 0
        || starts_with name (b'/' ∷ [])
        || ends_with_unit name b'/')
      (plain (lit "blob name must be between 1 and 1024 bytes and cannot end with a slash"))

pub record EncodedInput : Type 0 where
  pub bytes : Bytes
  pub size : ℕ
  pub chunk_size : ℕ
  pub data_shards : ℕ
  pub total_shards : ℕ
  pub chunk_commitments : List Str
  pub chunkset_commitment : Str
  pub clay_chunk_roots : List Str
  pub clay_chunkset_root : Str

pub record Prepared : Type 0 where
  pub blob_id : Str
  pub name : Str
  pub commitment : Str
  pub size : ℕ
  pub chunk_size : ℕ
  pub data_shards : ℕ
  pub total_shards : ℕ
  pub expires_at : ℕ
  pub chunk_commitments : List Str
  pub clay_chunk_roots : List Str

abbrev pub prepared_of : Str → Str → ℕ → EncodedInput → Prepared
prepared_of id name expiry encoded = record {
  blob_id = id;
  name = name;
  commitment = lit "0x" ++ encoded.clay_chunkset_root;
  size = encoded.size;
  chunk_size = encoded.chunk_size;
  data_shards = encoded.data_shards;
  total_shards = encoded.total_shards;
  expires_at = expiry;
  chunk_commitments = encoded.chunk_commitments;
  clay_chunk_roots = encoded.clay_chunk_roots;
}

abbrev pub too_large : Config → Error
too_large config = plain (
    lit "blob is larger than the first chunkset capacity of "
    ++ (decimal (config.k * config.chunk_size_bytes) ++ lit " bytes"))

-- `now + seconds` for an expiration in seconds, and the given time without one.
abbrev pub expiry_of : Option (Option ℕ) → Option ℕ → ℕ → Result (Option ℕ)
expiry_of none expires_at now = ok expires_at
expiry_of (some none) expires_at now =
    err (plain (lit "expirationSeconds must be a positive integer"))
expiry_of (some (some seconds)) expires_at now =
    if eqb seconds 0
    then err (plain (lit "expirationSeconds must be a positive integer"))
    else ok (some (now + seconds))

abbrev pub bad_expiry : Error
bad_expiry = plain (lit "expiresAt must be zero or a future UNIX timestamp")

unfoldable pub resolve_expiry : Option (Option ℕ) → Option ℕ → ℕ → Result ℕ
resolve_expiry expiration_seconds expires_at now = do
  resolved ← expiry_of expiration_seconds expires_at now
  t ← require resolved bad_expiry
  throw_if (not (is_safe t) || ltb 0 t && leb t now) bad_expiry
  ok t

module _ (sha256 : Bytes → Str) (clay : Clay) (config : Config) where
  abbrev pub zero_padded : Bytes → Bytes
  zero_padded input = input ++ replicate (config.k * config.chunk_size_bytes - length input) 0

  unfoldable pub encode_input : Bytes → Result EncodedInput
  encode_input input = do
    throw_if (eqb (length input) 0) (plain (lit "blob body is required"))
    throw_if (ltb (config.k * config.chunk_size_bytes) (length input)) (too_large config)
    let chunks = clay.erasure_code config (zero_padded input)
    ok (record {
      bytes = input;
      size = length input;
      chunk_size = config.chunk_size_bytes;
      data_shards = config.k;
      total_shards = config.n;
      chunk_commitments = map sha256 chunks;
      chunkset_commitment = sha256 (from_hex (concat (map sha256 chunks)));
      clay_chunk_roots = map hex (clay.chunk_roots config (zero_padded input));
      clay_chunkset_root = hex (clay.chunkset_root config (zero_padded input));
    })

  -- `random` are the 32 random bytes that make the id if none is given; `now` is the time in seconds.
  unfoldable pub prepare_blob :
      Bytes → Str → Option (Option ℕ) → Option ℕ → Str → ℕ → Bytes → Result Prepared
  prepare_blob input name expiration_seconds expires_at blob_id now random = do
    validate_name name
    expiry ← resolve_expiry expiration_seconds expires_at now
    encoded ← encode_input input
    let id : Str = if is_empty blob_id then lit "0x" ++ hex random else blob_id
    throw_if (not (is_bytes32 id)) (plain (lit "blobId must be a 32-byte hex identifier"))
    ok (prepared_of id name expiry encoded)
