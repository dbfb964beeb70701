-- ===== src/Storage.antt =====
-- `ProviderStorage` (provider/src/storage.mjs): a provider's shards on disk, as the files that hold
-- their bytes and those that hold their metadata, by the part of the name before the extension.
pub mod Intact
pub mod Served
mod Tests
use prime_server.Base.{
  ℕ, ◌+◌, ◌-◌, Str, Bool, true, false, not, ◌&&◌, ◌||◌, Option, none, some, List, [], ◌∷◌, ◌++◌,
  lit, is_empty, length, take, drop, min, max, ltb, leb, eqb, lookup, insert, Table, ◌==◌, str_eq,
  if◌then◌else◌, Error, plain, Result, ok, err, ◌>>=◌, ◌>>◌, throw_if, require,
}
use prime_server.Erasure.{Bytes}

-- `Number(shardIndex)` in `shard_index` is kept as the text that it reads.
pub record Metadata : Type 0 where
  pub blob_id : Str
  pub shard_index : Str
  pub size : ℕ
  pub commitment : Str
  pub stored_at : ℕ

pub record Disk : Type 0 where
  pub shards : Table Str Bytes
  pub metadata : Table Str Metadata

abbrev pub is_part_unit : ℕ → Bool
is_part_unit c =
    leb b'A' c && leb c b'Z'
    || leb b'a' c && leb c b'z'
    || leb b'0' c && leb c b'9'
    || (eqb c b'.' || eqb c b'_' || eqb c b'-')

abbrev pub all_part_units : Str → Bool
all_part_units [] = true
all_part_units (c ∷ s) = is_part_unit c && all_part_units s

-- `validatePart`.
unfoldable pub validate_part : Str → Str → Result Str
validate_part value label =
    if not (is_empty value) && leb (length value) 128 && all_part_units value
    then ok value
    else err (plain (lit "invalid " ++ label))

-- `filePaths`: the common part of the two names, within the data directory.
unfoldable pub file_key : Str → Str → Result Str
file_key blob_id shard_index = do
  safe_blob_id ← validate_part blob_id (lit "blob id")
  safe_shard_index ← validate_part shard_index (lit "shard index")
  ok (safe_blob_id ++ (b'.' ∷ safe_shard_index))

abbrev pub conflict : Error
conflict = plain (lit "shard already exists with different content")

-- `commitment && commitment !== computed`.
abbrev pub contradicts : Option Str → Str → Bool
contradicts none computed = false
contradicts (some c) computed = not (is_empty c) && not (c == computed)

unfoldable pub get_shard_metadata : Disk → Str → Str → Result Metadata
get_shard_metadata disk blob_id shard_index = do
  key ← file_key blob_id shard_index
  require (lookup key disk.metadata) (plain (lit "ENOENT"))

pub record ReadShard : Type 0 where
  pub bytes : Bytes
  pub size : ℕ
  pub start : ℕ
  pub end_exclusive : ℕ

abbrev pub end_or_size : Option ℕ → ℕ → ℕ
end_or_size none size = size
end_or_size (some e) size = e

abbrev pub cut : Bytes → ℕ → ℕ → ReadShard
cut content safe_start safe_end = record {
  bytes = take (safe_end - safe_start) (drop safe_start content);
  size = length content;
  start = safe_start;
  end_exclusive = safe_end;
}

unfoldable pub read_shard : Disk → Str → Str → ℕ → Option ℕ → Result ReadShard
read_shard disk blob_id shard_index start end_exclusive = do
  key ← file_key blob_id shard_index
  content ← require (lookup key disk.shards) (plain (lit "ENOENT"))
  ok (
      cut content (min start (length content)) (
        max (min start (length content))
          (min (end_or_size end_exclusive (length content)) (length content))))

module _ (sha256 : Bytes → Str) where
  abbrev pub metadata_of : Str → Str → Bytes → ℕ → Metadata
  metadata_of blob_id shard_index content now = record {
    blob_id = blob_id;
    shard_index = shard_index;
    size = length content;
    commitment = sha256 content;
    stored_at = now;
  }

  -- The files after the writes of `putShard`, where there was no metadata.
  abbrev pub written : Disk → Str → Str → Str → Bytes → ℕ → Disk
  written disk key blob_id shard_index content now = record {
    shards = insert key content disk.shards;
    metadata = insert key (metadata_of blob_id shard_index content now) disk.metadata;
  }

  -- The rest of `putShard`, with the metadata that it found.
  abbrev pub store : Disk → Str → Str → Str → Bytes → ℕ → Option Metadata → Result (Disk × Metadata)
  store disk key blob_id shard_index content now (some existing) =
      if not (existing.commitment == sha256 content) || not (eqb existing.size (length content))
      then err conflict
      else ok (disk, existing)
  store disk key blob_id shard_index content now none = ok (
    written disk key blob_id shard_index content now,
    metadata_of blob_id shard_index content now,
  )

  unfoldable pub put_shard : Disk → Str → Str → Bytes → Option Str → ℕ → Result (Disk × Metadata)
  put_shard disk blob_id shard_index content commitment now = do
    throw_if (contradicts commitment (sha256 content)) (plain (lit "shard commitment mismatch"))
    key ← file_key blob_id shard_index
    store disk key blob_id shard_index content now (lookup key disk.metadata)

-- A call of `putShard` that the process does not survive: it may have renamed the shard's file, but
-- has not written the metadata.
abbrev pub interrupted : Disk → Str → Bytes → Option Metadata → Disk
interrupted disk key content (some existing) = disk
interrupted disk key content none = record disk { shards = insert key content disk.shards }
