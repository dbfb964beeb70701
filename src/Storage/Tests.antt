-- ===== src/Storage/Tests.antt =====
-- A shard of two bytes, stored after a call that was cut off, and an attempt to replace it.
use prime_server.Base.{
  ℕ, Str, none, List, [], ◌∷◌, ◌≡◌, refl, length, lookup, insert, str_beq, str_eq, Option, ok, err,
}
use prime_server.Erasure.{Bytes}
use prime_server.Storage.{
  Metadata, Disk, validate_part, file_key, get_shard_metadata, ReadShard, read_shard, put_shard,
  conflict, metadata_of,
}
use prime_server.Storage.Intact.{Put, put, cut_off, apply, run, no_files}
use prime_server.Storage.Served.{run-kept, run-served}

abbrev same_bytes : Bytes → Str
same_bytes b = b

abbrev a : Str
a = b'a' ∷ []

abbrev zero_index : Str
zero_index = b'0' ∷ []

abbrev puts : List Put
puts = cut_off a zero_index (9 ∷ []) ∷ put a zero_index (5 ∷ 6 ∷ []) none 7 ∷ []

abbrev disk : Disk
disk = run same_bytes no_files puts

abbrev about : Metadata
about = metadata_of same_bytes a zero_index (5 ∷ 6 ∷ []) 7

has_metadata : get_shard_metadata disk a zero_index ≡ ok about
unfolding get_shard_metadata run apply put_shard file_key validate_part lookup insert str_beq
has_metadata = refl

refuses : put_shard same_bytes disk a zero_index (8 ∷ []) none 9 ≡ err conflict
unfolding get_shard_metadata run apply put_shard file_key validate_part lookup insert str_beq
refuses = refl

run-kept_example :
    (get_shard_metadata (run same_bytes disk (put a zero_index (8 ∷ []) none 9 ∷ [])) a zero_index
      ≡ ok about)
    × ((start : ℕ) (end_exclusive : Option ℕ)
        → read_shard
            (run same_bytes disk (put a zero_index (8 ∷ []) none 9 ∷ []))
            a
            zero_index
            start
            end_exclusive
          ≡ read_shard disk a zero_index start end_exclusive)
run-kept_example =
    run-kept same_bytes disk (put a zero_index (8 ∷ []) none 9 ∷ []) a zero_index about has_metadata

run-served_example :
    (r : ReadShard) × (read_shard (run same_bytes no_files puts) a zero_index 0 none ≡ ok r)
    × (r.bytes ≡ 5 ∷ 6 ∷ [])
    × (length r.bytes ≡ 2)
run-served_example = run-served same_bytes puts a zero_index about has_metadata
