-- ===== src/Storage/Served.antt =====
-- What a provider serves of the shards that it has stored.
use prime_server.Base.{
  ℕ, ◌-◌, Str, Option, none, some, List, [], ◌∷◌, ◌≡◌, refl, ap, ◌∙◌, arith, length, take, drop,
  min, max, lookup, str_eq, Error, require, ok, bind-then, ok-inj,
}
use prime_server.Erasure.{Bytes}
use prime_server.Storage.{Metadata, Disk, file_key, get_shard_metadata, ReadShard, cut, read_shard}
use prime_server.Storage.Intact.{Put, run, run-Keeps, no_files, none-IsIntact}

required : (o : Option Metadata) (e : Error) {m : Metadata} → require o e ≡ ok m → o ≡ some m
required none e h = cc
required (some m) e h = ap some (ok-inj h)

pub found_under :
    (disk : Disk) (blob_id shard_index : Str) (m : Metadata)
    → get_shard_metadata disk blob_id shard_index ≡ ok m
    → (key : Str) × (file_key blob_id shard_index ≡ ok key) × (lookup key disk.metadata ≡ some m)
unfolding get_shard_metadata
found_under disk blob_id shard_index m h =
    bind-then (file_key blob_id shard_index) _ h
      λ key named k. (key, named, required (lookup key disk.metadata) _ k)

take_whole : (xs : Bytes) → take (length xs) xs ≡ xs
take_whole [] = refl
take_whole (x ∷ xs) = ap (◌∷◌ x) (take_whole xs)

pub cut_whole :
    (content : Bytes) (n : ℕ)
    → n ≡ length content
    → take (max (min 0 n) (min n n) - min 0 n) (drop (min 0 n) content) ≡ content
cut_whole content n e =
    let from_start : min 0 n ≡ 0 = omega arith in
    let all : max 0 (min n n) - 0 ≡ length content = omega arith in
    ap (λ x. take (max x (min n n) - x) (drop x content)) from_start
    ∙ (ap (λ x. take x content) all ∙ take_whole content)

module _ (sha256 : Bytes → Str) where
  -- Once a shard has metadata, no later calls of `putShard`, complete or cut off by a crash, change
  -- its metadata or what any range of it reads as.
  pub run-kept :
      (disk : Disk) (puts : List Put) (blob_id shard_index : Str) (m : Metadata)
      → get_shard_metadata disk blob_id shard_index ≡ ok m
      → (get_shard_metadata (run sha256 disk puts) blob_id shard_index ≡ ok m)
        × ((start : ℕ) (end_exclusive : Option ℕ)
            → read_shard (run sha256 disk puts) blob_id shard_index start end_exclusive
              ≡ read_shard disk blob_id shard_index start end_exclusive)
  unfolding get_shard_metadata read_shard
  run-kept disk puts blob_id shard_index m h =
      let (key, named, at) = found_under disk blob_id shard_index m h in
      let kept = run-Keeps sha256 disk puts in
      (
        rw named (rw (kept.metadata key m at) refl),
        λ start end_exclusive. rw named (rw (kept.shards key m at) refl),
      )

  -- After any calls of `putShard` on an empty disk, complete or cut off by a crash, a shard that has
  -- metadata can be read, and the whole of it has the commitment and the size of the metadata.
  pub run-served :
      (puts : List Put) (blob_id shard_index : Str) (m : Metadata)
      → get_shard_metadata (run sha256 no_files puts) blob_id shard_index ≡ ok m
      → (r : ReadShard) × (read_shard (run sha256 no_files puts) blob_id shard_index 0 none ≡ ok r)
        × (sha256 r.bytes ≡ m.commitment)
        × (length r.bytes ≡ m.size)
  unfolding read_shard
  run-served puts blob_id shard_index m h =
      let disk : Disk = run sha256 no_files puts in
      let (key, named, at) = found_under disk blob_id shard_index m h in
      let (content, stored, matches, sized) =
        (run-Keeps sha256 no_files puts).intact (none-IsIntact sha256) key m at in
      let whole = cut_whole content (length content) refl in
      (
        cut content (min 0 (length content))
            (max (min 0 (length content)) (min (length content) (length content))),
        rw named (rw stored refl),
        ap sha256 whole ∙ matches,
        ap length whole ∙ sized,
      )
