-- ===== src/Storage/Intact.antt =====
-- What a provider has stored stays as it is and matches its commitment, also over calls that a crash
-- cuts off.
use prime_server.Base.{
  ℕ, Str, not, ◌||◌, Option, none, some, List, [], ◌∷◌, ◌≡◌, ◌≢◌, refl, sym, ap, ◌∙◌, subst, inl,
  inr, length, eqb, lookup, insert, lookup-insert, lookup-insert_self, lookup-insert_other, ◌==◌,
  ==-cases, str_eq, Bool-cases, Result, ok, err, ◌>>=◌,
}
use mathlib.Core.Option.{some-injective}
use prime_server.Erasure.{Bytes}
use prime_server.Storage.{
  Metadata, Disk, file_key, contradicts, metadata_of, written, store, put_shard, interrupted,
}

-- A call of `putShard`, which may be cut off.
pub data Put : Type 0 where
  put : (blob_id shard_index : Str) (content : Bytes) (commitment : Option Str) (now : ℕ) → Put
  cut_off : (blob_id shard_index : Str) (content : Bytes) → Put

abbrev pub disk_after : Disk → Result (Disk × Metadata) → Disk
disk_after disk (ok (disk', _)) = disk'
disk_after disk (err _) = disk

abbrev pub cut_off_at : Disk → Bytes → Result Str → Disk
cut_off_at disk content (err _) = disk
cut_off_at disk content (ok key) = interrupted disk key content (lookup key disk.metadata)

abbrev pub no_files : Disk
no_files = record { shards = []; metadata = [] }

module _ (sha256 : Bytes → Str) where
  unfoldable pub apply : Disk → Put → Disk
  apply disk (put blob_id shard_index content commitment now) =
      disk_after disk (put_shard sha256 disk blob_id shard_index content commitment now)
  apply disk (cut_off blob_id shard_index content) =
      cut_off_at disk content (file_key blob_id shard_index)

  unfoldable pub run : Disk → List Put → Disk
  run disk [] = disk
  run disk (p ∷ ps) = run (apply disk p) ps

  -- Every shard with metadata has bytes that match it.
  abbrev pub IsIntact : Disk → Type 0
  IsIntact disk =
      (key : Str) (m : Metadata)
      → lookup key disk.metadata ≡ some m
      → (content : Bytes) × (lookup key disk.shards ≡ some content)
        × (sha256 content ≡ m.commitment)
        × (length content ≡ m.size)

  -- What a call may do to the files.
  pub record Keeps (disk disk' : Disk) : Type 0 where
    pub intact : IsIntact disk → IsIntact disk'
    pub metadata :
        (key : Str) (m : Metadata)
        → lookup key disk.metadata ≡ some m
        → lookup key disk'.metadata ≡ some m
    pub shards :
        (key : Str) (m : Metadata)
        → lookup key disk.metadata ≡ some m
        → lookup key disk'.shards ≡ lookup key disk.shards

  same-Keeps : (disk : Disk) → Keeps disk disk
  same-Keeps disk = record { intact = λ h. h; metadata = λ key m h. h; shards = λ key m h. refl }

  then-Keeps : (a b c : Disk) → Keeps a b → Keeps b c → Keeps a c
  then-Keeps a b c f g = record {
    intact = λ h. g.intact (f.intact h);
    metadata = λ key m h. g.metadata key m (f.metadata key m h);
    shards = λ key m h. g.shards key m (f.metadata key m h) ∙ f.shards key m h;
  }

  -- A key without metadata is not that of a shard with metadata.
  other_key :
      (disk : Disk) (k j : Str) (m : Metadata)
      → lookup k disk.metadata ≡ none
      → lookup j disk.metadata ≡ some m
      → k ≢ j
  other_key disk k j m free at e =
      let there = subst (λ x. lookup x disk.metadata ≡ none) e free in cc

  written-Keeps :
      (disk : Disk) (key blob_id shard_index : Str) (content : Bytes) (now : ℕ)
      → lookup key disk.metadata ≡ none
      → Keeps disk (written sha256 disk key blob_id shard_index content now)
  written-Keeps disk key blob_id shard_index content now free = record {
    intact = λ h j m at. elim (==-cases key j) [
      | inl (b, same) ↦
          let new : metadata_of sha256 blob_id shard_index content now ≡ m = some-injective _ _ (
            sym (lookup-insert_self key _ disk.metadata)
            ∙ (ap
                  (λ x.
                    lookup x (
                      insert key (metadata_of sha256 blob_id shard_index content now)
                        disk.metadata))
                  same
                ∙ at)) in
          (
            content,
            ap (λ x. lookup x (insert key content disk.shards)) (sym same)
                ∙ lookup-insert_self key content disk.shards,
            ap (λ (x : Metadata). x.commitment) new,
            ap (λ (x : Metadata). x.size) new,
          )
      | inr b ↦
          let old_at : lookup j disk.metadata ≡ some m =
            sym (
              rw
                (lookup-insert key j (metadata_of sha256 blob_id shard_index content now)
                  disk.metadata)
                (rw b refl))
            ∙ at in
          let (old, stored, matches, sized) = h j m old_at in
          (old, rw (lookup-insert key j content disk.shards) (rw b stored), matches, sized)
    ];
    metadata =
        λ j m at. lookup-insert_other key j _ disk.metadata (other_key disk key j m free at) ∙ at;
    shards =
        λ j m at. lookup-insert_other key j content disk.shards (other_key disk key j m free at);
  }

  interrupted-Keeps :
      (disk : Disk) (key : Str) (content : Bytes) (o : Option Metadata)
      → lookup key disk.metadata ≡ o
      → Keeps disk (interrupted disk key content o)
  interrupted-Keeps disk key content (some existing) found = same-Keeps disk
  interrupted-Keeps disk key content none free = record {
    intact = λ h j m at.
        let (old, stored, matches, sized) = h j m at in
        (
          old,
          lookup-insert_other key j content disk.shards (other_key disk key j m free at) ∙ stored,
          matches,
          sized,
        );
    metadata = λ j m at. at;
    shards =
        λ j m at. lookup-insert_other key j content disk.shards (other_key disk key j m free at);
  }

  store-Keeps :
      (disk : Disk) (key blob_id shard_index : Str) (content : Bytes) (now : ℕ)
      (o : Option Metadata)
      → lookup key disk.metadata ≡ o
      → Keeps disk (disk_after disk (store sha256 disk key blob_id shard_index content now o))
  store-Keeps disk key blob_id shard_index content now none free =
      written-Keeps disk key blob_id shard_index content now free
  store-Keeps disk key blob_id shard_index content now (some existing) found =
      elim (Bool-cases
        (not (existing.commitment == sha256 content) || not (eqb existing.size (length content)))) [
          | inl e ↦ rw e (same-Keeps disk)
          | inr e ↦ rw e (same-Keeps disk)
        ]

  bound-Keeps :
      (disk : Disk) (r : Result Str) (f : Str → Result (Disk × Metadata))
      → ((key : Str) → Keeps disk (disk_after disk (f key)))
      → Keeps disk (disk_after disk (r >>= f))
  bound-Keeps disk (err e) f h = same-Keeps disk
  bound-Keeps disk (ok key) f h = h key

  put_shard-Keeps :
      (disk : Disk) (blob_id shard_index : Str) (content : Bytes) (commitment : Option Str)
      (now : ℕ)
      → Keeps disk
          (disk_after disk (put_shard sha256 disk blob_id shard_index content commitment now))
  unfolding put_shard
  put_shard-Keeps disk blob_id shard_index content commitment now =
      elim (Bool-cases (contradicts commitment (sha256 content))) [
        | inl e ↦ rw (e, put_shard) (same-Keeps disk)
        | inr e ↦
            rw (e, put_shard)
              (bound-Keeps disk (file_key blob_id shard_index) _ λ key.
                store-Keeps disk key blob_id shard_index content now (lookup key disk.metadata)
                  refl)
      ]

  cut_off-Keeps :
      (disk : Disk) (content : Bytes) (r : Result Str) → Keeps disk (cut_off_at disk content r)
  cut_off-Keeps disk content (err _) = same-Keeps disk
  cut_off-Keeps disk content (ok key) =
      interrupted-Keeps disk key content (lookup key disk.metadata) refl

  pub run-Keeps : (disk : Disk) (puts : List Put) → Keeps disk (run disk puts)
  unfolding run apply
  run-Keeps disk [] = same-Keeps disk
  run-Keeps disk (put b i content commitment now ∷ ps) =
      then-Keeps disk (apply disk (put b i content commitment now)) _
        (put_shard-Keeps disk b i content commitment now)
        (run-Keeps (apply disk (put b i content commitment now)) ps)
  run-Keeps disk (cut_off b i content ∷ ps) =
      then-Keeps disk (apply disk (cut_off b i content)) _
        (cut_off-Keeps disk content (file_key b i))
        (run-Keeps (apply disk (cut_off b i content)) ps)

  pub none-IsIntact : IsIntact no_files
  unfolding lookup
  none-IsIntact key m h = cc
