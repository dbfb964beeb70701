-- ===== src/Gateway/Read/Original.antt =====
-- A read returns what was uploaded, as long as enough shards can be read.
use prime_server.Base.{
  ℕ, ◌+◌, ◌≤◌, ◌<◌, Str, Bool, false, not, Option, none, some, is_some, List, [], ◌∷◌, ◌≡◌, refl,
  sym, ap, ◌∙◌, subst, arith, length, keep, ltb, eqb, is_empty, upto, upto_from-below,
  upto_from-IsStrict, keep-entries_of, entries_of, length-entries_of, sort_sorted, All, Result, ok,
  err, throw_if-then, bind-then, ok-inj, lookup, nat_eq, str_eq, ◌==◌, str_beq_iff,
}
use mathlib.Core.Option.{some-injective}
use prime_server.Registry.{Acknowledgement, BlobView}
use prime_server.Erasure.{Bytes, Config, Clay, Encoded, capacity, encode, decode, pad_input}
use prime_server.Erasure.Laws.{chunk_at, IsErasureCode}
use prime_server.Erasure.Roundtrip.{
  decode-encode, encode-fits, padding_of, length-padding_of, take-append_length,
}
use prime_server.Gateway.{Endpoint, Fetch, find_provider}
use prime_server.Gateway.Read.{
  ReadResult, read_result, chunks_for, acknowledgements_of, collect, by_index, join_shards,
  read_provider_shard, read_shard, assemble, read_blob, shard_url, is_ok_status,
}
use prime_server.Gateway.Read.Collected.{
  collect-entries, nothing_lost, keep-first, bytes_of-entries, entries_of-IsSorted, map-chunk_at,
}

module _ (sha256 : Bytes → Str) (clay : Clay) (config : Config)
    (law : IsErasureCode clay config) where
  encode-capacity :
      (input : Bytes) (e : Encoded)
      → encode sha256 clay config input ≡ ok e
      → length input ≤ capacity config
  unfolding encode pad_input
  encode-capacity input e h = bind-then (pad_input input config) _ h λ padded padding _.
      throw_if-then (ltb (capacity config) (length input)) _ _ padding λ short _. ground arith

  -- A blob that the registry describes as the upload of an encoded input, with an acknowledgement
  -- for each shard that states its commitment and size.
  pub record IsUploaded (input : Bytes) (e : Encoded) (b : BlobView) : Type 0 where
    pub total_shards : b.total_shards ≡ config.n
    pub data_shards : b.data_shards ≡ config.k
    pub size : b.size ≡ length input
    pub acknowledged :
        (i : ℕ)
        → i < config.n
        → (a : Acknowledgement) × (lookup i (acknowledgements_of b) ≡ some a)
          × (a.commitment ≡ sha256 (chunk_at e.chunks i))
          × (a.size ≡ length (chunk_at e.chunks i))

  -- No other bytes of a chunk's size have its hash.
  abbrev pub IsCollisionFree : Encoded → Type 0
  IsCollisionFree e =
      (i : ℕ) (x : Bytes)
      → i < config.n
      → length x ≡ length (chunk_at e.chunks i)
      → sha256 x ≡ sha256 (chunk_at e.chunks i)
      → x ≡ chunk_at e.chunks i

  module _ (fetch : Fetch) (blob_id : Str) (providers : List Endpoint) (input : Bytes) (e : Encoded)
      (b : BlobView) (uploaded : IsUploaded input e b) (collision_free : IsCollisionFree e) where
    abbrev readable : ℕ → Bool
    readable i = is_some (read_shard sha256 fetch b blob_id providers i)

    -- What a provider returns and the checks accept has the expected size and hash.
    read_provider_shard-checked :
        (p : Endpoint) (i : ℕ) (commitment : Str) (size : ℕ) (x : Bytes)
        → read_provider_shard sha256 fetch p blob_id i commitment size ≡ ok x
        → (length x ≡ size) × (sha256 x ≡ commitment)
    unfolding read_provider_shard
    read_provider_shard-checked p i commitment size x h =
        bind-then (fetch (shard_url p blob_id i)) _ h λ response _ k.
          throw_if-then (not (is_ok_status response.0)) _ _ k λ _ k1.
            throw_if-then (not (eqb (length response.1) size)) _ _ k1 λ sized k2.
              throw_if-then (not (sha256 response.1 == commitment)) _ _ k2 λ hashed done.
                let same : response.1 ≡ x = ok-inj done in
                subst (λ y. (length y ≡ size) × (sha256 y ≡ commitment)) same
                  (ground arith, (str_beq_iff (sha256 response.1) commitment).0 (ground arith))

    read_by-chunk :
        (i : ℕ)
        → i < config.n
        → (o : Option Endpoint) (q : Option Acknowledgement) (a : Acknowledgement) (x : Bytes)
        → q ≡ some a
        → a.commitment ≡ sha256 (chunk_at e.chunks i)
        → a.size ≡ length (chunk_at e.chunks i)
        → (elim o [
          | none ↦ none
          | some p ↦ elim q [
            | none ↦ none
            | some c ↦ elim (read_provider_shard sha256 fetch p blob_id i c.commitment c.size) [
              | ok bytes ↦ some bytes
              | err _ ↦ none
            ]
          ]
        ])
          ≡ some x
        → x ≡ chunk_at e.chunks i
    read_by-chunk i inside none q a x acked hashed sized h = cc
    read_by-chunk i inside (some p) none a x acked hashed sized h = cc
    read_by-chunk i inside (some p) (some c) a x acked hashed sized h =
        let same : c ≡ a = some-injective c a acked in
        let read : read_provider_shard sha256 fetch p blob_id i c.commitment c.size ≡ ok x =
          ok_of (read_provider_shard sha256 fetch p blob_id i c.commitment c.size) h in
        let (l, s) = read_provider_shard-checked p i c.commitment c.size x read in
        collision_free i x inside (l ∙ (ap (λ (y : Acknowledgement). y.size) same ∙ sized))
          (s ∙ (ap (λ (y : Acknowledgement). y.commitment) same ∙ hashed))
      where
        ok_of :
            (r : Result Bytes)
            → (elim r [ ok bytes ↦ some bytes | err _ ↦ none ]) ≡ some x
            → r ≡ ok x
        ok_of (ok bytes) k = cc
        ok_of (err _) k = cc

    read_shard-chunk :
        (i : ℕ) (x : Bytes)
        → i < config.n
        → read_shard sha256 fetch b blob_id providers i ≡ some x
        → x ≡ chunk_at e.chunks i
    unfolding read_shard
    read_shard-chunk i x inside h =
        let (a, found, hashed, sized) = uploaded.acknowledged i inside in
        read_by-chunk i inside (find_provider providers (lookup i b.placement))
          (lookup i (acknowledgements_of b)) a x found hashed sized h

    each_read :
        (is : List ℕ)
        → All (λ i. (0 ≤ i) × (i < 0 + config.n)) is
        → All
            (λ i.
              (x : Bytes)
              → read_shard sha256 fetch b blob_id providers i ≡ some x
              → x ≡ chunk_at e.chunks i)
            is
    each_read [] h = tt
    each_read (i ∷ is) ((_, h), hs) = ((λ x. read_shard-chunk i x (omega arith)), each_read is hs)

    collected : collect (read_shard sha256 fetch b blob_id providers) (upto config.n) ≡ (
      entries_of (chunk_at e.chunks) (keep readable (upto config.n)),
      keep (λ i. not (readable i)) (upto config.n),
    )
    collected =
        collect-entries _ (chunk_at e.chunks) (upto config.n)
          (each_read (upto config.n) (upto_from-below 0 config.n))

    -- The shards that are read, and those that are missing.
    abbrev readable_indexes : List ℕ
    readable_indexes = keep readable (upto config.n)

    abbrev missing_indexes : List ℕ
    missing_indexes = keep (λ i. not (readable i)) (upto config.n)

    join_shards-all :
        length input ≤ capacity config
        → encode sha256 clay config input ≡ ok e
        → config.k ≤ config.n
        → missing_indexes ≡ []
        → join_shards (entries_of (chunk_at e.chunks) readable_indexes) b ≡ input
    unfolding join_shards
    join_shards-all fits encoded few none_lost =
        let (is_chunks, _, _, _) = encode-fits sha256 clay config law input fits e encoded in
        let padded : Bytes = padding_of input config in
        let long : length padded ≡ capacity config = length-padding_of input config fits in
        let count : length e.chunks ≡ config.n = ap length is_chunks ∙ law.count padded long in
        let firsts = keep-first config.k 0 config.k config.n (omega arith) few in
        rw (nothing_lost readable (upto config.n) none_lost) (
          rw uploaded.size (
            rw uploaded.data_shards (
              rw (keep-entries_of (chunk_at e.chunks) (λ i. ltb i config.k) (upto config.n)) (
                rw firsts (
                  rw
                    (sort_sorted by_index _ (
                      entries_of-IsSorted (chunk_at e.chunks) (upto config.k)
                        (upto_from-IsStrict 0 config.k)))
                    (rw (bytes_of-entries (chunk_at e.chunks) (upto config.k)) (
                      rw (map-chunk_at e.chunks config.k (omega arith)) (
                        rw is_chunks
                          (rw (law.systematic padded long) (take-append_length input _))))))))))

    -- What the caller gets.
    abbrev pub IsOriginal : ReadResult → Type 0
    IsOriginal r = (r.bytes ≡ input) × (r.missing_shards ≡ missing_indexes) × (r.blob ≡ b)

    counted :
        config.k ≤ length readable_indexes
        → ltb (length (entries_of (chunk_at e.chunks) readable_indexes)) b.data_shards ≡ false
    counted enough =
        ground (arith, length-entries_of (chunk_at e.chunks) readable_indexes, uploaded.data_shards)

    assemble-chunks :
        (missing : List ℕ)
        → missing_indexes ≡ missing
        → encode sha256 clay config input ≡ ok e
        → config.k ≤ config.n
        → config.k ≤ length readable_indexes
        → (r : ReadResult) × (assemble sha256 clay config b
              (entries_of (chunk_at e.chunks) readable_indexes)
              missing
            ≡ ok r)
          × (r.bytes ≡ input)
          × (r.missing_shards ≡ missing)
          × (r.blob ≡ b)
    unfolding assemble
    assemble-chunks [] none_lost encoded few enough =
        let fits = encode-capacity input e encoded in
        (
          read_result sha256 clay config b
              (join_shards (entries_of (chunk_at e.chunks) readable_indexes) b) [] [],
          rw (counted enough) refl,
          join_shards-all fits encoded few none_lost,
          refl,
          refl,
        )
    assemble-chunks (i ∷ is) lost encoded few enough =
        let fits = encode-capacity input e encoded in
        let (d, done, same, _, _) =
          decode-encode sha256 clay config law input fits e readable encoded enough
            (ap is_empty lost) in
        let decoded_here : decode sha256 clay config
              (entries_of (chunk_at e.chunks) readable_indexes) (i ∷ is) b.size
            ≡ ok d =
          ap (decode sha256 clay config (entries_of (chunk_at e.chunks) readable_indexes) (i ∷ is))
            uploaded.size
          ∙ (ap
                (λ m.
                  decode sha256 clay config (entries_of (chunk_at e.chunks) readable_indexes) m
                    (length input))
                (sym lost)
              ∙ done) in
        (
          read_result sha256 clay config b d.recovered (i ∷ is) (chunks_for d.chunks (i ∷ is)),
          rw (counted enough) (rw decoded_here refl),
          same,
          refl,
          refl,
        )

    -- Provided that the code has the package's promised properties, that the blob is the upload of
    -- an encoded input and that no other bytes have the size and hash of a chunk: whatever the
    -- providers answer, as long as `k` shards pass the checks, `readBlob` returns the input, and
    -- reports exactly the other shards as missing.
    pub read_blob-IsOriginal :
        encode sha256 clay config input ≡ ok e
        → config.k ≤ config.n
        → config.k ≤ length readable_indexes
        → (r : ReadResult) × (read_blob sha256 clay config fetch (some b) blob_id providers ≡ ok r)
          × IsOriginal r
    unfolding read_blob
    read_blob-IsOriginal encoded few enough =
        let (r, done, same, lost, view) = assemble-chunks missing_indexes refl encoded few enough in
        let attempt : ℕ → Option Bytes = read_shard sha256 fetch b blob_id providers in
        (
          r,
          ap
                (λ n.
                  assemble sha256 clay config b (collect attempt (upto n)).0
                    (collect attempt (upto n)).1)
                uploaded.total_shards
              ∙ (ap (λ (c : List (ℕ × Bytes) × List ℕ). assemble sha256 clay config b c.0 c.1)
                    collected
                  ∙ done),
          (same, lost, view),
        )
