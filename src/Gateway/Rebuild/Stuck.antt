-- ===== src/Gateway/Rebuild/Stuck.antt =====
-- A blob whose recovery was begun and not recorded cannot be rebuilt again.
use prime_server.Base.{
  ℕ, Str, some, List, ◌∷◌, ◌≡◌, refl, Result, ok, err, Error, lookup, str_eq, lit, arith, ◌∙◌, ap,
}
use prime_server.Base.Action.{Action, lift, reads, ◌>>=◌}
use prime_server.Registry.{Registry, Blob, recovering}
use prime_server.Registry.Methods.{Verify, start_recovery, fail}
use prime_server.Registry.Calls.{apply}
use prime_server.Erasure.{Bytes, Config, Clay}
use prime_server.Gateway.{Endpoint}
use prime_server.Gateway.Read.{ReadResult}
use prime_server.Gateway.Services.Memory.{World, Network, call, memory_services}
use prime_server.Gateway.Rebuild.{
  read, read_at, recovered_shard, rebuild_shard, rebuild_shards, rebuild_missing, rebuild_blob,
}

start_refused :
    (r : Registry) (id : Str) (i : ℕ) (b : Blob)
    → lookup id r.blobs ≡ some b
    → b.status ≡ recovering
    → (e : Error) × (start_recovery r id i ≡ err e)
unfolding start_recovery
start_refused r id i b found stuck = (fail (lit "blob is not active"), ground arith)

module _ {N : Type 0} (keccak256 : Str → Str) (verify : Verify) (network : Network N)
    (sha256 : Bytes → Str) (clay : Clay) (config : Config) where
  -- A call that throws and leaves the state as it was.
  abbrev Fails : {A : Type 0} → Action (World N) A → World N → Type 0
  Fails m w = (e : Error) × (m w ≡ (w, err e))

  bind-Fails :
      {A B : Type 0} (m : Action (World N) A) (f : A → Action (World N) B) (w : World N)
      → Fails m w
      → Fails (m >>= f) w
  unfolding ◌>>=◌
  bind-Fails m f w (e, h) = (e, rw h refl)

  -- After what returns or fails with no change, the rest fails.
  lift_then-Fails :
      {A B : Type 0} (r : Result A) (f : A → Action (World N) B) (w : World N)
      → ((a : A) → Fails (f a) w)
      → Fails (lift r >>= f) w
  unfolding ◌>>=◌ lift
  lift_then-Fails (ok a) f w k = k a
  lift_then-Fails (err e) f w k = (e, refl)

  reads_then-Fails :
      {A B : Type 0} (f : World N → A) (k : A → Action (World N) B) (w : World N)
      → Fails (k (f w)) w
      → Fails (reads f >>= k) w
  unfolding ◌>>=◌ reads
  reads_then-Fails f k w h = h

  start-Fails :
      (w : World N) (id : Str) (i : ℕ) (b : Blob)
      → lookup id w.registry.blobs ≡ some b
      → b.status ≡ recovering
      → Fails ((memory_services keccak256 verify network).start_recovery id i) w
  unfolding call apply
  start-Fails w id i b found stuck =
      let (e, h) = start_refused w.registry id i b found stuck in (e, rw h refl)

  rebuild_shard-Fails :
      (w : World N) (result : ReadResult) (id : Str) (providers : List Endpoint) (i : ℕ) (b : Blob)
      → lookup id w.registry.blobs ≡ some b
      → b.status ≡ recovering
      → Fails
          (rebuild_shard
            (memory_services keccak256 verify network)
            sha256
            clay
            config
            result
            id
            providers
            i)
          w
  unfolding rebuild_shard
  rebuild_shard-Fails w result id providers i b found stuck = lift_then-Fails _ _ w (λ p.
      lift_then-Fails (recovered_shard result i) _ w
        (λ bytes. reads_then-Fails _ _ w (bind-Fails _ _ w (start-Fails w id i b found stuck))))

  rebuild_missing-Fails :
      (w : World N) (result : ReadResult) (id : Str) (providers : List Endpoint) (i : ℕ)
      (is : List ℕ) (b : Blob)
      → lookup id w.registry.blobs ≡ some b
      → b.status ≡ recovering
      → Fails
          (rebuild_missing
            (memory_services keccak256 verify network)
            sha256
            clay
            config
            result
            id
            providers
            (i ∷ is))
          w
  unfolding rebuild_missing rebuild_shards
  rebuild_missing-Fails w result id providers i is b found stuck =
      bind-Fails _ _ w
        (bind-Fails _ _ w (rebuild_shard-Fails w result id providers i b found stuck))

  -- While a blob is recovering, as it is after a rebuild that failed between its start and its record,
  -- every rebuild that finds a shard missing fails and changes nothing.
  pub rebuild_blob_stuck :
      (w : World N) (result : ReadResult) (id : Str) (providers : List Endpoint) (i : ℕ)
      (is : List ℕ) (b : Blob)
      → lookup id w.registry.blobs ≡ some b
      → b.status ≡ recovering
      → read_at (memory_services keccak256 verify network) sha256 clay config id providers w
        ≡ ok result
      → result.missing_shards ≡ i ∷ is
      → (e : Error) × (rebuild_blob
            (memory_services keccak256 verify network)
            sha256
            clay
            config
            id
            providers
            w
          ≡ (w, err e))
  unfolding rebuild_blob read ◌>>=◌
  rebuild_blob_stuck w result id providers i is b found stuck reads missing =
      let (e, h) = rebuild_missing-Fails w result id providers i is b found stuck in
      (
        e,
        rw reads (
            ap
              (λ lost.
                rebuild_missing (memory_services keccak256 verify network) sha256 clay config result
                  id providers lost w)
              missing
            ∙ h),
      )
