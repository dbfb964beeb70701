-- ===== src/Gateway/Rebuild/Healthy.antt =====
-- What holds when a rebuild returns, and what no rebuild breaks.
use prime_server.Base.{
  ℕ, Str, false, not, List, [], ◌∷◌, ◌≡◌, refl, sym, subst, Result, ok, err, is_empty, throw_if,
  throw_if-ok, plain, lit, subst₂, ◌∙◌,
}
use prime_server.Base.Action.{
  pure, lift, Keeps, pure-Keeps, bind-Keeps, keeps_rules, bind-then_at, lift-ok, lift-same,
  pure_done,
}
use prime_server.Registry.Methods.{Verify, empty}
use prime_server.Registry.Invariant.{IsSigned, run-IsSigned}
use prime_server.Erasure.{Bytes, Config, Clay}
use prime_server.Gateway.{Endpoint}
use prime_server.Gateway.Read.{ReadResult}
use prime_server.Gateway.Services.{Services}
use prime_server.Gateway.Services.Kept.{AreKept, IsReached, memory-AreKept}
use prime_server.Gateway.Services.Memory.{World, Network, memory_services}
use prime_server.Gateway.Upload.Kept.{upload_shard-Keeps}
use prime_server.Gateway.Rebuild.{
  RebuiltShard, RebuildResult, read, read_at, rebuild_result, rebuild_shard, rebuild_shards,
  rebuild_missing, rebuild_blob,
}

module _ {W : Type 0} (services : Services W) (sha256 : Bytes → Str) (clay : Clay)
    (config : Config) where
  -- A read that misses no shard, with the content hash that the rebuild reports.
  abbrev pub IsHealthy : Str → List Endpoint → W → RebuildResult → Type 0
  IsHealthy blob_id providers w r =
      (found : ReadResult) × (read_at services sha256 clay config blob_id providers w ≡ ok found)
      × (found.missing_shards ≡ [])
      × (found.content_hash ≡ r.content_hash)
      × (found.blob.status ≡ r.status)

  none_missing : (is : List ℕ) → not (is_empty is) ≡ false → is ≡ []
  none_missing [] h = refl
  none_missing (i ∷ is) h = cc

  read_done :
      (blob_id : Str) (providers : List Endpoint) (w : W) {w' : W} {found : ReadResult}
      → read services sha256 clay config blob_id providers w ≡ (w', ok found)
      → (w ≡ w') × (read_at services sha256 clay config blob_id providers w ≡ ok found)
  unfolding read
  read_done blob_id providers w h = (cc, cc)

  -- A rebuild that returns what a read found that missed nothing.
  found-IsHealthy :
      (w w' : W) (blob_id : Str) (providers : List Endpoint) (shards : List RebuiltShard)
      (found : ReadResult) (r : RebuildResult)
      → read_at services sha256 clay config blob_id providers w ≡ ok found
      → found.missing_shards ≡ []
      → pure (rebuild_result blob_id shards found) w ≡ (w', ok r)
      → IsHealthy blob_id providers w' r
  found-IsHealthy w w' blob_id providers shards found r e whole h =
      let (same, is_result) = pure_done (rebuild_result blob_id shards found) w h in
      subst₂ (IsHealthy blob_id providers) same is_result (found, e, whole, refl, refl)

  rebuild_missing-IsHealthy :
      (w w' : W) (blob_id : Str) (providers : List Endpoint) (result : ReadResult) (is : List ℕ)
      (r : RebuildResult)
      → read_at services sha256 clay config blob_id providers w ≡ ok result
      → result.missing_shards ≡ is
      → rebuild_missing services sha256 clay config result blob_id providers is w ≡ (w', ok r)
      → IsHealthy blob_id providers w' r
  unfolding rebuild_missing
  rebuild_missing-IsHealthy w w' blob_id providers result [] r found whole h =
      found-IsHealthy w w' blob_id providers [] result r found whole h
  rebuild_missing-IsHealthy w w' blob_id providers result (i ∷ is) r found whole h =
      bind-then_at (rebuild_shards services sha256 clay config result blob_id providers (i ∷ is)) _
        w h
        (λ w0 shards _ h0.
          bind-then_at (read services sha256 clay config blob_id providers) _ w0 h0
            (λ w1 final again h1.
              bind-then_at
                (lift (
                  throw_if (not (is_empty final.missing_shards))
                    (plain (lit "rebuilt blob is still missing shards"))))
                _ w1 h1
                (λ w2 _ nothing h2.
                  let (same, e) = read_done blob_id providers w0 again in
                  found-IsHealthy w2 w' blob_id providers shards final r
                    (subst (λ w. read_at services sha256 clay config blob_id providers w ≡ ok final)
                      (same ∙ lift-same _ w1 nothing) e)
                    (none_missing final.missing_shards (throw_if-ok _ _ (lift-ok _ w1 nothing)))
                    h2)))

  rebuild_blob-IsHealthy :
      (w w' : W) (blob_id : Str) (providers : List Endpoint) (r : RebuildResult)
      → rebuild_blob services sha256 clay config blob_id providers w ≡ (w', ok r)
      → IsHealthy blob_id providers w' r
  unfolding rebuild_blob
  rebuild_blob-IsHealthy w w' blob_id providers r h =
      bind-then_at (read services sha256 clay config blob_id providers) _ w h (λ w0 result found h0.
        let (same, e) = read_done blob_id providers w found in
        rebuild_missing-IsHealthy w0 w' blob_id providers result result.missing_shards r
          (subst (λ w. read_at services sha256 clay config blob_id providers w ≡ ok result) same e)
          refl h0)

  module _ {P : W → Type 0} (kept : AreKept services P) where
    read-Keeps :
        (blob_id : Str) (providers : List Endpoint)
        → Keeps P (read services sha256 clay config blob_id providers)
    unfolding read
    read-Keeps blob_id providers = record { at = λ w p. p }

    rebuild_shard-Keeps :
        (result : ReadResult) (blob_id : Str) (providers : List Endpoint) (i : ℕ)
        → Keeps P (rebuild_shard services sha256 clay config result blob_id providers i)
    unfolding rebuild_shard
    rebuild_shard-Keeps result blob_id providers i =
        search
          (
            keeps_rules,
            kept.start,
            kept.reassign,
            kept.acknowledge,
            kept.record_rebuilt,
            upload_shard-Keeps services kept,
          )
          depth 24

    rebuild_shards-Keeps :
        (result : ReadResult) (blob_id : Str) (providers : List Endpoint) (is : List ℕ)
        → Keeps P (rebuild_shards services sha256 clay config result blob_id providers is)
    unfolding rebuild_shards
    rebuild_shards-Keeps result blob_id providers [] = pure-Keeps []
    rebuild_shards-Keeps result blob_id providers (i ∷ is) =
        bind-Keeps _ _ (rebuild_shard-Keeps result blob_id providers i) (λ shard.
          bind-Keeps _ _ (rebuild_shards-Keeps result blob_id providers is)
            (λ shards. pure-Keeps (shard ∷ shards)))

    rebuild_missing-Keeps :
        (result : ReadResult) (blob_id : Str) (providers : List Endpoint) (is : List ℕ)
        → Keeps P (rebuild_missing services sha256 clay config result blob_id providers is)
    unfolding rebuild_missing
    rebuild_missing-Keeps result blob_id providers [] = pure-Keeps _
    rebuild_missing-Keeps result blob_id providers (i ∷ is) =
        search (keeps_rules, read-Keeps, rebuild_shards-Keeps) depth 12

    rebuild_blob-Keeps :
        (blob_id : Str) (providers : List Endpoint)
        → Keeps P (rebuild_blob services sha256 clay config blob_id providers)
    unfolding rebuild_blob
    rebuild_blob-Keeps blob_id providers = search (keeps_rules, read-Keeps, rebuild_missing-Keeps)

module _ {N : Type 0} (keccak256 : Str → Str) (verify : Verify) (network : Network N)
    (sha256 : Bytes → Str) (clay : Clay) (config : Config) where
  -- What a rebuild has come to: however it ended, the registry is signed.
  abbrev pub Outcome : Str → List Endpoint → World N × Result RebuildResult → Type 0
  Outcome blob_id providers (w, ok r) =
      IsSigned verify w.registry
      × IsHealthy (memory_services keccak256 verify network) sha256 clay config blob_id providers w
          r
  Outcome blob_id providers (w, err _) = IsSigned verify w.registry

  outcome :
      (w : World N) (blob_id : Str) (providers : List Endpoint) (x : World N × Result RebuildResult)
      → rebuild_blob
          (memory_services keccak256 verify network)
          sha256
          clay
          config
          blob_id
          providers
          w
        ≡ x
      → IsSigned verify x.0.registry
      → Outcome blob_id providers x
  outcome w blob_id providers (w', ok r) h signed =
      (signed, rebuild_blob-IsHealthy _ sha256 clay config w w' blob_id providers r h)
  outcome w blob_id providers (w', err e) h signed = signed

  -- From a registry that calls reach, whatever the providers answer: after a rebuild, returned or
  -- failed, all acknowledgements are signed; and if it returned, a read of the blob now returns and
  -- misses no shard, and the content hash and the status that were reported are those of this read.
  pub rebuild_blob-Outcome :
      (coordinator : Str) (chain_id : ℕ) (address : Str) (w : World N) (blob_id : Str)
      (providers : List Endpoint)
      → IsReached keccak256 verify network (empty coordinator chain_id address) w
      → Outcome blob_id providers (
          rebuild_blob
            (memory_services keccak256 verify network)
            sha256
            clay
            config
            blob_id
            providers
            w)
  rebuild_blob-Outcome coordinator chain_id address w blob_id providers p =
      let services = memory_services keccak256 verify network in
      let (calls, reached) =
        (rebuild_blob-Keeps services sha256 clay config
            (memory-AreKept keccak256 verify network (empty coordinator chain_id address)) blob_id
            providers).at
          w p in
      outcome w blob_id providers _ refl (
        subst (IsSigned verify) (sym reached)
          (run-IsSigned keccak256 verify coordinator chain_id address calls))
