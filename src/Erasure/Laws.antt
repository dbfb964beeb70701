-- ===== src/Erasure/Laws.antt =====
-- What the package promises of its code: any `k` of the `n` chunks of a padded input give back all of
-- them, and the first `k` are the input itself.
use prime_server.Base.{
  ℕ, zero, suc, ◌+◌, ◌≤◌, ◌<◌, List, [], ◌∷◌, map, ◌≡◌, length, take, concat, IsStrict, All, ok,
}
use prime_server.Erasure.{Config, Bytes, Clay, capacity, other_indexes}

-- The chunk of an index.
abbrev pub chunk_at : List Bytes → ℕ → Bytes
chunk_at [] i = []
chunk_at (c ∷ cs) zero = c
chunk_at (c ∷ cs) (suc i) = chunk_at cs i

pub record IsErasureCode (clay : Clay) (config : Config) : Type 0 where
  pub count :
      (padded : Bytes)
      → length padded ≡ capacity config
      → length (clay.erasure_code config padded) ≡ config.n
  pub systematic :
      (padded : Bytes)
      → length padded ≡ capacity config
      → concat (take config.k (clay.erasure_code config padded)) ≡ padded
  pub decodes :
      (padded : Bytes) (erased : List ℕ)
      → length padded ≡ capacity config
      → IsStrict erased
      → All (λ i. i < config.n) erased
      → length erased + config.k ≤ config.n
      → clay.decode_chunks config erased
          (map (chunk_at (clay.erasure_code config padded)) (other_indexes config erased))
        ≡ ok (record {
          chunks = clay.erasure_code config padded;
          systematic = take config.k (clay.erasure_code config padded);
          roots = clay.chunk_roots config padded;
        })
