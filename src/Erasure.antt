-- ===== src/Erasure.antt =====
-- provider/src/erasure.mjs: the engine around the Clay code of @shelby-protocol/clay-codes and the
-- SHA-256 of node:crypto, which are parameters. Bytes are numbers below 256.
pub mod Laws
pub mod Roundtrip
pub mod Tests
use prime_server.Base.{
  ℕ, ◌*◌, ◌-◌, ◌+◌, Str, Bool, not, ◌||◌, Option, none, some, List, [], ◌∷◌, ◌++◌, map, lit, length,
  take, keep, any, ltb, leb, eqb, lookup, ◌==◌, str_eq, nat_eq, if◌then◌else◌, decimal,
  digit_of_hex, hex, from_hex, upto, contains, sorted_set, concat, replicate, from_entries,
  is_empty, Error, plain, Result, ok, err, ◌>>=◌, ◌>>◌, throw_if, require, Table,
}

pub record Config : Type 0 where
  pub n : ℕ
  pub k : ℕ
  pub d : ℕ
  pub chunk_size_bytes : ℕ

abbrev pub four_provider_config : Config
four_provider_config = record { n = 4; k = 2; d = 3; chunk_size_bytes = 1048576 }

abbrev pub min_clay_chunk_size_bytes : ℕ
min_clay_chunk_size_bytes = 1048576

abbrev pub Bytes : Type 0
Bytes = List ℕ

-- What `decoder.decode` and `decoder.getChunkMerkleRoots` give.
pub record Collection : Type 0 where
  pub chunks : List Bytes
  pub systematic : List Bytes
  pub roots : List Bytes

-- The code of the package: the chunks of a padded input, the Merkle roots of the encoder after it,
-- and the decoder from the erased indices and the other chunks in their order.
pub record Clay : Type 0 where
  pub erasure_code : Config → Bytes → List Bytes
  pub chunk_roots : Config → Bytes → List Bytes
  pub chunkset_root : Config → Bytes → Bytes
  pub decode_chunks : Config → List ℕ → List Bytes → Result Collection

-- `Number.isInteger` holds of every number here.
unfoldable pub validate_config : Config → Result (Unit {0})
validate_config c =
    throw_if
      (ltb c.n c.k || ltb c.k 1 || ltb c.d c.k || ltb c.chunk_size_bytes min_clay_chunk_size_bytes)
      (plain (lit "invalid erasure parameters"))

abbrev pub capacity : Config → ℕ
capacity c = c.k * c.chunk_size_bytes

abbrev pub too_long : Bytes → Config → Error
too_long input c = plain (
    lit "input is "
    ++ (decimal (length input)
        ++ (lit " bytes but this chunkset holds " ++ (decimal (capacity c) ++ lit " bytes"))))

-- The input, with zeros up to the capacity.
unfoldable pub pad_input : Bytes → Config → Result Bytes
pad_input input c = do
  throw_if (ltb (capacity c) (length input)) (too_long input c)
  ok (input ++ replicate (capacity c - length input) 0)

pub record Encoded : Type 0 where
  pub original_size : ℕ
  pub padded_size : ℕ
  pub chunks : List Bytes
  pub chunk_commitments : List Str
  pub chunkset_commitment : Str
  pub clay_chunk_roots : List Str
  pub clay_chunkset_root : Str

pub record Decoded : Type 0 where
  pub original_size : ℕ
  pub chunks : List Bytes
  pub recovered : Bytes
  pub chunk_commitments : List Str
  pub chunkset_commitment : Str
  pub clay_chunk_roots : List Str
  pub clay_chunkset_root : Str

abbrev pub other_indexes : Config → List ℕ → List ℕ
other_indexes config erased = keep (λ i. not (contains i erased)) (upto config.n)

-- `availableIndexes.map(…)`, which throws at the first index without bytes.
abbrev pub order_chunks : List ℕ → Table ℕ Bytes → Result (List Bytes)
order_chunks [] t = ok []
order_chunks (i ∷ is) t = do
  bytes ← require (lookup i t) (plain (lit "missing available chunk " ++ decimal i))
  rest ← order_chunks is t
  ok (bytes ∷ rest)

module _ (sha256 : Bytes → Str) (clay : Clay) (config : Config) where
  -- `contentCommitment`.
  abbrev pub chunkset_commitment_of : List Bytes → Str
  chunkset_commitment_of chunks = sha256 (from_hex (concat (map sha256 chunks)))

  unfoldable pub encode : Bytes → Result Encoded
  encode input = do
    padded ← pad_input input config
    let chunks = clay.erasure_code config padded
    ok (record {
      original_size = length input;
      padded_size = length padded;
      chunks = chunks;
      chunk_commitments = map sha256 chunks;
      chunkset_commitment = chunkset_commitment_of chunks;
      clay_chunk_roots = map hex (clay.chunk_roots config padded);
      clay_chunkset_root = hex (clay.chunkset_root config padded);
    })

  -- The rest of `decode`, from the decoder on.
  unfoldable pub verified : Collection → ℕ → Result Decoded
  verified collection original_size = do
    throw_if
        (not (
          concat (map hex collection.roots)
          == concat (map hex (clay.chunk_roots config (concat collection.systematic)))))
        (plain (lit "recovered Clay commitments do not match"))
    ok (record {
      original_size = original_size;
      chunks = collection.chunks;
      recovered = take original_size (concat collection.systematic);
      chunk_commitments = map sha256 collection.chunks;
      chunkset_commitment = chunkset_commitment_of collection.chunks;
      clay_chunk_roots = map hex (clay.chunk_roots config (concat collection.systematic));
      clay_chunkset_root = hex (clay.chunkset_root config (concat collection.systematic));
    })

  unfoldable pub decode_erased : List (ℕ × Bytes) → List ℕ → ℕ → Result Decoded
  decode_erased available erased original_size = do
    throw_if (is_empty erased || any (λ i. leb config.n i) erased)
        (plain (lit "invalid erased chunk indexes"))
    throw_if (not (eqb (length available) (length (other_indexes config erased)))) (
        plain (
          lit "expected "
          ++ (decimal (length (other_indexes config erased)) ++ lit " available chunks")))
    throw_if (ltb (length available) config.k)
        (plain (lit "at least " ++ (decimal config.k ++ lit " chunks are required for recovery")))
    ordered ← order_chunks (other_indexes config erased) (from_entries available [])
    collection ← clay.decode_chunks config erased ordered
    verified collection original_size

  unfoldable pub decode : List (ℕ × Bytes) → List ℕ → ℕ → Result Decoded
  decode available erased_chunk_indexes original_size =
      decode_erased available (sorted_set erased_chunk_indexes) original_size
