-- ===== src/Erasure/Roundtrip.antt =====
-- Decoding what was encoded.
use prime_server.Base.{
  zero, suc, ℕ, ◌+◌, ◌-◌, ◌≤◌, ◌<◌, Bool, true, false, not, some, List, [], ◌∷◌, ◌++◌, map, ◌≡◌,
  refl, sym, ap, ◌∙◌, subst, arith, length, length-append, take, keep, any, ltb, leb, eqb, Str,
  str_eq, ◌==◌, nat_eq, str_beq_iff, is_empty, concat, replicate, upto, upto_from-below,
  upto_from-IsStrict, length-upto_from, contains, keep-others, keep-IsStrict, keep-All,
  length-keep_split, sorted_set-strict, entries_of, length-entries_of, lookup-from_entries,
  from_entries, lookup, IsStrict, All, ok, Table, ok-inj, Bool-cases, inl, inr, hex, All-contains,
}
use prime_server.Erasure.{
  Config, Bytes, Collection, Clay, capacity, pad_input, Encoded, Decoded, encode, decode,
  decode_erased, verified, order_chunks, other_indexes, chunkset_commitment_of,
}
use prime_server.Erasure.Laws.{chunk_at, IsErasureCode}

length-replicate : (n : ℕ) (x : ℕ) → length (replicate n x) ≡ n
length-replicate zero x = refl
length-replicate (suc n) x = omega (arith, length-replicate n x)

pub take-append_length : (xs ys : Bytes) → take (length xs) (xs ++ ys) ≡ xs
take-append_length [] ys = refl
take-append_length (x ∷ xs) ys = ap (◌∷◌ x) (take-append_length xs ys)

-- The input with zeros after it.
abbrev pub padding_of : Bytes → Config → Bytes
padding_of input c = input ++ replicate (capacity c - length input) 0

pub length-padding_of :
    (input : Bytes) (c : Config)
    → length input ≤ capacity c
    → length (padding_of input c) ≡ capacity c
length-padding_of input c h =
    length-append input (replicate (capacity c - length input) 0)
    ∙ omega (arith, length-replicate (capacity c - length input) 0)

-- All indices of a list found in a table.
order_chunks-found :
    (f : ℕ → Bytes) (is : List ℕ) (t : Table ℕ Bytes)
    → All (λ i. lookup i t ≡ some (f i)) is
    → order_chunks is t ≡ ok (map f is)
order_chunks-found f [] t h = refl
order_chunks-found f (i ∷ is) t (h, hs) = rw h (rw (order_chunks-found f is t hs) refl)

found_among :
    (f : ℕ → Bytes) (js is : List ℕ)
    → All (λ i. contains i js ≡ true) is
    → All (λ i. lookup i (from_entries (entries_of f js) []) ≡ some (f i)) is
found_among f js [] h = tt
found_among f js (i ∷ is) (h, hs) =
    (lookup-from_entries f i js [] ∙ rw h refl, found_among f js is hs)

none_beyond : (n : ℕ) (is : List ℕ) → All (λ i. i < n) is → any (λ i. leb n i) is ≡ false
none_beyond n [] h = refl
none_beyond n (i ∷ is) (h, hs) = ground (arith, none_beyond n is hs)

below : (n : ℕ) (is : List ℕ) → All (λ y. (0 ≤ y) × (y < 0 + n)) is → All (λ i. i < n) is
below n [] h = tt
below n (i ∷ is) ((_, h), hs) = (omega arith, below n is hs)

same_text : (s : Str) → (s == s) ≡ true
same_text s = (str_beq_iff s s).1 refl

module _ (sha256 : Bytes → Str) (clay : Clay) (config : Config) (law : IsErasureCode clay config)
    (input : Bytes) (fits : length input ≤ capacity config) where
  abbrev padded : Bytes
  padded = padding_of input config

  abbrev all_chunks : List Bytes
  all_chunks = clay.erasure_code config padded

  abbrev collection : Collection
  collection = record {
    chunks = all_chunks;
    systematic = take config.k all_chunks;
    roots = clay.chunk_roots config padded;
  }

  pad_input-fits : pad_input input config ≡ ok padded
  unfolding pad_input
  pad_input-fits = elim (Bool-cases (ltb (capacity config) (length input))) [
    | inl long ↦ ground arith
    | inr short ↦ rw short refl
  ]

  -- What `encode` returns.
  pub encode-fits :
      (e : Encoded)
      → encode sha256 clay config input ≡ ok e
      → (e.chunks ≡ all_chunks)
        × (e.original_size ≡ length input)
        × (e.chunk_commitments ≡ map sha256 all_chunks)
        × (e.clay_chunkset_root ≡ hex (clay.chunkset_root config padded))
  unfolding encode
  encode-fits e h =
      let done = rw pad_input-fits at h in
      let same = ok-inj done in
      (
        ap (λ (x : Encoded). x.chunks) (sym same),
        ap (λ (x : Encoded). x.original_size) (sym same),
        ap (λ (x : Encoded). x.chunk_commitments) (sym same),
        ap (λ (x : Encoded). x.clay_chunkset_root) (sym same),
      )

  abbrev decoded : Decoded
  decoded = record {
    original_size = length input;
    chunks = all_chunks;
    recovered = take (length input) padded;
    chunk_commitments = map sha256 all_chunks;
    chunkset_commitment = chunkset_commitment_of sha256 clay config all_chunks;
    clay_chunk_roots = map hex (clay.chunk_roots config padded);
    clay_chunkset_root = hex (clay.chunkset_root config padded);
  }

  whole : concat (take config.k all_chunks) ≡ padded
  whole = law.systematic padded (length-padding_of input config fits)

  verified-collection : verified sha256 clay config collection (length input) ≡ ok decoded
  unfolding verified
  verified-collection =
      rw whole (rw (same_text (concat (map hex (clay.chunk_roots config padded)))) refl)

  -- Decoding from the chunks of a part of the indices.
  module _ (p : ℕ → Bool) (enough : config.k ≤ length (keep p (upto config.n)))
      (some_lost : is_empty (keep (λ i. not (p i)) (upto config.n)) ≡ false) where
    abbrev lost : List ℕ
    lost = keep (λ i. not (p i)) (upto config.n)

    lost-IsStrict : IsStrict lost
    lost-IsStrict = keep-IsStrict _ (upto config.n) (upto_from-IsStrict 0 config.n)

    lost-below : All (λ i. i < config.n) lost
    lost-below = keep-All _ _ (upto config.n) (below config.n _ (upto_from-below 0 config.n))

    few_lost : length lost + config.k ≤ config.n
    few_lost = omega (arith, length-keep_split p (upto config.n), length-upto_from 0 config.n)

    chunks_ordered :
        order_chunks
          (other_indexes config lost)
          (from_entries (entries_of (chunk_at all_chunks) (keep p (upto config.n))) [])
        ≡ ok (map (chunk_at all_chunks) (other_indexes config lost))
    chunks_ordered = rw (keep-others p (upto config.n)) (
        order_chunks-found (chunk_at all_chunks) (keep p (upto config.n)) _ (
          found_among (chunk_at all_chunks) (keep p (upto config.n)) (keep p (upto config.n))
            (All-contains (keep p (upto config.n)))))

    count_available :
        eqb
          (length (entries_of (chunk_at all_chunks) (keep p (upto config.n))))
          (length (other_indexes config lost))
        ≡ true
    count_available =
        rw (keep-others p (upto config.n))
          (ground (arith, length-entries_of (chunk_at all_chunks) (keep p (upto config.n))))

    enough_available :
        ltb (length (entries_of (chunk_at all_chunks) (keep p (upto config.n)))) config.k ≡ false
    enough_available =
        ground (arith, length-entries_of (chunk_at all_chunks) (keep p (upto config.n)))

    decode-decoded :
        decode sha256 clay config
          (entries_of (chunk_at all_chunks) (keep p (upto config.n)))
          lost
          (length input)
        ≡ ok decoded
    unfolding decode decode_erased
    decode-decoded = rw (sorted_set-strict lost lost-IsStrict) (
        rw some_lost (
          rw (none_beyond config.n lost lost-below) (
            rw count_available (
              rw enough_available (
                rw chunks_ordered (
                  rw
                    (law.decodes padded lost (length-padding_of input config fits) lost-IsStrict
                      lost-below few_lost)
                    verified-collection))))))

  -- If at least `k` of the `n` chunks of an encoded input are available, and not all, then decoding
  -- from them returns the input, all the chunks, and the root that was registered. The length of the
  -- input is at most the capacity, and the code has the package's promised properties.
  pub decode-encode :
      (e : Encoded) (p : ℕ → Bool)
      → encode sha256 clay config input ≡ ok e
      → config.k ≤ length (keep p (upto config.n))
      → is_empty (keep (λ i. not (p i)) (upto config.n)) ≡ false
      → (d : Decoded) × (decode sha256 clay config
            (entries_of (chunk_at e.chunks) (keep p (upto config.n)))
            (keep (λ i. not (p i)) (upto config.n))
            (length input)
          ≡ ok d)
        × (d.recovered ≡ input)
        × (d.chunks ≡ e.chunks)
        × (d.clay_chunkset_root ≡ e.clay_chunkset_root)
  decode-encode e p h enough some_lost =
      let (is_chunks, _, _, is_root) = encode-fits e h in
      (
        decoded,
        subst
            (λ c.
              decode sha256 clay config (entries_of (chunk_at c) (keep p (upto config.n)))
                (keep (λ i. not (p i)) (upto config.n)) (length input)
              ≡ ok decoded)
            (sym is_chunks) (decode-decoded p enough some_lost),
        take-append_length input _,
        sym is_chunks,
        sym is_root,
      )
