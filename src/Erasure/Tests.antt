-- ===== src/Erasure/Tests.antt =====
-- A small code with the promised properties: two copies of the input.
use prime_server.Base.{
  ℕ, zero, suc, ◌+◌, ◌≤◌, ◌<◌, Str, Bool, not, List, [], ◌∷◌, map, ◌≡◌, refl, arith, length, upto,
  All, Result, ok, err, plain, keep, eqb, entries_of, hex, from_hex, lit, is_hex_digit,
}
use mathlib.Core.List.{append-nil}
use prime_server.Erasure.{
  Config, Bytes, Collection, Clay, Encoded, Decoded, other_indexes, encode, decode, pad_input,
}
use prime_server.Erasure.Laws.{chunk_at, IsErasureCode}
use prime_server.Erasure.Roundtrip.{decode-encode}

abbrev pub pair : Config
pair = record { n = 2; k = 1; d = 1; chunk_size_bytes = 2 }

abbrev first_copy : List Bytes → Result Collection
first_copy [] = err (plain [])
first_copy (c ∷ cs) = ok (record { chunks = c ∷ c ∷ []; systematic = c ∷ []; roots = [] })

abbrev pub copies : Clay
copies = record {
  erasure_code = λ config p. p ∷ p ∷ [];
  chunk_roots = λ config p. [];
  chunkset_root = λ config p. p;
  decode_chunks = λ config erased ordered. first_copy ordered;
}

copies-decodes :
    (p : Bytes) (erased : List ℕ)
    → length erased + 1 ≤ 2
    → All (λ i. i < 2) erased
    → first_copy (map (chunk_at (p ∷ p ∷ [])) (other_indexes pair erased))
      ≡ ok (record { chunks = p ∷ p ∷ []; systematic = p ∷ []; roots = [] })
copies-decodes p [] few h = refl
copies-decodes p (zero ∷ []) few h = refl
copies-decodes p (suc zero ∷ []) few h = refl
copies-decodes p (suc (suc i) ∷ []) few h = ground arith
copies-decodes p (i ∷ j ∷ is) few h = ground arith

pub copies-IsErasureCode : IsErasureCode copies pair
copies-IsErasureCode = record {
  count = λ p h. refl;
  systematic = λ p h. append-nil p;
  decodes = λ p erased h strict inside few. copies-decodes p erased few inside;
}

abbrev pub same_bytes : Bytes → Str
same_bytes b = b

abbrev pub encoded : Encoded
encoded = record {
  original_size = 1;
  padded_size = 2;
  chunks = (5 ∷ 0 ∷ []) ∷ (5 ∷ 0 ∷ []) ∷ [];
  chunk_commitments = (5 ∷ 0 ∷ []) ∷ (5 ∷ 0 ∷ []) ∷ [];
  chunkset_commitment = [];
  clay_chunk_roots = [];
  clay_chunkset_root = lit "0500";
}

pub encode_five : encode same_bytes copies pair (5 ∷ []) ≡ ok encoded
unfolding encode pad_input hex from_hex lit is_hex_digit
encode_five = refl

abbrev second : ℕ → Bool
second i = eqb i 1

decode-encode_example :
    (d : Decoded) × (decode same_bytes copies pair
        (entries_of (chunk_at encoded.chunks) (keep second (upto 2)))
        (keep (λ i. not (second i)) (upto 2))
        1
      ≡ ok d)
    × (d.recovered ≡ 5 ∷ [])
    × (d.chunks ≡ encoded.chunks)
    × (d.clay_chunkset_root ≡ encoded.clay_chunkset_root)
decode-encode_example =
    decode-encode same_bytes copies pair copies-IsErasureCode (5 ∷ []) (omega arith) encoded second
      encode_five (omega arith) refl
