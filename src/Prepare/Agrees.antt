-- ===== src/Prepare/Agrees.antt =====
-- What a client prepares is what the gateway's engine computes, and passes the gateway's checks.
use prime_server.Base.{
  ℕ, Str, false, not, Option, [], ◌∷◌, ◌++◌, ◌≡◌, refl, sym, ap, ◌∙◌, arith, lit, hex, strip_0x,
  to_lower, eqb, eqb_iff, from_hex, concat, ◌*◌, ltb, length, is_empty, map, ok, ok-inj, bind-then,
  bind_unit, throw_if-then, throw_if-ok, if◌then◌else◌, str_eq, str_beq_iff, subst,
}
use prime_server.Erasure.{Bytes, Config, Clay, Encoded, encode, pad_input}
use prime_server.Registry.{BlobView}
use prime_server.Registry.Methods.{is_invalid_name}
use prime_server.Gateway.{normalize_hex}
use prime_server.Gateway.Admission.{check_encoding}
use prime_server.Policy.{is_bytes32}
use prime_server.Prepare.{
  EncodedInput, Prepared, validate_name, resolve_expiry, encode_input, prepare_blob, prepared_of,
  zero_padded,
}

-- The digits of bytes never begin with a prefix `0x`.
strip_0x-hex : (bytes : Bytes) → strip_0x (hex bytes) ≡ hex bytes
unfolding strip_0x hex
strip_0x-hex [] = refl
strip_0x-hex (b ∷ bs) = ground arith

normalize_hex-prefixed :
    (bytes : Bytes) → normalize_hex (lit "0x" ++ hex bytes) ≡ normalize_hex (hex bytes)
unfolding normalize_hex lit strip_0x
normalize_hex-prefixed bytes = sym (ap to_lower (strip_0x-hex bytes))

-- What a registration takes over from what was prepared.
pub record IsRegistered (p : Prepared) (b : BlobView) : Type 0 where
  pub committed : b.commitment ≡ p.commitment
  pub sized : b.size ≡ p.size
  pub chunk_sized : b.chunk_size ≡ p.chunk_size
  pub data_shards : b.data_shards ≡ p.data_shards
  pub total_shards : b.total_shards ≡ p.total_shards

validate_name-is_invalid_name :
    (name : Str) → validate_name name ≡ ok tt → is_invalid_name name ≡ false
unfolding validate_name is_invalid_name
validate_name-is_invalid_name name h = throw_if-ok _ _ h

module _ (sha256 : Bytes → Str) (clay : Clay) (config : Config) where
  abbrev encoding_of : Bytes → Encoded
  encoding_of input = record {
    original_size = length input;
    padded_size = length (zero_padded sha256 clay config input);
    chunks = clay.erasure_code config (zero_padded sha256 clay config input);
    chunk_commitments =
        map sha256 (clay.erasure_code config (zero_padded sha256 clay config input));
    chunkset_commitment = sha256 (
        from_hex
          (concat (map sha256 (clay.erasure_code config (zero_padded sha256 clay config input)))));
    clay_chunk_roots = map hex (clay.chunk_roots config (zero_padded sha256 clay config input));
    clay_chunkset_root = hex (clay.chunkset_root config (zero_padded sha256 clay config input));
  }

  abbrev input_encoding : Bytes → EncodedInput
  input_encoding input = record {
    bytes = input;
    size = length input;
    chunk_size = config.chunk_size_bytes;
    data_shards = config.k;
    total_shards = config.n;
    chunk_commitments = (encoding_of input).chunk_commitments;
    chunkset_commitment = (encoding_of input).chunkset_commitment;
    clay_chunk_roots = (encoding_of input).clay_chunk_roots;
    clay_chunkset_root = (encoding_of input).clay_chunkset_root;
  }

  -- The engine encodes the input with the same commitments, the encoding passes the checks against
  -- the registration, and the registry accepts the name.
  abbrev pub IsEncoded : Bytes → Prepared → BlobView → Type 0
  IsEncoded input p b =
      (e : Encoded) × (encode sha256 clay config input ≡ ok e)
      × (p.chunk_commitments ≡ e.chunk_commitments)
      × (p.clay_chunk_roots ≡ e.clay_chunk_roots)
      × (check_encoding config b e ≡ ok tt)
      × (is_invalid_name p.name ≡ false)

  encode_input_done :
      (input : Bytes) (encoded : EncodedInput)
      → encode_input sha256 clay config input ≡ ok encoded
      → (ltb (config.k * config.chunk_size_bytes) (length input) ≡ false)
        × (encoded ≡ input_encoding input)
  unfolding encode_input
  encode_input_done input encoded h = throw_if-then (eqb (length input) 0) _ _ h (λ _ h1.
      throw_if-then (ltb (config.k * config.chunk_size_bytes) (length input)) _ _ h1
        (λ fits h2. (fits, sym (ok-inj h2))))

  encode-fitting :
      (input : Bytes)
      → ltb (config.k * config.chunk_size_bytes) (length input) ≡ false
      → encode sha256 clay config input ≡ ok (encoding_of input)
  unfolding encode pad_input
  encode-fitting input fits = rw fits refl

  check_encoding-registered :
      (input : Bytes) (p : Prepared) (b : BlobView)
      → IsRegistered p b
      → p.commitment ≡ lit "0x" ++ (encoding_of input).clay_chunkset_root
      → p.size ≡ length input
      → p.chunk_size ≡ config.chunk_size_bytes
      → p.data_shards ≡ config.k
      → p.total_shards ≡ config.n
      → check_encoding config b (encoding_of input) ≡ ok tt
  unfolding check_encoding
  check_encoding-registered input p b r committed sized chunk_sized data_shards total_shards =
      let root = clay.chunkset_root config (zero_padded sha256 clay config input) in
      let same : normalize_hex (hex root) ≡ normalize_hex b.commitment =
        sym (normalize_hex-prefixed root) ∙ ap normalize_hex (sym (r.committed ∙ committed)) in
      let e1 = (str_beq_iff _ _).1 same in
      let e2 = (eqb_iff _ _).1 (sym (r.sized ∙ sized)) in
      let e3 = (eqb_iff _ _).1 (sym (r.chunk_sized ∙ chunk_sized)) in
      let e4 = (eqb_iff _ _).1 (sym (r.data_shards ∙ data_shards)) in
      let e5 = (eqb_iff _ _).1 (sym (r.total_shards ∙ total_shards)) in
      rw e1 (rw e2 (rw e3 (rw e4 (rw e5 refl))))

  -- The same for the result of `prepareBlob`, of which the encoding is as computed.
  prepared-encode :
      (input : Bytes) (encoded : EncodedInput) (id name : Str) (expiry : ℕ) (p : Prepared)
      (b : BlobView)
      → ltb (config.k * config.chunk_size_bytes) (length input) ≡ false
      → encoded ≡ input_encoding input
      → prepared_of id name expiry encoded ≡ p
      → validate_name name ≡ ok tt
      → IsRegistered p b
      → IsEncoded input p b
  prepared-encode input encoded id name expiry p b fits is_input made named registered =
      let q : prepared_of id name expiry (input_encoding input) ≡ p =
        ap (prepared_of id name expiry) (sym is_input) ∙ made in
      subst (λ p. IsRegistered p b → IsEncoded input p b) q
        (λ r. (
          encoding_of input,
          encode-fitting input fits,
          refl,
          refl,
          check_encoding-registered input _ b r refl refl refl refl refl,
          validate_name-is_invalid_name name named,
        ))
        registered

  -- What a client has prepared is what the gateway's engine computes from the same input, with the
  -- same configuration: the commitments of the chunks are the same, and a blob that is registered with
  -- what was prepared passes the gateway's checks of the encoding; its name is one that the registry
  -- accepts.
  pub prepare_blob-encode :
      (input : Bytes) (name : Str) (expiration_seconds : Option (Option ℕ)) (expires_at : Option ℕ)
      (blob_id : Str) (now : ℕ) (random : Bytes) (p : Prepared) (b : BlobView)
      → prepare_blob sha256 clay config input name expiration_seconds expires_at blob_id now random
        ≡ ok p
      → IsRegistered p b
      → IsEncoded input p b
  unfolding prepare_blob
  prepare_blob-encode input name expiration_seconds expires_at blob_id now random p b h registered =
      bind_unit (validate_name name) _ h (λ named h1.
        bind-then (resolve_expiry expiration_seconds expires_at now) _ h1 (λ expiry _ h2.
          bind-then (encode_input sha256 clay config input) _ h2 (λ encoded made h3.
            throw_if-then
              (not (is_bytes32 (if is_empty blob_id then lit "0x" ++ hex random else blob_id))) _ _
              h3
              (λ _ h4.
                let (fits, is_input) = encode_input_done input encoded made in
                prepared-encode input encoded _ name expiry p b fits is_input (ok-inj h4) named
                  registered))))
