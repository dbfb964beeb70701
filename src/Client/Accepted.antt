-- ===== src/Client/Accepted.antt =====
-- The gateway accepts the upload of what the client has prepared and registered.
use prime_server.Base.{
  ℕ, ◌<◌, Str, Bool, true, false, not, ◌&&◌, ◌||◌, Option, some, ◌≡◌, refl, sym, ap, ◌∙◌, ◌⊎◌,
  arith, lit, length, decimal, is_safe, is_empty, to_lower, lookup, eqb, eqb_iff, ltb, leb, ◌==◌,
  str_eq, str_beq, str_beq_iff, ok, throw_if-then, require-then, ok-inj, not-false, subst,
}
use prime_server.Base.Uri.{encode_uri_component}
use prime_server.Erasure.{Bytes}
use prime_server.Registry.{user, pending, BlobView}
use prime_server.Prepare.{Prepared}
use prime_server.Client.{upload_headers, upload_request}
use prime_server.Gateway.{Headers, normalize_hex}
use prime_server.Gateway.Registration.{
  is_paid, parse_header_integer, check_claims, check_registered, check_content, encoding_claims,
  assert_registration_matches_request,
}

-- The registry's view of a blob that was registered, without a payment, as it was prepared.
pub record IsRegisteredAs (keccak256 : Str → Str) (prepared : Prepared) (account : Str)
    (b : BlobView) : Type 0 where
  pub blob_id : to_lower b.blob_id ≡ normalize_hex prepared.blob_id
  pub origin : b.origin ≡ user
  pub owner : to_lower b.owner ≡ to_lower account
  pub blob_name : b.blob_name ≡ prepared.name
  pub name_hash : normalize_hex b.name_hash ≡ normalize_hex (keccak256 prepared.name)
  pub status : b.status ≡ pending
  pub commitment : b.commitment ≡ prepared.commitment
  pub size : b.size ≡ prepared.size
  pub chunk_size : b.chunk_size ≡ prepared.chunk_size
  pub data_shards : b.data_shards ≡ prepared.data_shards
  pub total_shards : b.total_shards ≡ prepared.total_shards
  pub expires_at : b.expires_at ≡ prepared.expires_at
  pub unpaid : is_paid b ≡ false

-- The numbers are safe integers, as those of the preparation are.
pub record AreSafe (prepared : Prepared) : Type 0 where
  pub size : is_safe prepared.size ≡ true
  pub chunk_size : is_safe prepared.chunk_size ≡ true
  pub data_shards : is_safe prepared.data_shards ≡ true
  pub total_shards : is_safe prepared.total_shards ≡ true
  pub expires_at : is_safe prepared.expires_at ≡ true

same_text : (a b : Str) → a ≡ b → (a == b) ≡ true
same_text a b h = (str_beq_iff a b).1 h

and_false : (t : Bool) → (not t && false) ≡ false
and_false true = refl
and_false false = refl

same_number : (a b : ℕ) → a ≡ b → eqb a b ≡ true
same_number a b h = (eqb_iff a b).1 h

module _ (keccak256 : Str → Str) (number : Str → Option ℕ) (prepared : Prepared) (account : Str)
    (b : BlobView) (registered : IsRegisteredAs keccak256 prepared account b) where
  registered-checked :
      (now : ℕ)
      → (b.expires_at ≡ 0) ⊎ (now < b.expires_at)
      → check_registered keccak256 b (normalize_hex prepared.blob_id) account prepared.name now
        ≡ ok tt
  unfolding check_registered
  registered-checked now time =
      let in_time : (ltb 0 b.expires_at && leb b.expires_at now) ≡ false = ground arith in
      rw (same_text _ _ registered.blob_id) (
        rw registered.origin (
          rw (same_text _ _ registered.owner) (
            rw (same_text _ _ registered.blob_name) (
              rw (same_text _ _ registered.name_hash)
                (rw registered.status (rw in_time (rw (and_false (is_empty b.name_hash)) refl)))))))

  read_back :
      (reads : (n : ℕ) → is_safe n ≡ true → number (decimal n) ≡ some n) (headers : Headers)
      (name : Str) (required : Bool) (n : ℕ)
      → is_safe n ≡ true
      → lookup name headers ≡ some (decimal n)
      → parse_header_integer number headers name required ≡ ok (some n)
  unfolding parse_header_integer
  read_back reads headers name required n safe found =
      rw (found, parse_header_integer) (rw (reads n safe) refl)

  claims-checked :
      (reads : (n : ℕ) → is_safe n ≡ true → number (decimal n) ≡ some n) (content_type : Str)
      (input : Bytes)
      → AreSafe prepared
      → check_claims number (upload_headers content_type prepared input) (encoding_claims b) ≡ ok tt
  unfolding check_claims lookup str_beq lit
  claims-checked reads content_type input safe =
      let headers : Headers = upload_headers content_type prepared input in
      rw
        (read_back reads headers (lit "x-prime-chunk-size") false prepared.chunk_size
          safe.chunk_size refl)
        (rw (same_number _ _ (sym registered.chunk_size)) (
          rw
            (read_back reads headers (lit "x-prime-data-shards") false prepared.data_shards
              safe.data_shards refl)
            (rw (same_number _ _ (sym registered.data_shards)) (
              rw
                (read_back reads headers (lit "x-prime-total-shards") false prepared.total_shards
                  safe.total_shards refl)
                (rw (same_number _ _ (sym registered.total_shards)) refl)))))

  content-checked :
      (reads : (n : ℕ) → is_safe n ≡ true → number (decimal n) ≡ some n) (content_type : Str)
      (input : Bytes)
      → AreSafe prepared
      → length input ≡ prepared.size
      → check_content number b (upload_headers content_type prepared input) ≡ ok tt
  unfolding check_content check_claims lookup str_beq lit
  content-checked reads content_type input safe sized =
      let headers : Headers = upload_headers content_type prepared input in
      let length_safe : is_safe (length input) ≡ true = ap is_safe sized ∙ safe.size in
      let size_same : eqb (length input) b.size ≡ true =
        same_number _ _ (sized ∙ sym registered.size) in
      let commitment_same : (normalize_hex prepared.commitment == normalize_hex b.commitment)
          ≡ true =
        same_text _ _ (ap normalize_hex (sym registered.commitment)) in
      rw (read_back reads headers (lit "content-length") true (length input) length_safe refl) (
        rw size_same (
          rw commitment_same (
            rw
              (read_back reads headers (lit "x-prime-expires-at") false prepared.expires_at
                safe.expires_at refl)
              (rw (same_number _ _ (sym registered.expires_at))
                (claims-checked reads content_type input safe)))))

  -- What the client of the SDK has prepared and registered without a payment, and has not expired, passes the checks
  -- of the gateway when the client uploads it: if `Number` reads back what `String` makes of a safe
  -- integer, the numbers of the preparation are safe integers, and the client's own checks passed.
  pub upload_request-accepted :
      (reads : (n : ℕ) → is_safe n ≡ true → number (decimal n) ≡ some n) (content_type : Str)
      (input : Bytes) (now : ℕ) (path : Str) (headers : Headers)
      → AreSafe prepared
      → (b.expires_at ≡ 0) ⊎ (now < b.expires_at)
      → upload_request account content_type prepared input ≡ ok (path, headers)
      → assert_registration_matches_request keccak256 number
          (some b)
          (normalize_hex prepared.blob_id)
          account
          prepared.name
          headers
          now
        ≡ ok tt
  unfolding upload_request assert_registration_matches_request
  upload_request-accepted reads content_type input now path headers safe time h =
      throw_if-then
        (is_empty prepared.blob_id || is_empty prepared.name || is_empty prepared.commitment) _ _ h
        λ _ h1. throw_if-then (not (eqb (length input) prepared.size)) _ _ h1 λ sized h2.
          require-then (encode_uri_component account) _ _ h2 λ account_part _ h3.
            require-then (encode_uri_component prepared.name) _ _ h3 λ name_part _ h4.
              let same : upload_headers content_type prepared input ≡ headers =
                ap (λ (x : Str × Headers). x.1) (ok-inj h4) in
              subst
                (λ hs.
                  assert_registration_matches_request keccak256 number (some b)
                    (normalize_hex prepared.blob_id) account prepared.name hs now
                  ≡ ok tt)
                same
                (rw (registered-checked now time) (
                  rw
                    (content-checked reads content_type input safe
                      ((eqb_iff _ _).0 (not-false _ sized)))
                    (rw registered.unpaid refl)))
