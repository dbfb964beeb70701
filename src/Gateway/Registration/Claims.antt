-- ===== src/Gateway/Registration/Claims.antt =====
-- What the headers of an upload state when `assertRegistrationMatchesRequest` accepts them.
use prime_server.Base.{
  ℕ, Str, Bool, true, false, not, Option, none, some, is_some, List, [], ◌∷◌, ◌++◌, ◌≡◌, refl, sym,
  ap, ◌∙◌, inl, inr, arith, lit, lookup, ◌==◌, str_eq, leb, length, All, Bool-cases, Option-cases,
  gateway, Result, ok, err, throw_if-then, require-then, bind-then, ok-inj, same_text_of,
}
use mathlib.Core.Option.{some-injective}
use prime_server.Registry.{BlobView}
use prime_server.Gateway.{Headers, normalize_hex}
use prime_server.Gateway.Registration.{
  bounded_by, differs, contradicts_hex, parse_header_integer, parse_header_enum, check_claims,
  check_policy_claims, encoding_claims, policy_claims, storage_modes, access_policies,
  check_content, check_payment,
}

-- The value of a header that must be there, and of one that may be.
abbrev pub HasNumber : (Str → Option ℕ) → Headers → Str → ℕ → Type 0
HasNumber number headers name n =
    (value : Str) × (lookup name headers ≡ some value) × (number value ≡ some n)

abbrev pub AllowsNumber : (Str → Option ℕ) → Headers → Str → ℕ → Type 0
AllowsNumber number headers name n =
    (value : Str) → lookup name headers ≡ some value → number value ≡ some n

-- The headers describe the registered content.
pub record IsDescribed (number : Str → Option ℕ) (b : BlobView) (headers : Headers) : Type 0 where
  pub size : HasNumber number headers (lit "content-length") b.size
  pub commitment :
      (value : Str)
      → lookup (lit "x-prime-commitment") headers ≡ some value
      → normalize_hex value ≡ normalize_hex b.commitment
  pub expiry : AllowsNumber number headers (lit "x-prime-expires-at") b.expires_at
  pub no_duration : lookup (lit "x-prime-expiration-seconds") headers ≡ none
  pub encoding : All (λ c. AllowsNumber number headers c.0 c.1) (encoding_claims b)

-- The policy of a paid blob is escrowed and stated by the headers.
pub record IsPaidFor (number : Str → Option ℕ) (b : BlobView) (headers : Headers) : Type 0 where
  pub escrowed : b.payment.status_name ≡ lit "escrowed"
  pub storage_mode :
      parse_header_enum number headers (lit "x-prime-storage-mode") storage_modes true
      ≡ ok (some b.policy.storage_mode)
  pub access_policy :
      parse_header_enum number headers (lit "x-prime-access-policy") access_policies true
      ≡ ok (some b.policy.access_policy)
  pub commitments :
      All
        (λ c.
          (value : Str) × (lookup c.0 headers ≡ some value)
          × (normalize_hex value ≡ normalize_hex c.1))
        (policy_claims b.policy)

module _ (number : Str → Option ℕ) (headers : Headers) where
  pub read_number :
      (name : Str) (o v : Option ℕ)
      → (elim o [
        | none ↦ err (gateway 400 (name ++ lit " must be a non-negative integer"))
        | some n ↦ ok (some n)
      ])
        ≡ ok v
      → (n : ℕ) × (o ≡ some n) × (v ≡ some n)
  read_number name none v h = cc
  read_number name (some n) v h = (n, refl, sym (ok-inj h))

  pub agreed :
      (v : Option ℕ) (n expected : ℕ) → v ≡ some n → differs v expected ≡ false → n ≡ expected
  agreed none n expected e d = cc
  agreed (some m) n expected e d = let same = some-injective m n e in ground arith

  pub parse_header_integer-allows :
      (name : Str) (required : Bool) (v : Option ℕ) (expected : ℕ)
      → parse_header_integer number headers name required ≡ ok v
      → differs v expected ≡ false
      → AllowsNumber number headers name expected
  unfolding parse_header_integer
  parse_header_integer-allows name required v expected h d value at =
      let (n, read, given) =
        read_number name (number value) v (rw (at, parse_header_integer) at h) in
      read ∙ ap some (agreed v n expected given d)

  pub parse_header_integer-required :
      (name : Str) (v : Option ℕ)
      → parse_header_integer number headers name true ≡ ok v
      → (value : Str) × (lookup name headers ≡ some value)
  unfolding parse_header_integer
  parse_header_integer-required name v h = elim (Option-cases (lookup name headers)) [
    | inl e ↦ cc (rw (e, parse_header_integer) at h)
    | inr found ↦ found
  ]

  pub check_claims-All :
      (claims : List (Str × ℕ))
      → check_claims number headers claims ≡ ok tt
      → All (λ c. AllowsNumber number headers c.0 c.1) claims
  unfolding check_claims
  check_claims-All [] h = tt
  check_claims-All ((header, expected) ∷ claims) h =
      bind-then (parse_header_integer number headers header false) _ h λ claimed parsed k.
        throw_if-then (differs claimed expected) _ _ k λ same rest. (
          parse_header_integer-allows header false claimed expected parsed same,
          check_claims-All claims rest,
        )

  pub check_policy_claims-All :
      (claims : List (Str × Str))
      → check_policy_claims headers claims ≡ ok tt
      → All
          (λ c.
            (value : Str) × (lookup c.0 headers ≡ some value)
            × (normalize_hex value ≡ normalize_hex c.1))
          claims
  unfolding check_policy_claims
  check_policy_claims-All [] h = tt
  check_policy_claims-All ((header, expected) ∷ claims) h =
      require-then (lookup header headers) _ _ h λ claimed at k.
        throw_if-then (not (normalize_hex claimed == normalize_hex expected)) _ _ k λ same rest. (
          (claimed, at, same_text_of (normalize_hex claimed) (normalize_hex expected) same),
          check_policy_claims-All claims rest,
        )

  pub commitment_checked :
      (o : Option Str) (expected value : Str)
      → contradicts_hex o expected ≡ false
      → o ≡ some value
      → normalize_hex value ≡ normalize_hex expected
  commitment_checked none expected value h e = cc
  commitment_checked (some claimed) expected value h e =
      ap normalize_hex (sym (some-injective claimed value e))
      ∙ same_text_of (normalize_hex claimed) (normalize_hex expected) h

  pub not_there : (o : Option Str) → is_some o ≡ false → o ≡ none
  not_there none h = refl
  not_there (some s) h = cc

  pub check_content-IsDescribed :
      (b : BlobView) → check_content number b headers ≡ ok tt → IsDescribed number b headers
  unfolding check_content
  check_content-IsDescribed b h =
      bind-then (parse_header_integer number headers (lit "content-length") true) _ h λ l parsed h1.
        throw_if-then (differs l b.size) _ _ h1 λ sized h2.
          throw_if-then (contradicts_hex (lookup (lit "x-prime-commitment") headers) b.commitment) _
            _ h2
            λ committed h3.
              bind-then (parse_header_integer number headers (lit "x-prime-expires-at") false) _ h3
                λ x dated h4. throw_if-then (differs x b.expires_at) _ _ h4 λ expires h5.
                  throw_if-then (is_some (lookup (lit "x-prime-expiration-seconds") headers)) _ _ h5
                    λ absent h6.
                      let (value, at) =
                        parse_header_integer-required (lit "content-length") l parsed in
                      record {
                        size = (
                          value,
                          at,
                          parse_header_integer-allows (lit "content-length") true l b.size parsed
                              sized value at,
                        );
                        commitment = λ claimed found.
                            commitment_checked _ b.commitment claimed committed found;
                        expiry =
                            parse_header_integer-allows (lit "x-prime-expires-at") false x
                              b.expires_at dated expires;
                        no_duration = not_there _ absent;
                        encoding = check_claims-All (encoding_claims b) h6;
                      }

  pub enum_of :
      (found : Option ℕ) (other : Result (Option ℕ)) (v : Option ℕ)
      → (elim found [ some i ↦ ok (some i) | none ↦ other ]) ≡ ok v
      → (other ≡ ok v → (n : ℕ) × (v ≡ some n))
      → (n : ℕ) × (v ≡ some n)
  enum_of none other v h k = k h
  enum_of (some i) other v h k = (i, sym (ok-inj h))

  pub number_of :
      (names : List Str) (name : Str) (o v : Option ℕ)
      → bounded_by number names name o ≡ ok v
      → (n : ℕ) × (v ≡ some n)
  number_of names name none v h = cc
  number_of names name (some n) v h = elim (Bool-cases (leb (length names) n)) [
    | inl e ↦ cc (rw e at h)
    | inr e ↦ (n, sym (ok-inj (rw e at h)))
  ]

  pub parse_header_enum-some :
      (name : Str) (names : List Str) (v : Option ℕ)
      → parse_header_enum number headers name names true ≡ ok v
      → (n : ℕ) × (v ≡ some n)
  unfolding parse_header_enum
  parse_header_enum-some name names v h = elim (Option-cases (lookup name headers)) [
    | inl e ↦ cc (rw (e, parse_header_enum) at h)
    | inr (value, e) ↦
        enum_of _ (bounded_by number names name (number value)) v (rw (e, parse_header_enum) at h)
          (number_of names name (number value) v)
  ]

  pub enum_agrees :
      (name : Str) (names : List Str) (v : Option ℕ) (expected : ℕ)
      → parse_header_enum number headers name names true ≡ ok v
      → differs v expected ≡ false
      → parse_header_enum number headers name names true ≡ ok (some expected)
  enum_agrees name names v expected h d =
      let (n, given) = parse_header_enum-some name names v h in
      h ∙ ap ok (given ∙ ap some (agreed v n expected given d))

  pub check_payment-IsPaidFor :
      (b : BlobView) → check_payment number b headers ≡ ok tt → IsPaidFor number b headers
  unfolding check_payment
  check_payment-IsPaidFor b h =
      throw_if-then (not (b.payment.status_name == lit "escrowed")) _ _ h λ escrowed h1.
        throw_if-then (b.policy.storage_mode_name == lit "unknown") _ _ h1 λ known h2.
          bind-then
            (parse_header_enum number headers (lit "x-prime-storage-mode") storage_modes true) _ h2
            λ mode mode_read h3.
              bind-then
                (parse_header_enum number headers (lit "x-prime-access-policy") access_policies
                  true)
                _ h3
                λ policy policy_read h4.
                  throw_if-then (differs mode b.policy.storage_mode) _ _ h4 λ same_mode h5.
                    throw_if-then (differs policy b.policy.access_policy) _ _ h5 λ same_policy h6.
                      record {
                        escrowed = same_text_of b.payment.status_name (lit "escrowed") escrowed;
                        storage_mode =
                            enum_agrees _ storage_modes mode b.policy.storage_mode mode_read
                              same_mode;
                        access_policy =
                            enum_agrees _ access_policies policy b.policy.access_policy policy_read
                              same_policy;
                        commitments = check_policy_claims-All (policy_claims b.policy) h6;
                      }
