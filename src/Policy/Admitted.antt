-- ===== src/Policy/Admitted.antt =====
-- What the policies that are normalized have in common, and that normalizing one again changes nothing.
use prime_server.Base.{
  ℕ, ◌+◌, ◌≤◌, ◌<◌, Str, Bool, true, false, not, ◌&&◌, Option, none, some, List, [], ◌∷◌, to_lower,
  to_lower_idem, eqb, ◌==◌, str_eq, str_beq_iff, lit, arith, length, ◌≡◌, ◌↔◌, refl, subst, ok,
  ok-inj, bind-then, bind_unit, throw_if-then, throw_if-ok, is_hex_digit, lower_unit,
}
use prime_server.Policy.{
  EnumValue, PolicyInput, NormalPolicy, resolved_commitment, check_modes, normalize_policy,
  normalize_enum, normalize_bytes32, storage_modes, access_policies, zero_bytes32, is_bytes32,
  all_hex, in_byte, value_of, or_number, underscored,
}

-- Only public storage has no key envelope, and only confidential storage is for computation only.
abbrev pub IsCoherent : ℕ → ℕ → Str → Type 0
IsCoherent mode access envelope = (mode ≡ 0 ↔ envelope ≡ zero_bytes32) × (mode ≡ 2 ↔ access ≡ 2)

tests-IsCoherent :
    (mode access : ℕ) (envelope : Str)
    → (eqb mode 0 && not (envelope == zero_bytes32)) ≡ false
    → (not (eqb mode 0) && envelope == zero_bytes32) ≡ false
    → (eqb access 2 && not (eqb mode 2)) ≡ false
    → (eqb mode 2 && not (eqb access 2)) ≡ false
    → IsCoherent mode access envelope
tests-IsCoherent mode access envelope a b c d = (
  (
    λ m. (str_beq_iff envelope zero_bytes32).0 (ground arith),
    λ e. let t = (str_beq_iff envelope zero_bytes32).1 e in ground arith,
  ),
  (λ m. ground arith, λ e. ground arith),
)

check_modes-IsCoherent :
    (mode access : ℕ) (envelope : Str)
    → check_modes mode access envelope ≡ ok tt
    → IsCoherent mode access envelope
unfolding check_modes
check_modes-IsCoherent mode access envelope h =
    throw_if-then (eqb mode 0 && not (envelope == zero_bytes32)) _ _ h (λ a h1.
      throw_if-then (not (eqb mode 0) && envelope == zero_bytes32) _ _ h1 (λ b h2.
        throw_if-then (eqb access 2 && not (eqb mode 2)) _ _ h2 (λ c h3.
          tests-IsCoherent mode access envelope a b c
            (throw_if-ok (eqb mode 2 && not (eqb access 2)) _ h3))))

value_of_bound :
    (name : Str) (i : ℕ) (names : List Str) (k : ℕ)
    → value_of name i names ≡ some k
    → k < i + length names
value_of_bound name i [] k h = cc
value_of_bound name i (n ∷ ns) k h = ground (arith, value_of_bound name (i + 1) ns k)

in_byte_bound :
    (o : Option ℕ) (field : Str) (n : ℕ) → in_byte o field ≡ ok n → in_byte (some n) field ≡ ok n
in_byte_bound none field n h = cc
in_byte_bound (some m) field n h = ground arith

module _ (number : Str → Option ℕ) where
  or_number_bound :
      (o : Option ℕ) (name field : Str) (n : ℕ)
      → ((k : ℕ) → o ≡ some k → k ≤ 255)
      → or_number number o name field ≡ ok n
      → in_byte (some n) field ≡ ok n
  or_number_bound none name field n few h = in_byte_bound (number name) field n h
  or_number_bound (some k) name field n few h =
      let bound = few k refl in let e = ok-inj h in ground arith

  -- A value that was found is found again.
  normalize_enum_again :
      (value : EnumValue) (names : List Str) (field : Str) (n : ℕ)
      → length names ≤ 255
      → normalize_enum number value names field ≡ ok n
      → normalize_enum number (EnumValue.numbered n) names field ≡ ok n
  unfolding normalize_enum
  normalize_enum_again (EnumValue.named name) names field n few h =
      or_number_bound (value_of (underscored (to_lower name)) 0 names) name field n
        (λ k e. let below = value_of_bound (underscored (to_lower name)) 0 names k e in omega arith)
        h
  normalize_enum_again (EnumValue.numbered m) names field n few h = in_byte_bound (some m) field n h

lower_unit_hex : (c : ℕ) → is_hex_digit c ≡ true → is_hex_digit (lower_unit c) ≡ true
unfolding is_hex_digit lower_unit
lower_unit_hex c h = ground arith

to_lower_hex : (s : Str) → all_hex s ≡ true → all_hex (to_lower s) ≡ true
unfolding to_lower
to_lower_hex [] h = refl
to_lower_hex (c ∷ s) h = ground (arith, lower_unit_hex c, to_lower_hex s)

length-to_lower : (s : Str) → length (to_lower s) ≡ length s
unfolding to_lower
length-to_lower [] = refl
length-to_lower (c ∷ s) = omega (arith, length-to_lower s)

lower_unit_prefix : (c : ℕ) → c ≤ 64 → lower_unit c ≡ c
unfolding lower_unit
lower_unit_prefix c h = ground arith

is_bytes32-to_lower : (s : Str) → is_bytes32 s ≡ true → is_bytes32 (to_lower s) ≡ true
unfolding is_bytes32 to_lower lower_unit
is_bytes32-to_lower [] h = cc
is_bytes32-to_lower (a ∷ []) h = cc
is_bytes32-to_lower (a ∷ b ∷ s) h = ground (arith, length-to_lower s, to_lower_hex s)

normalize_bytes32_again :
    (value field v : Str) (allow : Bool)
    → normalize_bytes32 value field allow ≡ ok v
    → normalize_bytes32 v field allow ≡ ok v
unfolding normalize_bytes32
normalize_bytes32_again value field v allow h =
    throw_if-then (not (is_bytes32 value)) _ _ h (λ a h1.
      throw_if-then (not allow && to_lower value == zero_bytes32) _ _ h1 (λ b h2.
        subst (λ w. normalize_bytes32 w field allow ≡ ok w) (ok-inj h2)
          (rw (is_bytes32-to_lower value (ground arith), to_lower_idem value, b) refl)))

-- The input that a normalized policy is, with the commitment that was asked for.
abbrev pub as_input : NormalPolicy → Str → PolicyInput
as_input q commitment = record {
  storage_mode = EnumValue.numbered q.storage_mode;
  access_policy = EnumValue.numbered q.access_policy;
  policy_commitment = commitment;
  key_envelope_commitment = q.key_envelope_commitment;
  metadata_commitment = q.metadata_commitment;
  allowed_wallets = q.allowed_wallets;
}

module _ (number : Str → Option ℕ) (sha256 : Str → Str) where
  resolved_commitment_again :
      (p : PolicyInput) (q : NormalPolicy) (mode access : ℕ) (envelope metadata : Str)
      → q.allowed_wallets ≡ p.allowed_wallets
      → resolved_commitment number sha256
          (as_input q p.policy_commitment)
          mode
          access
          envelope
          metadata
        ≡ resolved_commitment number sha256 p mode access envelope metadata
  unfolding resolved_commitment
  resolved_commitment_again p q mode access envelope metadata same = rw same refl

  -- A policy that was normalized is normalized to itself, for the same choice of its commitment; it
  -- has no key envelope if and only if its storage is public, and its access policy is compute-only
  -- if and only if its storage is confidential.
  pub normalize_policy_sound :
      (p : PolicyInput) (q : NormalPolicy)
      → normalize_policy number sha256 p ≡ ok q
      → IsCoherent q.storage_mode q.access_policy q.key_envelope_commitment
        × (normalize_policy number sha256 (as_input q p.policy_commitment) ≡ ok q)
  unfolding normalize_policy
  normalize_policy_sound p q h =
      bind-then (normalize_enum number p.storage_mode storage_modes (lit "storageMode")) _ h
        (λ mode a h1.
          bind-then (normalize_enum number p.access_policy access_policies (lit "accessPolicy")) _
            h1
            (λ access b h2.
              bind-then
                (normalize_bytes32 p.key_envelope_commitment (lit "keyEnvelopeCommitment") true) _
                h2
                (λ envelope c h3.
                  bind-then
                    (normalize_bytes32 p.metadata_commitment (lit "metadataCommitment") true) _ h3
                    (λ metadata d h4. bind_unit (check_modes mode access envelope) _ h4 (λ e h5.
                      bind-then (resolved_commitment number sha256 p mode access envelope metadata)
                        _ h5
                        (λ commitment f h6.
                          subst
                            (λ r.
                              IsCoherent r.storage_mode r.access_policy r.key_envelope_commitment
                              × (normalize_policy number sha256 (as_input r p.policy_commitment)
                                  ≡ ok r))
                            (ok-inj h6)
                            (
                              check_modes-IsCoherent mode access envelope e,
                              rw
                                  (
                                    normalize_enum_again number p.storage_mode storage_modes
                                        (lit "storageMode") mode (omega arith) a,
                                    normalize_enum_again number p.access_policy access_policies
                                        (lit "accessPolicy") access (omega arith) b,
                                    normalize_bytes32_again p.key_envelope_commitment
                                        (lit "keyEnvelopeCommitment") envelope true c,
                                    normalize_bytes32_again p.metadata_commitment
                                        (lit "metadataCommitment") metadata true d,
                                    e,
                                    f,
                                  )
                                  refl,
                            )))))))
