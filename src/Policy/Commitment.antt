-- ===== src/Policy/Commitment.antt =====
-- The commitment of a policy does not depend on the order or the case of the wallets.
use native.Mathlib.Nat.{ℕ_set}
use mathlib.Core.List
use mathlib.Core.List.{Perm}
use prime_server.Base.{
  ℕ, Str, lit, true, Option, List, map, to_lower, ◌≡◌, refl, ap, ok, ok-inj, bind-then, bind_unit,
  sort_perm, str_leb, str_leb_total, str_leb_trans, str_leb_antisym,
}
use prime_server.Policy.{
  EnumValue, PolicyInput, NormalPolicy, policy_commitment_of, resolved_commitment, check_modes,
  normalize_policy, normalize_enum, normalize_bytes32, sorted_wallets, storage_modes,
  access_policies,
}

sorted_wallets_perm :
    (ws vs : List Str)
    → Perm (map to_lower ws) (map to_lower vs)
    → sorted_wallets ws ≡ sorted_wallets vs
sorted_wallets_perm ws vs p =
    sort_perm str_leb str_leb_total str_leb_trans str_leb_antisym (List.is_set ℕ_set) p

module _ (number : Str → Option ℕ) (sha256 : Str → Str) where
  policy_commitment_perm :
      (mode access : EnumValue) (envelope metadata : Str) (ws vs : List Str)
      → Perm (map to_lower ws) (map to_lower vs)
      → policy_commitment_of number sha256 mode access envelope metadata ws
        ≡ policy_commitment_of number sha256 mode access envelope metadata vs
  unfolding policy_commitment_of
  policy_commitment_perm mode access envelope metadata ws vs p =
      rw (sorted_wallets_perm ws vs p) refl

  resolved_commitment_perm :
      (p : PolicyInput) (mode access : ℕ) (envelope metadata : Str) (vs : List Str)
      → Perm (map to_lower p.allowed_wallets) (map to_lower vs)
      → resolved_commitment number sha256
          (record p { allowed_wallets = vs })
          mode
          access
          envelope
          metadata
        ≡ resolved_commitment number sha256 p mode access envelope metadata
  unfolding resolved_commitment
  resolved_commitment_perm p mode access envelope metadata vs perm =
      rw
        (policy_commitment_perm (EnumValue.numbered mode) (EnumValue.numbered access) envelope
          metadata p.allowed_wallets vs perm)
        refl

  -- If a policy is normalized, so is the policy with other wallets that are a permutation of its own
  -- up to their case, and the two results differ in the list of the wallets only: the commitments are
  -- the same.
  pub normalize_policy_perm :
      (p : PolicyInput) (q : NormalPolicy) (vs : List Str)
      → normalize_policy number sha256 p ≡ ok q
      → Perm (map to_lower p.allowed_wallets) (map to_lower vs)
      → normalize_policy number sha256 (record p { allowed_wallets = vs })
        ≡ ok (record q { allowed_wallets = vs })
  unfolding normalize_policy
  normalize_policy_perm p q vs h perm =
      bind-then (normalize_enum number p.storage_mode storage_modes (lit "storageMode")) _ h
        (λ mode a h1.
          bind-then (normalize_enum number p.access_policy access_policies (lit "accessPolicy")) _
            h1
            (λ access b h2.
              bind-then
                (normalize_bytes32 p.key_envelope_commitment (lit "keyEnvelopeCommitment") true) _
                h2
                (λ envelope c h3.
                  bind-then
                    (normalize_bytes32 p.metadata_commitment (lit "metadataCommitment") true) _ h3
                    (λ metadata d h4. bind_unit (check_modes mode access envelope) _ h4 (λ e h5.
                      bind-then (resolved_commitment number sha256 p mode access envelope metadata)
                        _ h5
                        (λ commitment f h6.
                          rw
                            (
                              a,
                              b,
                              c,
                              d,
                              e,
                              resolved_commitment_perm p mode access envelope metadata vs perm,
                              f,
                            )
                            (ap (λ (r : NormalPolicy). ok (record r { allowed_wallets = vs }))
                              (ok-inj h6))))))))
