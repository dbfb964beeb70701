-- ===== src/Policy/Tests.antt =====
-- A private policy for two wallets, in another order and another case.
use mathlib.Core.List.Perm
use mathlib.Core.List.{Perm}
use prime_server.Base.{
  ℕ, Str, lit, Option, none, some, List, [], ◌∷◌, ◌++◌, map, to_lower, lower_unit, ◌≡◌, refl,
  Result, ok, replicate, length, decimal, sort, insert_sorted, str_ltb, is_hex_digit, plain, err,
  hex,
}
use prime_server.Policy.{
  EnumValue, PolicyInput, NormalPolicy, policy_commitment_of, resolved_commitment, check_modes,
  normalize_policy, normalize_enum, normalize_bytes32, zero_bytes32, is_bytes32, canonical_json,
  escape, escape_unit, JsonValue,
}
use prime_server.Policy.Commitment.{normalize_policy_perm}
use prime_server.Policy.Admitted.{IsCoherent, as_input, normalize_policy_sound}

abbrev no_number : Str → Option ℕ
no_number s = none

abbrev first_units : Str → Str
first_units s = decimal (length s)

abbrev envelope : Str
envelope = lit "0x" ++ replicate 64 b'A'

abbrev private_input : PolicyInput
private_input = record {
  storage_mode = EnumValue.named (lit "Private");
  access_policy = EnumValue.named (lit "selected-wallets");
  policy_commitment = [];
  key_envelope_commitment = envelope;
  metadata_commitment = zero_bytes32;
  allowed_wallets = lit "0xB" ∷ lit "0xa" ∷ [];
}

abbrev private_policy : NormalPolicy
private_policy = record {
  storage_mode = 1;
  access_policy = 1;
  policy_commitment = lit "0x260";
  key_envelope_commitment = lit "0x" ++ replicate 64 b'a';
  metadata_commitment = zero_bytes32;
  allowed_wallets = lit "0xB" ∷ lit "0xa" ∷ [];
}

canonical :
    canonical_json (
      (lit "b", JsonValue.number 1)
      ∷ (lit "c", JsonValue.undefined)
      ∷ (lit "a", JsonValue.texts (lit "x" ∷ lit "y" ∷ []))
      ∷ [])
    ≡ lit "{\"a\":[\"x\",\"y\"],\"b\":1}"
unfolding canonical_json sort insert_sorted escape escape_unit lit str_ltb decimal
    prime_server.Base.decimal_onto
canonical = refl

normalized : normalize_policy no_number first_units private_input ≡ ok private_policy
unfolding normalize_policy resolved_commitment policy_commitment_of check_modes normalize_enum
    normalize_bytes32 is_bytes32 is_hex_digit to_lower lower_unit canonical_json sort insert_sorted
    escape escape_unit lit str_ltb decimal prime_server.Base.decimal_onto prime_server.Base.str_beq
normalized = refl

swapped :
    Perm (map to_lower (lit "0xB" ∷ lit "0xa" ∷ [])) (map to_lower (lit "0xA" ∷ lit "0xb" ∷ []))
unfolding to_lower lower_unit lit
swapped = Perm.swap _ _ _

normalize_policy_perm_example :
    normalize_policy no_number first_units
      (record private_input { allowed_wallets = lit "0xA" ∷ lit "0xb" ∷ [] })
    ≡ ok (record private_policy { allowed_wallets = lit "0xA" ∷ lit "0xb" ∷ [] })
normalize_policy_perm_example =
    normalize_policy_perm no_number first_units private_input private_policy
      (lit "0xA" ∷ lit "0xb" ∷ []) normalized swapped

normalize_policy_sound_example :
    IsCoherent 1 1 private_policy.key_envelope_commitment
    × (normalize_policy no_number first_units (as_input private_policy []) ≡ ok private_policy)
normalize_policy_sound_example =
    normalize_policy_sound no_number first_units private_input private_policy normalized
