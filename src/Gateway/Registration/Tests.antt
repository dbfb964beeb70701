-- ===== src/Gateway/Registration/Tests.antt =====
-- An upload of two bytes whose registration is paid for.
use prime_server.Base.{
  ℕ, Str, true, Option, none, some, [], ◌∷◌, ◌≡◌, refl, lit, to_lower, lower_unit, strip_0x, lookup,
  str_beq, str_eq, is_empty, digits_value, ok, if◌then◌else◌,
}
use prime_server.Registry.{pending, user, BlobView}
use prime_server.Registry.Methods.{initial_policy, initial_payment}
use prime_server.Gateway.{Headers, normalize_hex}
use prime_server.Gateway.Registration.{
  is_paid, parse_header_integer, parse_header_enum, dashes_to_underscores, check_claims,
  check_policy_claims, check_registered, check_content, check_payment,
  assert_registration_matches_request,
}
use prime_server.Gateway.Registration.Claims.{IsDescribed, IsPaidFor}
use prime_server.Gateway.Registration.Matching.{
  IsRegistered, assert_registration_matches_request_sound,
}

abbrev hash : Str → Str
hash s = b'0' ∷ b'x' ∷ s

-- Numbers of decimal digits.
abbrev number : Str → Option ℕ
number s = if is_empty s then none else some (digits_value 0 s)

abbrev view : BlobView
view = record {
  blob_id = b'A' ∷ [];
  owner = b'O' ∷ [];
  commitment = b'c' ∷ [];
  size = 2;
  chunk_size = 2;
  data_shards = 1;
  total_shards = 2;
  expires_at = 9;
  origin = user;
  blob_name = b'n' ∷ [];
  name_hash = b'n' ∷ [];
  status = pending;
  policy = record initial_policy { policy_commitment = b'p' ∷ [] };
  payment = record initial_payment { status_name = lit "escrowed" };
  placement = [];
  acknowledgements = [];
}

abbrev headers : Headers
headers =
    (lit "content-length", b'2' ∷ [])
    ∷ (lit "x-prime-total-shards", b'2' ∷ [])
    ∷ (lit "x-prime-storage-mode", lit "Public")
    ∷ (lit "x-prime-access-policy", lit "owner-only")
    ∷ (lit "x-prime-policy-commitment", lit "0xP")
    ∷ (lit "x-prime-key-envelope-commitment", [])
    ∷ (lit "x-prime-metadata-commitment", [])
    ∷ []

passes :
    assert_registration_matches_request hash number
      (some view)
      (b'a' ∷ [])
      (b'o' ∷ [])
      (b'n' ∷ [])
      headers
      5
    ≡ ok tt
unfolding assert_registration_matches_request check_registered check_content check_payment
    check_claims check_policy_claims parse_header_integer parse_header_enum dashes_to_underscores
    normalize_hex strip_0x to_lower lower_unit lookup str_beq lit digits_value
passes = refl

assert_registration_matches_request_sound_example :
    (b : BlobView) × (some view ≡ some b)
    × IsRegistered hash b (b'a' ∷ []) (b'o' ∷ []) (b'n' ∷ []) 5
    × IsDescribed number b headers
    × (is_paid b ≡ true → IsPaidFor number b headers)
assert_registration_matches_request_sound_example =
    assert_registration_matches_request_sound hash number (some view) (b'a' ∷ []) (b'o' ∷ [])
      (b'n' ∷ []) headers 5 passes
