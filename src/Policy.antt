-- ===== src/Policy.antt =====
-- Storage policies (sdk/src/policy.mjs). `sha256` is the digest of a text's UTF-8 form in hexadecimal
-- digits, and `number` the natural number that `Number(text)` is, if it is a safe integer and not
-- negative.
pub mod Commitment
pub mod Admitted
mod Tests
use prime_server.Base.{
  ℕ, ◌+◌, ◌/◌, Str, Bool, true, false, not, ◌&&◌, ◌||◌, Option, none, some, List, [], ◌∷◌, ◌++◌,
  map, lit, is_empty, to_lower, is_hex_digit, hex, str_leb, length, keep, sort, ltb, leb, eqb, ◌==◌,
  str_eq, nat_eq, if◌then◌else◌, Error, plain, Result, ok, err, ◌>>=◌, ◌>>◌, throw_if, decimal,
  is_safe, replicate,
}

-- A value that `canonicalJson` meets in the object of a policy.
pub data JsonValue : Type 0 where
  undefined : JsonValue
  number : ℕ → JsonValue
  text : Str → JsonValue
  texts : List Str → JsonValue

-- `JSON.stringify` of a text: quotes, backslashes, control codes and lone surrogates are escaped.
abbrev pub is_surrogate : ℕ → Bool
is_surrogate c = leb 0xd800 c && ltb c 0xe000

unfoldable pub escape_unit : ℕ → Str
unfolding hex
escape_unit c =
    if eqb c 34 || eqb c 92
    then 92 ∷ c ∷ []
    else if eqb c 8
    then 92 ∷ b'b' ∷ []
    else if eqb c 9
    then 92 ∷ b't' ∷ []
    else if eqb c 10
    then 92 ∷ b'n' ∷ []
    else if eqb c 12
    then 92 ∷ b'f' ∷ []
    else if eqb c 13
    then 92 ∷ b'r' ∷ []
    else if ltb c 32 || is_surrogate c
    then 92 ∷ b'u' ∷ hex (c / 256 ∷ c ∷ [])
    else c ∷ []

unfoldable pub escape : Str → Str
unfolding escape_unit
escape [] = []
escape (c ∷ []) = escape_unit c
escape (c ∷ d ∷ s) =
    let pair = c ∷ d ∷ escape s in
    let one = escape_unit c ++ escape (d ∷ s) in
    if leb 0xd800 c && ltb c 0xdc00 && (leb 0xdc00 d && ltb d 0xe000) then pair else one

abbrev pub quoted : Str → Str
quoted s = 34 ∷ (escape s ++ (34 ∷ []))

-- The elements of an array or an object, with commas between them.
abbrev pub joined : List Str → Str
joined [] = []
joined (s ∷ []) = s
joined (s ∷ t ∷ rest) = s ++ (b',' ∷ joined (t ∷ rest))

abbrev pub stringify : JsonValue → Str
stringify undefined = lit "null"
stringify (number n) = decimal n
stringify (text s) = quoted s
stringify (texts ss) = b'[' ∷ (joined (map quoted ss) ++ (b']' ∷ []))

abbrev pub is_defined : Str × JsonValue → Bool
is_defined (_, undefined) = false
is_defined _ = true

abbrev pub member : Str × JsonValue → Str
member (key, value) = quoted key ++ (b':' ∷ stringify value)

abbrev pub by_key : Str × JsonValue → Str × JsonValue → Bool
by_key (a, _) (b, _) = str_leb a b

-- `canonicalJson` of an object with these members, whose keys are distinct and no array indices.
unfoldable pub canonical_json : List (Str × JsonValue) → Str
unfolding sort escape
canonical_json members =
    b'{' ∷ (joined (map member (keep is_defined (sort by_key members))) ++ (b'}' ∷ []))

pub data EnumValue : Type 0 where
  named : Str → EnumValue
  numbered : ℕ → EnumValue

abbrev pub underscored : Str → Str
underscored = map (λ c. if eqb c b'-' then b'_' else c)

-- The value of a name in an object that numbers its names from 0 on.
abbrev pub value_of : Str → ℕ → List Str → Option ℕ
value_of name i [] = none
value_of name i (n ∷ ns) = let rest = value_of name (i + 1) ns in if name == n then some i else rest

abbrev pub storage_modes : List Str
storage_modes = lit "public" ∷ lit "private" ∷ lit "confidential" ∷ []

abbrev pub access_policies : List Str
access_policies = lit "owner_only" ∷ lit "selected_wallets" ∷ lit "compute_only" ∷ []

abbrev pub zero_bytes32 : Str
zero_bytes32 = b'0' ∷ b'x' ∷ replicate 64 b'0'

abbrev pub all_hex : Str → Bool
all_hex [] = true
all_hex (c ∷ s) = is_hex_digit c && all_hex s

-- `/^0x[a-fA-F0-9]{64}$/`.
unfoldable pub is_bytes32 : Str → Bool
is_bytes32 (a ∷ b ∷ s) = eqb a b'0' && eqb b b'x' && (eqb (length s) 64 && all_hex s)
is_bytes32 _ = false

unfoldable pub normalize_bytes32 : Str → Str → Bool → Result Str
normalize_bytes32 value field allow_zero = do
  throw_if (not (is_bytes32 value)) (plain (field ++ lit " must be a 32-byte hex value"))
  throw_if (not allow_zero && to_lower value == zero_bytes32)
      (plain (field ++ lit " must not be zero"))
  ok (to_lower value)

abbrev pub in_byte : Option ℕ → Str → Result ℕ
in_byte none field = err (plain (field ++ lit " must be a supported name or enum value"))
in_byte (some n) field =
    if is_safe n && leb n 255
    then ok n
    else err (plain (field ++ lit " must be a supported name or enum value"))

pub record PolicyInput : Type 0 where
  pub storage_mode : EnumValue
  pub access_policy : EnumValue
  pub policy_commitment : Str  -- empty if there is none
  pub key_envelope_commitment : Str
  pub metadata_commitment : Str
  pub allowed_wallets : List Str

pub record NormalPolicy : Type 0 where
  pub storage_mode : ℕ
  pub access_policy : ℕ
  pub policy_commitment : Str
  pub key_envelope_commitment : Str
  pub metadata_commitment : Str
  pub allowed_wallets : List Str

abbrev pub sorted_wallets : List Str → List Str
sorted_wallets wallets = sort str_leb (map to_lower wallets)

abbrev pub members_of : ℕ → ℕ → Str → Str → List Str → List (Str × JsonValue)
members_of mode access envelope metadata wallets =
    (lit "version", number 1)
    ∷ (lit "storageMode", number mode)
    ∷ (lit "accessPolicy", number access)
    ∷ (lit "keyEnvelopeCommitment", text envelope)
    ∷ (lit "metadataCommitment", text metadata)
    ∷ (lit "allowedWallets", texts (sorted_wallets wallets))
    ∷ []

unfoldable pub check_modes : ℕ → ℕ → Str → Result (Unit {0})
check_modes mode access envelope = do
  throw_if (eqb mode 0 && not (envelope == zero_bytes32))
      (plain (lit "public storage cannot include a key envelope commitment"))
  throw_if (not (eqb mode 0) && envelope == zero_bytes32)
      (plain (lit "private and confidential storage require a key envelope commitment"))
  throw_if (eqb access 2 && not (eqb mode 2))
      (plain (lit "compute-only access requires confidential storage"))
  throw_if (eqb mode 2 && not (eqb access 2))
      (plain (lit "confidential storage requires compute-only access"))

module _ (number : Str → Option ℕ) where
  abbrev pub or_number : Option ℕ → Str → Str → Result ℕ
  or_number (some i) name field = ok i
  or_number none name field = in_byte (number name) field

  unfoldable pub normalize_enum : EnumValue → List Str → Str → Result ℕ
  normalize_enum (named name) names field =
      or_number (value_of (underscored (to_lower name)) 0 names) name field
  normalize_enum (numbered n) names field = in_byte (some n) field

  module _ (sha256 : Str → Str) where
    unfoldable pub policy_commitment_of : EnumValue → EnumValue → Str → Str → List Str → Result Str
    unfolding normalize_enum normalize_bytes32 canonical_json
    policy_commitment_of storage_mode access_policy key_envelope metadata_commitment wallets = do
      mode ← normalize_enum storage_mode storage_modes (lit "storageMode")
      access ← normalize_enum access_policy access_policies (lit "accessPolicy")
      envelope ← normalize_bytes32 key_envelope (lit "keyEnvelopeCommitment") true
      metadata ← normalize_bytes32 metadata_commitment (lit "metadataCommitment") true
      ok (b'0' ∷ b'x' ∷ sha256 (canonical_json (members_of mode access envelope metadata wallets)))

    unfoldable pub resolved_commitment : PolicyInput → ℕ → ℕ → Str → Str → Result Str
    unfolding policy_commitment_of normalize_bytes32
    resolved_commitment p mode access envelope metadata =
        if is_empty p.policy_commitment
        then policy_commitment_of (numbered mode) (numbered access) envelope metadata
            p.allowed_wallets
        else normalize_bytes32 p.policy_commitment (lit "policyCommitment") false

    unfoldable pub normalize_policy : PolicyInput → Result NormalPolicy
    unfolding normalize_enum normalize_bytes32 check_modes resolved_commitment
    normalize_policy p = do
      mode ← normalize_enum p.storage_mode storage_modes (lit "storageMode")
      access ← normalize_enum p.access_policy access_policies (lit "accessPolicy")
      envelope ← normalize_bytes32 p.key_envelope_commitment (lit "keyEnvelopeCommitment") true
      metadata ← normalize_bytes32 p.metadata_commitment (lit "metadataCommitment") true
      check_modes mode access envelope
      commitment ← resolved_commitment p mode access envelope metadata
      ok (record {
        storage_mode = mode;
        access_policy = access;
        policy_commitment = commitment;
        key_envelope_commitment = envelope;
        metadata_commitment = metadata;
        allowed_wallets = p.allowed_wallets;
      })
