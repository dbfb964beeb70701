-- ===== src/Gateway/Paths/Roundtrip.antt =====
-- A request for the URL that the developer API gives for a blob names that blob.
use mathlib.Core.List.{append_assoc}
use mathlib.Core.Option.{some-injective}
use mathlib.Core.Logic.{◌≢◌}
use prime_server.Base.{
  ◌<◌, Str, true, false, ◌||◌, Option, some, [], ◌∷◌, ◌++◌, ◌≡◌, refl, sym, ap, ◌∙◌, lit, length,
  drop, eqb, is_empty, is_hex_digit, starts_with, ends_with_unit, includes_unit, split_slash,
  byte_length, ltb, ◌==◌, ==-cases, str_beq, str_eq, All, Bool-cases, inl, inr, arith, ok,
  throw_if-ok,
}
use prime_server.Base.Uri.{
  is_unreserved, step, decode_from, decode_uri_component, encode_uri_component,
}
use prime_server.Base.Uri.Roundtrip.{decode_uri_component-encode, decode_plainly}
use prime_server.Base.Uri.Slashless.{encode_uri_component_slashless}
use prime_server.Prepare.{validate_name}
use prime_server.Gateway.Paths.{
  developer_api_prefix, url_under, normalize_blob_name, normalize_account, blob_path,
  parse_developer_blob_path,
}
use prime_server.Gateway.Paths.Url.{
  is_single_dot, is_double_dot, segments, pathname_of, segments-append, segments_slashless,
}

starts_with-append : (p s : Str) → starts_with (p ++ s) p ≡ true
unfolding starts_with
starts_with-append [] s = refl
starts_with-append (c ∷ p) s =
    let same : eqb c c ≡ true = ground arith in rw same (starts_with-append p s)

drop-append : (p s : Str) → drop (length p) (p ++ s) ≡ s
drop-append [] s = refl
drop-append (c ∷ p) s = drop-append p s

split_slash-append :
    (a t : Str) → includes_unit a b'/' ≡ false → split_slash (a ++ (b'/' ∷ t)) ≡ (a, some t)
unfolding includes_unit
split_slash-append [] t h = refl
split_slash-append (c ∷ a) t h = elim (Bool-cases (eqb c b'/')) [
  | inl e ↦ cc (rw e at h)
  | inr e ↦ let rest = split_slash-append a t (rw e at h) in rw e (rw rest refl)
]

-- A name that the client accepts is accepted.
normalize_blob_name-validated :
    (value name : Str)
    → decode_uri_component value ≡ some name
    → validate_name name ≡ ok tt
    → normalize_blob_name value ≡ ok name
unfolding normalize_blob_name validate_name
normalize_blob_name-validated value name decoded valid =
    let fits =
      throw_if-ok
        (is_empty name
          || ltb 1024 (byte_length name)
          || includes_unit name 0
          || starts_with name (b'/' ∷ [])
          || ends_with_unit name b'/')
        _ valid in
    rw decoded (rw fits refl)

slashless_account : (s : Str) → All (λ c. is_unreserved c ≡ true) s → includes_unit s b'/' ≡ false
unfolding includes_unit
slashless_account [] h = refl
slashless_account (c ∷ s) (h, hs) =
    let other : eqb c b'/' ≡ false = ground arith in rw other (slashless_account s hs)

unescaped_account : (s : Str) → All (λ c. is_unreserved c ≡ true) s → includes_unit s b'%' ≡ false
unfolding includes_unit
unescaped_account [] h = refl
unescaped_account (c ∷ s) (h, hs) =
    let other : eqb c b'%' ≡ false = ground arith in rw other (unescaped_account s hs)

-- A segment that is decoded to another text is not this one.
apart_from :
    (t name dots w : Str)
    → decode_uri_component t ≡ some name
    → name ≢ dots
    → decode_uri_component w ≡ some dots
    → (t == w) ≡ false
apart_from t name dots w h apart k = elim (==-cases t w) [
  | inl (e, same) ↦
      absurd (apart (some-injective name dots (sym h ∙ ap (λ x. decode_uri_component x) same ∙ k)))
  | inr e ↦ e
]

is_single_dot-decoded :
    (t name : Str) → decode_uri_component t ≡ some name → name ≢ lit "." → is_single_dot t ≡ false
unfolding is_single_dot decode_uri_component decode_from step is_hex_digit lit
is_single_dot-decoded t name h apart =
    let other = apart_from t name (lit ".") in
    rw (other (lit ".") h apart refl)
      (rw (other (lit "%2e") h apart refl) (other (lit "%2E") h apart refl))

is_double_dot-decoded :
    (t name : Str) → decode_uri_component t ≡ some name → name ≢ lit ".." → is_double_dot t ≡ false
unfolding is_double_dot decode_uri_component decode_from step is_hex_digit lit
is_double_dot-decoded t name h apart =
    let other : (w : Str) → decode_uri_component w ≡ some (lit "..") → (t == w) ≡ false =
      λ w k. apart_from t name (lit "..") w h apart k in
    rw (other (lit "..") refl) (
      rw (other (lit ".%2e") refl) (
        rw (other (lit ".%2E") refl) (
          rw (other (lit "%2e.") refl) (
            rw (other (lit "%2E.") refl) (
              rw (other (lit "%2e%2e") refl) (
                rw (other (lit "%2e%2E") refl)
                  (rw (other (lit "%2E%2e") refl) (other (lit "%2E%2E") refl))))))))

-- The pathname that URL parsing gives for the URL of a blob is the path as it is written.
pathname_of-url_under :
    (account name encoded : Str)
    → All (λ c. is_unreserved c ≡ true) account
    → account ≢ lit "."
    → account ≢ lit ".."
    → All (λ c. c < 0x10000) name
    → encode_uri_component name ≡ some encoded
    → name ≢ lit "."
    → name ≢ lit ".."
    → pathname_of (url_under developer_api_prefix account name)
      ≡ (developer_api_prefix ++ lit "/blobs/") ++ (account ++ (b'/' ∷ encoded))
unfolding pathname_of url_under segments is_single_dot is_double_dot str_beq lit
pathname_of-url_under account name encoded plain_account no_dot no_dots bound encodes no_dot'
      no_dots' =
    let decoded = decode_uri_component-encode name encoded bound encodes in
    let itself = decode_plainly account (unescaped_account account plain_account) in
    rw encodes (
      rw (segments-append account encoded (slashless_account account plain_account)) (
        rw (segments_slashless encoded (encode_uri_component_slashless name encoded encodes)) (
          rw (is_single_dot-decoded account account itself no_dot) (
            rw (is_double_dot-decoded account account itself no_dots) (
              rw (is_single_dot-decoded encoded name decoded no_dot') (
                rw (is_double_dot-decoded encoded name decoded no_dots') (
                  append_assoc (developer_api_prefix ++ lit "/blobs/") account
                    (b'/' ∷ encoded))))))))

module _ (get_address : Str → Option Str) where
  blob_path-named :
      (account encoded name : Str)
      → get_address account ≡ some account
      → decode_uri_component account ≡ some account
      → normalize_blob_name encoded ≡ ok name
      → blob_path get_address (account, some encoded) ≡ ok (some (account, some name))
  unfolding normalize_account
  blob_path-named account encoded name valid decoded normal = rw decoded (rw valid (rw normal refl))

  -- A request for the URL that the API gives for a blob names the blob: the pathname that URL parsing
  -- gives, without dot segments, is read back as the account and the name. This is for an account of
  -- unreserved units that is its own checksummed form, and a name of UTF-16 code units that the client
  -- of the SDK accepts and that can be encoded, also with slashes, percent signs and surrogate pairs;
  -- neither of them is "." or "..", which URL parsing removes, however their dots are written.
  pub parse_developer_blob_path-url_under :
      (account name encoded : Str)
      → get_address account ≡ some account
      → All (λ c. is_unreserved c ≡ true) account
      → account ≢ lit "."
      → account ≢ lit ".."
      → All (λ c. c < 0x10000) name
      → encode_uri_component name ≡ some encoded
      → validate_name name ≡ ok tt
      → name ≢ lit "."
      → name ≢ lit ".."
      → parse_developer_blob_path get_address
          (pathname_of (url_under developer_api_prefix account name))
        ≡ ok (some (account, some name))
  unfolding parse_developer_blob_path lit
  parse_developer_blob_path-url_under account name encoded valid plain_account no_dot no_dots bound
        encodes fits no_dot' no_dots' =
      let rest : Str = account ++ (b'/' ∷ encoded) in
      let path =
        pathname_of-url_under account name encoded plain_account no_dot no_dots bound encodes
          no_dot' no_dots' in
      let itself = decode_plainly account (unescaped_account account plain_account) in
      let named = blob_path-named account encoded name valid itself (
        normalize_blob_name-validated encoded name
          (decode_uri_component-encode name encoded bound encodes) fits) in
      ap (λ p. parse_developer_blob_path get_address p) path
      ∙ (rw (starts_with-append (developer_api_prefix ++ lit "/blobs/") rest) (
          ap (λ s. blob_path get_address (split_slash s))
            (drop-append (developer_api_prefix ++ lit "/blobs/") rest)
          ∙ ap (blob_path get_address)
              (split_slash-append account encoded (slashless_account account plain_account))
          ∙ named))
