-- ===== src/Gateway/Paths/Tests.antt =====
-- Tests of the paths.
use prime_server.Base.{
  Str, Option, none, some, ◌≡◌, refl, lit, arith, true, All, str_beq, byte_length, includes_unit,
  starts_with, ends_with_unit, ok, err, plain, [], ◌∷◌,
}
use mathlib.Core.Logic.{◌≢◌}
use prime_server.Base.Uri.{is_unreserved, encode_uri_component, decode_uri_component}
use prime_server.Prepare.{validate_name}
use prime_server.Gateway.Paths.Roundtrip.{parse_developer_blob_path-url_under}
use prime_server.Gateway.Paths.Url.{pathname_of, segments, is_single_dot, is_double_dot}
use prime_server.Gateway.Paths.{
  developer_api_prefix, url_under, parse_developer_blob_path, match_blob_path, Suffix, content,
}

abbrev any : Str → Option Str
any s = some s

decode_escapes :
    decode_uri_component (lit "a%2Fb%C3%A9%F0%9F%98%80")
    ≡ some (b'a' ∷ b'/' ∷ b'b' ∷ 0xe9 ∷ 0xd83d ∷ 0xde00 ∷ [])
unfolding decode_uri_component prime_server.Base.Uri.decode_from lit prime_server.Base.Uri.step
    prime_server.Base.is_hex_digit
decode_escapes = refl

decode_overlong : decode_uri_component (lit "%C0%AF") ≡ none
unfolding decode_uri_component prime_server.Base.Uri.decode_from lit prime_server.Base.Uri.step
    prime_server.Base.is_hex_digit
decode_overlong = refl

path_of_blob :
    parse_developer_blob_path any (lit "/prime/v1/blobs/0xA/x%20y/z")
    ≡ ok (some (lit "0xA", some (lit "x y/z")))
unfolding parse_developer_blob_path prime_server.Base.starts_with lit decode_uri_component
    prime_server.Base.Uri.decode_from prime_server.Base.Uri.step
    prime_server.Gateway.Paths.normalize_account prime_server.Gateway.Paths.normalize_blob_name
    prime_server.Base.is_hex_digit prime_server.Base.byte_length prime_server.Base.includes_unit
    prime_server.Base.ends_with_unit
path_of_blob = refl

path_malformed :
    parse_developer_blob_path any (lit "/prime/v1/blobs/%/x") ≡ err (plain (lit "URI malformed"))
unfolding parse_developer_blob_path prime_server.Base.starts_with lit decode_uri_component
    prime_server.Base.Uri.decode_from prime_server.Base.Uri.step
path_malformed = refl

path_content : match_blob_path (lit "/v1/blobs/ab/content") ≡ some (lit "ab", content)
unfolding match_blob_path prime_server.Base.starts_with lit prime_server.Base.str_beq
path_content = refl

-- A name with a slash, a blank and a letter of two bytes.
abbrev cafe : Str
cafe = b'c' ∷ 0xe9 ∷ b'/' ∷ b' ' ∷ b'x' ∷ []

cafe_encoded : encode_uri_component cafe ≡ some (lit "c%C3%A9%2F%20x")
unfolding encode_uri_component prime_server.Base.Uri.encode_from lit prime_server.Base.Uri.escape
cafe_encoded = refl

cafe_valid : validate_name cafe ≡ ok tt
unfolding validate_name prime_server.Base.byte_length prime_server.Base.includes_unit
    prime_server.Base.starts_with prime_server.Base.ends_with_unit
cafe_valid = refl

unreserved : All (λ c. is_unreserved c ≡ true) (lit "0xA")
unfolding lit
unreserved = (refl, (refl, (refl, tt)))

account_no_dot : lit "0xA" ≢ lit "."
unfolding lit
account_no_dot h = ground arith

account_no_dots : lit "0xA" ≢ lit ".."
unfolding lit
account_no_dots h = ground arith

cafe_no_dot : cafe ≢ lit "."
unfolding lit
cafe_no_dot h = ground arith

cafe_no_dots : cafe ≢ lit ".."
unfolding lit
cafe_no_dots h = ground arith

-- Dot segments are removed, in the middle and at the end.
pathname_dots : pathname_of (lit "/a/b/../%2e/c/.%2E") ≡ lit "/a/"
unfolding pathname_of segments is_single_dot is_double_dot str_beq lit
pathname_dots = refl

-- The client accepts the name of two dots, but the path of its URL is another.
dots_valid : validate_name (lit "..") ≡ ok tt
unfolding validate_name byte_length includes_unit starts_with ends_with_unit lit
dots_valid = refl

dots_lost :
    pathname_of (url_under developer_api_prefix (lit "0xA") (lit "..")) ≡ lit "/prime/v1/blobs/"
unfolding pathname_of segments is_single_dot is_double_dot str_beq lit url_under
    encode_uri_component prime_server.Base.Uri.encode_from
dots_lost = refl

parse_developer_blob_path-url_under_example :
    parse_developer_blob_path any (pathname_of (url_under developer_api_prefix (lit "0xA") cafe))
    ≡ ok (some (lit "0xA", some cafe))
parse_developer_blob_path-url_under_example =
    parse_developer_blob_path-url_under any (lit "0xA") cafe (lit "c%C3%A9%2F%20x") refl unreserved
      account_no_dot account_no_dots
      (omega arith, (omega arith, (omega arith, (omega arith, (omega arith, tt))))) cafe_encoded
      cafe_valid cafe_no_dot cafe_no_dots
