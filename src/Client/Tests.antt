-- ===== src/Client/Tests.antt =====
-- A blob of one byte, prepared and registered.
use prime_server.Base.{
  ℕ, Str, true, none, some, Option, [], ◌∷◌, ◌++◌, ◌≡◌, refl, inl, lit, ok, decimal, digits_value,
  digits_value-decimal, is_safe, if◌then◌else◌,
}
use prime_server.Registry.{user, pending, BlobView}
use prime_server.Registry.Methods.{initial_policy, initial_payment}
use prime_server.Prepare.{Prepared}
use prime_server.Gateway.{normalize_hex}
use prime_server.Gateway.Registration.{assert_registration_matches_request}
use prime_server.Client.{upload_headers, upload_request}
use prime_server.Client.Accepted.{IsRegisteredAs, AreSafe, upload_request-accepted}

abbrev same_text : Str → Str
same_text s = s

-- The value of the digits, where it is a safe integer.
abbrev number : Str → Option ℕ
number s = if is_safe (digits_value 0 s) then some (digits_value 0 s) else none

reads : (n : ℕ) → is_safe n ≡ true → number (decimal n) ≡ some n
reads n safe = rw (digits_value-decimal n) (rw safe refl)

abbrev prepared : Prepared
prepared = record {
  blob_id = lit "0xAA";
  name = lit "me/x";
  commitment = lit "0x0500";
  size = 1;
  chunk_size = 2;
  data_shards = 1;
  total_shards = 2;
  expires_at = 0;
  chunk_commitments = [];
  clay_chunk_roots = [];
}

abbrev view : BlobView
view = record {
  blob_id = lit "aa";
  owner = lit "0xab";
  commitment = lit "0x0500";
  size = 1;
  chunk_size = 2;
  data_shards = 1;
  total_shards = 2;
  expires_at = 0;
  origin = user;
  blob_name = lit "me/x";
  name_hash = lit "me/x";
  status = pending;
  policy = initial_policy;
  payment = initial_payment;
  placement = [];
  acknowledgements = [];
}

view-IsRegisteredAs : IsRegisteredAs same_text prepared (lit "0xAB") view
unfolding normalize_hex prime_server.Base.to_lower prime_server.Base.strip_0x lit
    prime_server.Base.str_beq
view-IsRegisteredAs = record {
  blob_id = refl;
  origin = refl;
  owner = refl;
  blob_name = refl;
  name_hash = refl;
  status = refl;
  commitment = refl;
  size = refl;
  chunk_size = refl;
  data_shards = refl;
  total_shards = refl;
  expires_at = refl;
  unpaid = refl;
}

prepared-AreSafe : AreSafe prepared
prepared-AreSafe = record {
  size = refl;
  chunk_size = refl;
  data_shards = refl;
  total_shards = refl;
  expires_at = refl;
}

requested :
    upload_request (lit "0xAB") (lit "text/plain") prepared (5 ∷ [])
    ≡ ok (lit "/blobs/0xAB/me%2Fx", upload_headers (lit "text/plain") prepared (5 ∷ []))
unfolding upload_request lit prime_server.Base.Uri.encode_uri_component
    prime_server.Base.Uri.encode_from prime_server.Base.Uri.escape
requested = refl

upload_request-accepted_example :
    assert_registration_matches_request same_text number
      (some view)
      (normalize_hex prepared.blob_id)
      (lit "0xAB")
      prepared.name
      (upload_headers (lit "text/plain") prepared (5 ∷ []))
      7
    ≡ ok tt
upload_request-accepted_example =
    upload_request-accepted same_text number prepared (lit "0xAB") view view-IsRegisteredAs reads
      (lit "text/plain") (5 ∷ []) 7 (lit "/blobs/0xAB/me%2Fx")
      (upload_headers (lit "text/plain") prepared (5 ∷ [])) prepared-AreSafe (inl refl) requested
