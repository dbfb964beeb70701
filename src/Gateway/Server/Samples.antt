-- ===== src/Gateway/Server/Samples.antt =====
-- A server over the registry and the providers of the upload's tests.
use prime_server.Base.{
  ℕ, Str, true, false, none, some, Option, List, [], ◌∷◌, lit, Result, ok, err, plain, decimal,
}
use prime_server.Erasure.{Bytes}
use prime_server.Erasure.Tests.{copies, pair, same_bytes}
use prime_server.Registry.Methods.{NewBlob, empty}
use prime_server.Registry.Calls.{Call, register, create_named, run}
use prime_server.Auth.{Crypto, Manager}
use prime_server.Gateway.{Headers}
use prime_server.Gateway.Services.Memory.{World, memory_services}
use prime_server.Gateway.Upload.Samples.{same_text, any_signature, providers, honest, uploaded}
use prime_server.Registry.{active, user}
use prime_server.Objects.{Object}
use prime_server.Gateway.Access.{undefined}
use prime_server.Gateway.Developer.{put_blob}
use prime_server.Gateway.Site.{
  Request, fields, Details, Body, no_body, object, Response, Site, Setup,
}

-- Every signature is one letter, and every token is the wallet's.
abbrev pub trusting : Crypto
trusting = record {
  get_address = λ s. some s;
  verify_message = λ address message signature. ok true;
  to_iso_string = decimal;
  encode = λ p. lit "p";
  decode = λ s.
      ok (record { address = some (lit "0xab"); issued_at = some 0; expires_at = some 9000000 });
  sign = λ s key. lit "s";
}

abbrev pub digit : Str → Option ℕ
digit [] = some 0
digit (c ∷ s) = some 1

abbrev pub setup : Setup (World (Unit {0}))
setup = record {
  services = memory_services same_text any_signature honest;
  access = λ w. record { get_request = none; check_usable = none };
  providers = providers;
  clay = copies;
  config = pair;
  sha256 = same_bytes;
  keccak256 = same_text;
  crypto = trusting;
  number = digit;
  is_above = λ s n. false;
  number_of_limit = λ s. 100;
  random = λ w. [];
  encode_name = λ s. s;
  before = λ a b. true;
  recover = none;
  list_jobs = none;
  read_session =
      λ b. fields (record { address = lit "0xab"; nonce = lit "n"; signature = []; now = some 7 });
  fetch_json = λ s. err (plain (lit "down"));
  public_base_url = [];
  cors_origin = lit "*";
  fcc_proxy_url = [];
  fcc_internal_token = [];
}

-- A challenge that ended at 10.
abbrev pub challenged : Manager
challenged = record {
  secret = lit "k";
  domain = lit "d";
  session_ttl_ms = 100;
  challenge_ttl_ms = 10;
  challenges =
      (
        lit "0xab:n",
        record { address = lit "0xab"; nonce = lit "n"; message = lit "m"; expires_at = 10 },
      )
      ∷ [];
}

abbrev pub request_of : Str → Str → Headers → List Bytes → ℕ → Request
request_of method pathname headers chunks now = record {
  method = method;
  origin = lit "http://127.0.0.1";
  pathname = pathname;
  param = λ s. none;
  headers = headers;
  chunks = chunks;
  now = now;
}

abbrev pub site : Site (World (Unit {0}))
site = record { world = uploaded.0; objects = []; manager = challenged }

-- A blob of the wallet's that waits for its upload and does not expire.
abbrev pub long_id : Str
long_id = lit "00000000000000000000000000000000000000000000000000000000000000aa"

abbrev pub lasting : NewBlob
lasting = record {
  blob_id = long_id;
  commitment = lit "0500";
  size = 1;
  chunk_size = 2;
  data_shards = 1;
  total_shards = 2;
  expires_at = 0;
}

abbrev pub lasting_calls : List Call
lasting_calls =
    register (49 ∷ []) [] []
    ∷ register (50 ∷ []) [] []
    ∷ create_named (lit "me") (lit "0xab") lasting
    ∷ []

abbrev pub waiting : Site (World (Unit {0}))
waiting = record {
  world = record {
    registry = run same_text any_signature (empty (lit "op") 1 (lit "memory")) lasting_calls;
    network = tt;
  };
  objects = [];
  manager = challenged;
}

abbrev pub bearer : Headers
bearer = (lit "authorization", lit "Bearer p.s") ∷ []

abbrev pub get_content : Request
get_content = request_of (lit "GET") (lit "/v1/blobs/a/content") [] [] 1000

abbrev pub put_me : Request
put_me =
    request_of (lit "PUT") (lit "/prime/v1/blobs/0xab/me")
      ((lit "content-length", lit "1") ∷ (lit "x-prime-blob-id", long_id) ∷ bearer) ((5 ∷ []) ∷ [])
      1000

abbrev pub get_me : Request
get_me = request_of (lit "GET") (lit "/prime/v1/blobs/0xab/me") bearer [] 2000

-- Long after the challenge ended.
abbrev pub log_in_late : Request
log_in_late = request_of (lit "POST") (lit "/prime/v1/auth/session") [] ((1 ∷ []) ∷ []) 5000

abbrev pub blank : Object Details
blank = record {
  account = [];
  name = [];
  blob_id = [];
  fields = record {
    size = 0;
    content_type = [];
    commitment = [];
    name_hash = [];
    created_at = [];
    expires_at = 1;
    status = active;
    origin = user;
    storage_mode = undefined;
    access_policy = undefined;
    policy_commitment = [];
    key_envelope_commitment = [];
    metadata_commitment = [];
    payment_status = [];
    payment_asset = [];
    provider_settlements = [];
  };
}

abbrev pub returned : Result Response → Response
returned (ok r) = r
returned (err e) = record { status = 500; headers = []; body = no_body }

abbrev pub object_in : Body → Object Details × Str
object_in (object o url) = (o, url)
object_in _ = (blank, [])

abbrev pub put : Site (World (Unit {0})) × Result Response
put = put_blob setup (lit "0xab") (lit "me") put_me waiting
