-- ===== src/Gateway/Site.antt =====
-- What the gateway's server keeps and calls, its requests and its responses (rpc/src/server.mjs).
use prime_server.Base.{ℕ, ◌*◌, Str, Bool, List, Option, Table, Result}
use prime_server.Base.Action.{Action}
use prime_server.Registry.{Status, Origin, BlobView}
use prime_server.Erasure.{Bytes, Config, Clay, four_provider_config}
use prime_server.Auth.{Crypto, Manager, Challenge, Session}
use prime_server.Jobs.{Job}
use prime_server.Objects.{Object}
use prime_server.Gateway.{Endpoint, Headers}
use prime_server.Gateway.Access.{PolicyValue, AccessRegistry}
use prime_server.Gateway.Settle.{Settlement}
use prime_server.Gateway.Services.{Services}
use prime_server.Gateway.Upload.{UploadResult}
use prime_server.Gateway.Rebuild.{RebuildResult}

abbrev pub max_body_bytes : ℕ
max_body_bytes = four_provider_config.k * four_provider_config.chunk_size_bytes

-- A request whose URL is parsed; the body comes in chunks, and `now` is the clock in milliseconds.
pub record Request : Type 0 where
  pub method : Str
  pub origin : Str
  pub pathname : Str
  pub param : Str → Option Str
  pub headers : Headers
  pub chunks : List Bytes
  pub now : ℕ

-- The body of a POST for a session, as `JSON.parse` reads it: no JSON, no object, or the texts that the
-- code makes of its address, nonce and signature, and the number `now`, if it has one; a `now` that is
-- not a natural number is not modelled.
pub record SessionRequest : Type 0 where
  pub address : Str
  pub nonce : Str
  pub signature : Str
  pub now : Option ℕ

pub data SessionBody : Type 0 where
  malformed : SessionBody
  not_an_object : SessionBody
  fields : SessionRequest → SessionBody

-- What the gateway's object store holds of a blob beside its account, name and id.
pub record Details : Type 0 where
  pub size : ℕ
  pub content_type : Str
  pub commitment : Str
  pub name_hash : Str
  pub created_at : Str
  pub expires_at : ℕ
  pub status : Status
  pub origin : Origin
  pub storage_mode : PolicyValue
  pub access_policy : PolicyValue
  pub policy_commitment : Str
  pub key_envelope_commitment : Str
  pub metadata_commitment : Str
  pub payment_status : Str
  pub payment_asset : Str
  pub provider_settlements : List Settlement

-- What `JSON.stringify` is given, or the bytes of a content.
pub data Body : Type 0 where
  no_body : Body
  content : Bytes → Body
  failure : Str → Body
  health : ℕ → Body
  jobs : List (Job RebuildResult) → Body
  uploaded : UploadResult → Body
  recovered : Option RebuildResult → Body
  blob : BlobView → Body
  object : Object Details → Str → Body  -- with its URL for downloads
  listing : Str → List (Object Details × Str) → Option Str → Body
  about_service : Bool → Body  -- with whether there is confidential compute
  challenge : Challenge → Body  -- with its times as texts
  session : Session → Body
  account : Str → Str → Body
  instruction_pending : Str → Body
  upstream : Str → Body

pub record Response : Type 0 where
  pub status : ℕ
  pub headers : Headers
  pub body : Body

-- The registry and the providers, the objects and the sessions.
pub record Site (W : Type 0) : Type 0 where
  pub world : W
  pub objects : Table Str (Object Details)
  pub manager : Manager

-- The arguments of `createPrimeRpcServer` and the packages that it uses. `number` gives the natural
-- number that `Number` makes of a text, if it is a safe integer and not negative; `is_above` tells
-- whether `Number` makes more of a text than a limit; `number_of_limit` is the limit of a listing.
-- `fetch_json` gives the status of a response and what `json()` makes of its body.
pub record Setup (W : Type 0) : Type 0 where
  pub services : Services W
  pub access : W → AccessRegistry
  pub providers : List Endpoint
  pub clay : Clay
  pub config : Config
  pub sha256 : Bytes → Str
  pub keccak256 : Str → Str
  pub crypto : Crypto
  pub number : Str → Option ℕ
  pub is_above : Str → ℕ → Bool
  pub number_of_limit : Str → ℕ
  pub random : W → Bytes
  pub encode_name : Str → Str
  pub before : Object Details → Object Details → Bool
  pub recover : Option (Str → Action W (Option RebuildResult))
  pub list_jobs : Option (W → List (Job RebuildResult))
  pub read_session : Bytes → SessionBody
  pub fetch_json : Str → Result (ℕ × Result Str)
  pub public_base_url : Str
  pub cors_origin : Str
  pub fcc_proxy_url : Str
  pub fcc_internal_token : Str
