-- ===== src/Gateway.antt =====
-- The gateway (rpc/src/server.mjs): its errors, the providers that it knows, and what it makes of
-- identifiers.
pub mod Read
pub mod Paths
pub mod Site
pub mod Http
pub mod Content
pub mod Requests
pub mod Serve
pub mod Proxy
pub mod Developer
pub mod Server
pub mod Start
pub mod Access
pub mod Registration
pub mod Settle
pub mod Services
pub mod Admission
pub mod Upload
pub mod Rebuild
use prime_server.Base.{
  ℕ, Str, Bool, true, List, [], ◌∷◌, ◌&&◌, ◌||◌, leb, eqb, length, to_lower, strip_0x, Table,
  Option, none, some, lit, ◌++◌, find, Result, Error, gateway, ◌==◌, str_eq,
}
use prime_server.Erasure.{Bytes}

-- A provider as the gateway is configured with it.
pub record Endpoint : Type 0 where
  pub provider_id : Str
  pub url : Str

-- `fetch(url)`: the status and the body of the response, or an error of the network.
abbrev pub Fetch : Type 0
Fetch = Str → Result (ℕ × Bytes)

-- `providers.find((candidate) => candidate.providerId === providerId)`.
unfoldable pub find_provider : List Endpoint → Option Str → Option Endpoint
find_provider providers none = none
find_provider providers (some id) = find (λ (c : Endpoint). c.provider_id == id) providers

-- `request.headers`: names in lower case.
abbrev pub Headers : Type 0
Headers = Table Str Str

-- `String(value || "").replace(/^0x/, "").toLowerCase()`, where an absent value is empty.
unfoldable pub normalize_hex : Str → Str
normalize_hex value = to_lower (strip_0x value)

abbrev pub text_of : Option Str → Str
text_of none = []
text_of (some s) = s

abbrev pub is_lower_hex_digit : ℕ → Bool
is_lower_hex_digit c = leb b'0' c && leb c b'9' || leb b'a' c && leb c b'f'

abbrev all_lower_hex : Str → Bool
all_lower_hex [] = true
all_lower_hex (c ∷ s) = is_lower_hex_digit c && all_lower_hex s

-- `/^[a-f0-9]{64}$/.test(s)`.
unfoldable pub is_identifier : Str → Bool
is_identifier s = eqb (length s) 64 && all_lower_hex s
