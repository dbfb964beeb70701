-- ===== src/Gateway/Start.antt =====
-- The start of the gateway's server, before it listens: `providerHealth` and the loop of
-- `createPrimeRpcServer` that registers the providers (rpc/src/server.mjs).
use prime_server.Base.{
  ℕ, Str, List, [], ◌∷◌, ◌++◌, lit, is_empty, if◌then◌else◌, plain, Result, err, throw_if,
}
use prime_server.Base.Action.{Action, pure, lift, ◌>>=◌, ◌>>◌}
use prime_server.Gateway.{Endpoint}
use prime_server.Gateway.Read.{is_ok_status}

-- `fetch_key` gives the status of a response and the public key that `json()` finds in its body;
-- `register_provider` is the registry's method.
module _ {W : Type 0} (fetch_key : Str → Result (ℕ × Result Str))
    (register_provider : Str → Str → Str → Action W (Unit {0})) where
  abbrev pub key_of : Endpoint → ℕ × Result Str → Result Str
  key_of p (status, key) =
      if is_ok_status status
      then key
      else err (plain (lit "provider " ++ (p.provider_id ++ lit " health failed")))

  unfoldable pub provider_health : Endpoint → Action W Str
  provider_health p = do
    response ← lift (fetch_key (p.url ++ lit "/health"))
    lift (key_of p response)

  unfoldable pub register_providers : List Endpoint → Action W (Unit {0})
  register_providers [] = pure tt
  register_providers (p ∷ ps) = do
    key ← provider_health p
    register_provider p.provider_id p.url key
    register_providers ps

  unfoldable pub start : List Endpoint → Action W (Unit {0})
  start providers = do
    lift (throw_if (is_empty providers) (plain (lit "providers are required")))
    register_providers providers
