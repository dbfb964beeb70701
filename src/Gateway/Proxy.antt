-- ===== src/Gateway/Proxy.antt =====
-- `handleFccProxyRequest` of rpc/src/server.mjs: the status and the results of confidential compute,
-- asked from a proxy.
use prime_server.Base.{
  ℕ, Str, not, ◌&&◌, ◌||◌, Option, none, some, [], ◌∷◌, ◌++◌, lit, length, drop, eqb, is_empty,
  starts_with, strip_0x, decimal, ◌==◌, str_eq, if◌then◌else◌, gateway, Result, ok, ◌>>=◌, ◌>>◌,
  throw_if,
}
use prime_server.Auth.{Manager}
use prime_server.Gateway.Read.{is_ok_status}
use prime_server.Gateway.Paths.{all_hex}
use prime_server.Gateway.Requests.{require_session}
use prime_server.Gateway.Site.{Request, failure, instruction_pending, upstream, Response, Setup}
use prime_server.Gateway.Http.{response}

-- `String(value || "").replace(/\/$/, "")`.
abbrev pub normalize_fcc_proxy_url : Str → Str
normalize_fcc_proxy_url [] = []
normalize_fcc_proxy_url (c ∷ []) = if eqb c b'/' then [] else c ∷ []
normalize_fcc_proxy_url (c ∷ d ∷ s) = c ∷ normalize_fcc_proxy_url (d ∷ s)

-- `(0x)?([a-fA-F0-9]{64})$`, after the prefix and `/result/`.
abbrev pub match_instruction : Str → Option Str
match_instruction s =
    if eqb (length (strip_0x s)) 64 && all_hex (strip_0x s) then some (strip_0x s) else none

abbrev pub match_result : Str → Option Str
match_result pathname =
    if starts_with pathname (lit "/prime/v1/fcc/result/")
    then match_instruction (drop (length (lit "/prime/v1/fcc/result/")) pathname)
    else none

module _ {W : Type 0} (setup : Setup W) where
  abbrev pub proxy_info : Result Response
  proxy_info = do
    (status, body) ← setup.fetch_json (normalize_fcc_proxy_url setup.fcc_proxy_url ++ lit "/info")
    throw_if (not (is_ok_status status))
        (gateway 502 (lit "FCC proxy info returned " ++ decimal status))
    value ← body
    ok (response 200 [] (upstream value))

  abbrev pub answer_of_proxy : Str → ℕ × Result Str → Result Response
  answer_of_proxy id (status, body) =
      let value : Result Response = do
        throw_if (not (is_ok_status status))
            (gateway 502 (lit "FCC proxy result returned " ++ decimal status))
        value ← body
        ok (response 200 [] (upstream value))
      in if eqb status 404 || eqb status 202
        then ok (response 202 [] (instruction_pending id))
        else value

  abbrev pub proxy_result : Option Str → Result Response
  proxy_result none = ok (response 404 [] (failure (lit "FCC route not found")))
  proxy_result (some hex) = do
    answer ←
        setup.fetch_json
          (normalize_fcc_proxy_url setup.fcc_proxy_url ++ (lit "/action/result/0x" ++ hex))
    answer_of_proxy (lit "0x" ++ hex) answer

  abbrev pub route_of_proxy : Str → Result Response
  route_of_proxy pathname =
      if pathname == lit "/prime/v1/fcc/info"
      then proxy_info
      else proxy_result (match_result pathname)

  unfoldable pub handle_fcc_proxy_request : Manager → Request → Result Response
  handle_fcc_proxy_request manager request = do
    throw_if (not (request.method == lit "GET")) (gateway 405 (lit "method not allowed"))
    session ← require_session setup manager request
    throw_if (is_empty (normalize_fcc_proxy_url setup.fcc_proxy_url))
        (gateway 503 (lit "FCC proxy is not configured"))
    route_of_proxy request.pathname
