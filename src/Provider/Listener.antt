-- ===== src/Provider/Listener.antt =====
-- The listener of a provider's server: `parseShardPath` and the routes of `createProviderServer`
-- (provider/src/server.mjs).
use prime_server.Base.{
  ℕ, Str, Bool, true, ◌&&◌, ◌||◌, not, Option, none, some, List, [], ◌∷◌, lit, is_empty, is_digit,
  starts_with, drop, split_slash, ◌==◌, str_eq, if◌then◌else◌, plain, Result, ok, err, ◌>>=◌,
  require,
}
use prime_server.Base.Uri.{decode_uri_component}
use prime_server.Erasure.{Bytes}
use prime_server.Storage.{Disk}
use prime_server.Provider.{Response, failed, serve_get, serve_put}

-- A request whose URL is parsed, with the headers that the server reads.
pub record Request : Type 0 where
  pub method : Str
  pub pathname : Str
  pub range : Option Str
  pub declared_length : ℕ
  pub commitment : Option Str
  pub context : Str
  pub chunks : List Bytes
  pub now : ℕ

-- The status 200 with the provider's identity, the answer about a shard, and the statuses 404 and 405.
pub data Answer : Type 0 where
  health : Answer
  about_shard : Response → Answer
  not_found : Answer
  not_allowed : Answer

abbrev pub all_digits : Str → Bool
all_digits [] = true
all_digits (c ∷ s) = is_digit c && all_digits s

-- `String(Number(digits))`, the form in which an index names a file, is a parameter.
module _ (number_text : Str → Str) where
  abbrev pub shard_path : Str × Option Str → Result (Option (Str × Str))
  shard_path (id, none) = ok none
  shard_path (id, some index) =
      let found : Result (Option (Str × Str)) = do
        blob_id ← require (decode_uri_component id) (plain (lit "URI malformed"))
        ok (some (blob_id, number_text index))
      in if is_empty id || is_empty index || not (all_digits index) then ok none else found

  unfoldable pub parse_shard_path : Str → Result (Option (Str × Str))
  parse_shard_path pathname =
      if starts_with pathname (lit "/v1/shards/")
      then shard_path (split_slash (drop 11 pathname))
      else ok none

module _ (number_text : Str → Str) (provider_id : Str) (sign : Str → Str)
    (sha256 : Bytes → Str) where
  abbrev pub answered : Disk × Response → Disk × Answer
  answered (disk, r) = (disk, about_shard r)

  abbrev pub handle_shard : Disk → Request → Result (Option (Str × Str)) → Disk × Answer
  handle_shard disk request (err e) = (disk, about_shard (failed e))
  handle_shard disk request (ok none) = (disk, not_found)
  handle_shard disk request (ok (some (blob_id, shard_index))) =
      if request.method == lit "PUT"
      then answered (
          serve_put provider_id sign sha256 disk blob_id shard_index request.declared_length
            request.chunks request.commitment request.context request.now)
      else if request.method == lit "GET"
      then (disk, about_shard (serve_get disk blob_id shard_index request.range))
      else (disk, not_allowed)

  unfoldable pub handle_request : Disk → Request → Disk × Answer
  handle_request disk request =
      if request.method == lit "GET" && request.pathname == lit "/health"
      then (disk, health)
      else handle_shard disk request (parse_shard_path number_text request.pathname)
