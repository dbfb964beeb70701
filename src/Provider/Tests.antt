-- ===== src/Provider/Tests.antt =====
-- A shard of three bytes that is stored, acknowledged and read in part.
use prime_server.Base.{
  ℕ, Str, Option, none, some, List, [], ◌∷◌, ◌++◌, ◌≡◌, refl, length, lookup, insert, lit, ok,
  decimal, is_digit,
}
use prime_server.Erasure.{Bytes}
use prime_server.Range.{provider_parse_range}
use prime_server.Storage.{
  Metadata, validate_part, file_key, get_shard_metadata, put_shard, metadata_of,
}
use prime_server.Storage.Intact.{Put, put, apply, run, no_files}
use prime_server.Provider.{serve_get}
use prime_server.Provider.Answers.{answer, serve_get-answer}

abbrev same_bytes : Bytes → Str
same_bytes b = b

abbrev a : Str
a = b'a' ∷ []

abbrev zero_index : Str
zero_index = b'0' ∷ []

abbrev puts : List Put
puts = put a zero_index (5 ∷ 6 ∷ 7 ∷ []) none 7 ∷ []

abbrev about : Metadata
about = metadata_of same_bytes a zero_index (5 ∷ 6 ∷ 7 ∷ []) 7

has_metadata : get_shard_metadata (run same_bytes no_files puts) a zero_index ≡ ok about
unfolding get_shard_metadata run apply put_shard file_key validate_part lookup insert
    prime_server.Base.str_beq
has_metadata = refl

serve_get-answer_example :
    (content : Bytes) × (content ≡ 5 ∷ 6 ∷ 7 ∷ [])
    × (length content ≡ 3)
    × (serve_get (run same_bytes no_files puts) a zero_index (some (lit "bytes=1-9"))
        ≡ answer about content (provider_parse_range (some (lit "bytes=1-9")) 3))
serve_get-answer_example =
    serve_get-answer same_bytes puts a zero_index (some (lit "bytes=1-9")) about has_metadata
