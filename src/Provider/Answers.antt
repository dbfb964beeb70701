-- ===== src/Provider/Answers.antt =====
-- What a provider answers to a request for a shard that it has stored.
use prime_server.Base.{
  ℕ, ◌+◌, ◌-◌, ◌≤◌, ◌<◌, Str, Option, none, some, List, ◌≡◌, refl, sym, ap, arith, length, min, max,
  lookup, str_eq, ok,
}
use prime_server.Erasure.{Bytes}
use prime_server.Range.{Range, whole, invalid, range, provider_parse_range, slice}
use prime_server.Storage.{Metadata, Disk, file_key, get_shard_metadata, read_shard, cut}
use prime_server.Storage.Intact.{Put, run, run-Keeps, no_files, none-IsIntact}
use prime_server.Storage.Served.{found_under, cut_whole}
use prime_server.Provider.{Response, unsatisfiable, complete, partial, serve_get, serve_range}

provider_parse_range_inside :
    (header : Option Str) (size s e : ℕ)
    → provider_parse_range header size ≡ range s e
    → (s ≤ e) × (e < size)
unfolding provider_parse_range
provider_parse_range_inside none size s e h = cc
provider_parse_range_inside (some header) size s e h = ground arith

-- What a range of a content is answered with.
abbrev pub answer : Metadata → Bytes → Range → Response
answer m content invalid = unsatisfiable m.size
answer m content whole = complete m content
answer m content (range s e) = partial m (slice content s e) s e m.size

cut_range :
    (content : Bytes) (m : Metadata) (s e : ℕ)
    → s ≤ e
    → e < length content
    → length content ≡ m.size
    → partial m
        (cut content
          (min s (length content))
          (max (min s (length content)) (min (e + 1) (length content)))).bytes
        (min s (length content))
        (max (min s (length content)) (min (e + 1) (length content)) - 1)
        (length content)
      ≡ partial m (slice content s e) s e m.size
cut_range content m s e h k sized =
    let first : min s (length content) ≡ s = omega arith in
    let last : max s (min (e + 1) (length content)) ≡ e + 1 = omega arith in
    let back : e + 1 - 1 ≡ e = omega arith in rw first (rw last (rw back (rw sized refl)))

cut_to_size :
    (content : Bytes) (n : ℕ)
    → n ≡ length content
    → (cut content
        (min 0 (length content))
        (max (min 0 (length content)) (min n (length content)))).bytes
      ≡ content
cut_to_size content n e = rw e (cut_whole content (length content) refl)

serve_range-answer :
    (disk : Disk) (blob_id shard_index key : Str) (m : Metadata) (content : Bytes) (r : Range)
    → file_key blob_id shard_index ≡ ok key
    → lookup key disk.shards ≡ some content
    → length content ≡ m.size
    → ((s e : ℕ) → r ≡ range s e → (s ≤ e) × (e < m.size))
    → serve_range disk blob_id shard_index m r ≡ ok (answer m content r)
unfolding read_shard
serve_range-answer disk blob_id shard_index key m content invalid named at sized inside = refl
serve_range-answer disk blob_id shard_index key m content whole named at sized inside =
    rw (named, at) (ap (λ b. ok (complete m b)) (cut_to_size content m.size (sym sized)))
serve_range-answer disk blob_id shard_index key m content (range s e) named at sized inside =
    let (a, b) = inside s e refl in
    rw (named, at) (ap (λ (p : Response). ok p) (cut_range content m s e a (omega arith) sized))

module _ (sha256 : Bytes → Str) where
  -- After any calls of `putShard` on an empty disk, complete or cut off by a crash, a GET request for
  -- a shard that has metadata is answered from one content with the commitment and the size of the
  -- metadata: with the whole of it, with the slice of the range asked for and its bounds, or with the
  -- refusal of the range.
  pub serve_get-answer :
      (puts : List Put) (blob_id shard_index : Str) (header : Option Str) (m : Metadata)
      → get_shard_metadata (run sha256 no_files puts) blob_id shard_index ≡ ok m
      → (content : Bytes) × (sha256 content ≡ m.commitment)
        × (length content ≡ m.size)
        × (serve_get (run sha256 no_files puts) blob_id shard_index header
            ≡ answer m content (provider_parse_range header m.size))
  unfolding serve_get
  serve_get-answer puts blob_id shard_index header m h =
      let disk : Disk = run sha256 no_files puts in
      let (key, named, at) = found_under disk blob_id shard_index m h in
      let (content, stored, matches, sized) =
        (run-Keeps sha256 no_files puts).intact (none-IsIntact sha256) key m at in
      (
        content,
        matches,
        sized,
        rw h (
            rw
              (serve_range-answer disk blob_id shard_index key m content
                (provider_parse_range header m.size) named stored sized
                (provider_parse_range_inside header m.size))
              refl),
      )
