-- ===== src/Gateway/Upload/Samples.antt =====
-- Four providers, a code of two copies, and a user's registration of one byte.
use prime_server.Base.{
  ℕ, Str, true, List, [], ◌∷◌, lit, Result, ok, err, length, plain, ◌==◌, str_eq, if◌then◌else◌,
}
use prime_server.Erasure.Tests.{copies, pair, same_bytes}
use prime_server.Registry.Methods.{Verify, NewBlob, empty, get_blob}
use prime_server.Registry.Calls.{Call, register, create_named, run}
use prime_server.Gateway.{Endpoint}
use prime_server.Gateway.Services.Memory.{World, Network, memory_services}
use prime_server.Gateway.Upload.{UploadResult, upload_registered_blob}

abbrev pub same_text : Str → Str
same_text s = s

abbrev pub any_signature : Verify
any_signature key payload signature = ok true

abbrev pub provider : ℕ → Endpoint
provider n = record { provider_id = n ∷ []; url = n ∷ [] }

abbrev pub providers : List Endpoint
providers = provider 49 ∷ provider 50 ∷ provider 51 ∷ provider 52 ∷ []

-- The first provider serves a shard, and all of them store.
abbrev pub honest : Network (Unit {0})
honest = record {
  fetch = λ n url.
      if url == lit "1/v1/shards/a/0" then ok (200, 5 ∷ 0 ∷ []) else err (plain (lit "down"));
  put = λ url commitment context bytes n. (
    n,
    ok (record {
      status = 201;
      error = [];
      commitment = commitment;
      size = length bytes;
      signed_payload = context;
      signature = [];
    }),
  );
}

abbrev pub registered : NewBlob
registered = record {
  blob_id = lit "a";
  commitment = lit "0500";
  size = 1;
  chunk_size = 2;
  data_shards = 1;
  total_shards = 2;
  expires_at = 0;
}

abbrev pub calls : List Call
calls =
    register (49 ∷ []) [] []
    ∷ register (50 ∷ []) [] []
    ∷ create_named (lit "0xab") (lit "me") registered
    ∷ []

abbrev pub first : World (Unit {0})
first = record {
  registry = run same_text any_signature (empty (lit "op") 1 (lit "memory")) calls;
  network = tt;
}

abbrev pub uploaded : World (Unit {0}) × Result UploadResult
uploaded =
    upload_registered_blob (memory_services same_text any_signature honest) same_text same_bytes
      copies pair (5 ∷ []) (lit "a") (lit "0xab") (lit "ME") (get_blob first.registry (lit "a"))
      providers 1 first
