-- ===== src/Gateway/Settle/Tests.antt =====
-- Three shards on two providers, with a registry that counts its claims.
use prime_server.Base.{
  ℕ, ◌+◌, Str, true, false, none, List, [], ◌∷◌, ◌≡◌, refl, is_empty, length, keep, upto, Table,
  IsDistinct, lookup, insert, str_beq, str_eq, lit, decimal, decimal_onto, ok,
}
use prime_server.Registry.{active, user, BlobView}
use prime_server.Registry.Methods.{initial_policy, initial_payment}
use prime_server.Gateway.{Endpoint, find_provider}
use prime_server.Gateway.Settle.{
  shards_of, shards_by_provider, Settlement, is_claimable, ClaimSettlement, settlement, claim_all,
  settle_provider_claims,
}
use prime_server.Gateway.Settle.Shares.{
  is_at, is_placed, shards_in, IsClaimed, settle_provider_claims-IsClaimed,
}

abbrev p : Str
p = b'p' ∷ []

abbrev q : Str
q = b'q' ∷ []

abbrev view : BlobView
view = record {
  blob_id = b'1' ∷ [];
  owner = b'a' ∷ [];
  commitment = [];
  size = 1;
  chunk_size = 2;
  data_shards = 1;
  total_shards = 4;
  expires_at = 0;
  origin = user;
  blob_name = [];
  name_hash = [];
  status = active;
  policy = initial_policy;
  payment = record initial_payment { status_name = lit "claimable"; provider_reward_per_shard = 5 };
  placement = (0, p) ∷ (1, q) ∷ (3, p) ∷ [];
  acknowledgements = [];
}

abbrev counting : ClaimSettlement ℕ
counting n blob_id provider_id shards = (n + 1, ok none)

abbrev providers : List Endpoint
providers = record { provider_id = p; url = [] } ∷ record { provider_id = q; url = [] } ∷ []

abbrev settlements : List Settlement
settlements = settlement 5 p (0 ∷ 3 ∷ []) none ∷ settlement 5 q (1 ∷ []) none ∷ []

settles : settle_provider_claims counting providers (b'1' ∷ []) view 0 ≡ (2, ok settlements)
unfolding settle_provider_claims is_claimable shards_by_provider claim_all find_provider lookup
    insert str_beq lit decimal decimal_onto
settles = refl

view-claimable : is_claimable view.payment ≡ true
unfolding is_claimable str_beq lit
view-claimable = refl

settle_provider_claims-IsClaimed_example :
    (t : Table Str (List ℕ)) × IsClaimed counting (b'1' ∷ []) 5 0 t 2 settlements
    × IsDistinct t
    × ((id : Str)
        → is_empty id ≡ false
        → shards_of (lookup id t) ≡ keep (is_at view.placement id) (upto 4))
    × (shards_in t ≡ length (keep (is_placed view.placement) (upto 4)))
settle_provider_claims-IsClaimed_example =
    settle_provider_claims-IsClaimed counting providers (b'1' ∷ []) view 0 2 settlements settles
      view-claimable
