-- ===== src/Gateway/Settle.antt =====
-- `settleProviderClaims` of rpc/src/server.mjs: after an upload, every provider's reward is claimed.
-- `S` is the state of the registry.
pub mod Shares
mod Tests
use prime_server.Base.{
  ℕ, ◌*◌, Str, Bool, not, ◌||◌, Option, none, some, List, [], ◌∷◌, ◌++◌, lit, is_empty, length,
  lookup, insert, Table, upto, ◌==◌, str_eq, nat_eq, decimal, if◌then◌else◌, Error, plain, Result,
  ok, err,
}
use prime_server.Registry.{BlobView, Payment}
use prime_server.Gateway.{Endpoint, find_provider}

abbrev pub shards_of : Option (List ℕ) → List ℕ
shards_of none = []
shards_of (some is) = is

-- The loop that fills `shardsByProvider`; a shard without a provider is passed over.
abbrev pub with_shard : ℕ → Option Str → Table Str (List ℕ) → Table Str (List ℕ)
with_shard i none t = t
with_shard i (some p) t = if is_empty p then t else insert p (shards_of (lookup p t) ++ (i ∷ [])) t

unfoldable pub shards_by_provider : Table ℕ Str → List ℕ → Table Str (List ℕ) → Table Str (List ℕ)
shards_by_provider placement [] t = t
shards_by_provider placement (i ∷ is) t =
    shards_by_provider placement is (with_shard i (lookup i placement) t)

pub record Settlement : Type 0 where
  pub provider_id : Str
  pub shard_indices : List ℕ
  pub transaction : Option Str
  pub amount : Str

-- `["claimable", "partially_settled"].includes(payment.statusName)`.
unfoldable pub is_claimable : Payment → Bool
is_claimable p = p.status_name == lit "claimable" || p.status_name == lit "partially_settled"

-- `registry.claimProviderSettlement`: the state after it, and the transaction's hash or an error.
abbrev pub ClaimSettlement : Type 0 → Type 0
ClaimSettlement S = S → Str → Str → List ℕ → S × Result (Option Str)

abbrev pub settlement : ℕ → Str → List ℕ → Option Str → Settlement
settlement reward provider_id shards transaction = record {
  provider_id = provider_id;
  shard_indices = shards;
  transaction = transaction;
  amount = decimal (reward * length shards);
}

abbrev pub missing_provider : Str → Error
missing_provider id = plain (lit "provider " ++ (id ++ lit " is required for settlement"))

module _ {S : Type 0} where
  abbrev pub then_settled : Settlement → S × Result (List Settlement) → S × Result (List Settlement)
  then_settled x (s, err e) = (s, err e)
  then_settled x (s, ok xs) = (s, ok (x ∷ xs))

  abbrev pub after_claim :
      ℕ
      → Str
      → List ℕ
      → (S → S × Result (List Settlement))
      → S × Result (Option Str)
      → S × Result (List Settlement)
  after_claim reward id shards next (s, err e) = (s, err e)
  after_claim reward id shards next (s, ok tx) =
      then_settled (settlement reward id shards tx) (next s)

module _ {S : Type 0} (claim : ClaimSettlement S) (providers : List Endpoint) where
  -- The loop over the providers.
  unfoldable pub claim_all : Str → ℕ → S → Table Str (List ℕ) → S × Result (List Settlement)
  claim_all blob_id reward s [] = (s, ok [])
  claim_all blob_id reward s ((id, shards) ∷ rest) = elim (find_provider providers (some id)) [
    | none ↦ (s, err (missing_provider id))
    | some _ ↦
        after_claim reward id shards (λ s'. claim_all blob_id reward s' rest)
          (claim s blob_id id shards)
  ]

  -- With a registry that can claim settlements; `b` is its state of the blob.
  unfoldable pub settle_provider_claims : Str → BlobView → S → S × Result (List Settlement)
  settle_provider_claims blob_id b s =
      if not (is_claimable b.payment)
      then (s, ok [])
      else claim_all blob_id b.payment.provider_reward_per_shard s
          (shards_by_provider b.placement (upto b.total_shards) [])
