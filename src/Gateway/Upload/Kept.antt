-- ===== src/Gateway/Upload/Kept.antt =====
-- What no call of the services breaks, no upload breaks, whether it returns or throws.
use prime_server.Base.{
  ℕ, ◌+◌, Str, not, upto, Option, none, some, Option-cases, inl, inr, List, [], ◌∷◌, ◌≡◌, refl,
  Result, ok, err, Error, require, Bool, true, false, if◌then◌else◌,
}
use prime_server.Base.Action.{
  Action, lift, ◌>>=◌, Keeps, pure-Keeps, lift-Keeps, bind-Keeps, keeps_rules,
}
use prime_server.Registry.{Acknowledgement, BlobView}
use prime_server.Registry.Methods.{NewBlob}
use prime_server.Erasure.{Bytes, Config, Clay, Encoded}
use prime_server.Gateway.{Endpoint, find_provider}
use prime_server.Gateway.Settle.{
  Settlement, ClaimSettlement, claim_all, after_claim, then_settled, settle_provider_claims,
  is_claimable, settlement, shards_by_provider,
}
use prime_server.Gateway.Services.{Services, PutReply}
use prime_server.Gateway.Services.Kept.{AreKept}
use prime_server.Gateway.Upload.{
  Placed, upload_shard, confirm, ensure_placed, place_shard, place_shards, settle,
  place_encoded_blob, finish, register_operator_blob, upload_registered_blob, upload_blob,
}

module _ {W : Type 0} {P : W → Type 0} (claim : ClaimSettlement W)
    (kept : (id p : Str) (is : List ℕ) → Keeps P (λ w. claim w id p is))
    (providers : List Endpoint) where
  then_settled_keeps :
      (x : Settlement) (y : W × Result (List Settlement)) → P y.0 → P (then_settled x y).0
  then_settled_keeps x (s, ok xs) p = p
  then_settled_keeps x (s, err e) p = p

  after_claim_keeps :
      (reward : ℕ) (id : Str) (shards : List ℕ) (next : W → W × Result (List Settlement))
      (y : W × Result (Option Str))
      → P y.0
      → ((w : W) → P w → P (next w).0)
      → P (after_claim reward id shards next y).0
  after_claim_keeps reward id shards next (s, ok tx) p k =
      then_settled_keeps (settlement reward id shards tx) (next s) (k s p)
  after_claim_keeps reward id shards next (s, err e) p k = p

  claim_all_keeps :
      (blob_id : Str) (reward : ℕ) (w : W) (t : List (Str × List ℕ))
      → P w
      → P (claim_all claim providers blob_id reward w t).0
  unfolding claim_all
  claim_all_keeps blob_id reward w [] p = p
  claim_all_keeps blob_id reward w ((id, shards) ∷ rest) p =
      elim (Option-cases (find_provider providers (some id))) [
        | inl e ↦ rw (e, claim_all) p
        | inr (_, e) ↦
            rw (e, claim_all)
              (after_claim_keeps reward id shards
                (λ s. claim_all claim providers blob_id reward s rest) (claim w blob_id id shards)
                ((kept blob_id id shards).at w p) (λ s q. claim_all_keeps blob_id reward s rest q))
      ]

  settle_provider_claims-Keeps :
      (blob_id : Str) (b : BlobView) → Keeps P (settle_provider_claims claim providers blob_id b)
  unfolding settle_provider_claims
  settle_provider_claims-Keeps blob_id b = record {
    at = λ w p. by_status (is_claimable b.payment) w p;
  }
    where
      by_status :
          (t : Bool) (w : W)
          → P w
          → P
              (if not t
                then (w, ok [])
                else claim_all claim providers blob_id b.payment.provider_reward_per_shard w
                    (shards_by_provider b.placement (upto b.total_shards) [])).0
      by_status true w p = claim_all_keeps blob_id _ w _ p
      by_status false w p = p

-- The rest of a block may use that a method is there.
from_required :
    {W A B : Type 0} {P : W → Type 0} (o : Option A) (e : Error) (f : A → Action W B)
    → ((a : A) → o ≡ some a → Keeps P (f a))
    → Keeps P (lift (require o e) >>= f)
unfolding ◌>>=◌ lift
from_required none e f k = record { at = λ w p. p }
from_required (some a) e f k = record { at = λ w p. (k a refl).at w p }

module _ {W : Type 0} {P : W → Type 0} (services : Services W) (kept : AreKept services P) where
  pub upload_shard-Keeps :
      (p : Endpoint) (blob_id : Str) (i : ℕ) (bytes : Bytes) (commitment context : Str)
      → Keeps P (upload_shard services p blob_id i bytes commitment context)
  unfolding upload_shard
  upload_shard-Keeps p blob_id i bytes commitment context = search (keeps_rules, kept.put)

  ensure_placed-Keeps :
      (blob_id : Str) (i : ℕ) (p : Endpoint) (o : Option Str)
      → Keeps P (ensure_placed services blob_id i p o)
  unfolding ensure_placed
  ensure_placed-Keeps blob_id i p none = kept.assign blob_id i p.provider_id
  ensure_placed-Keeps blob_id i p (some _) = pure-Keeps tt

  confirm-Keeps :
      (blob_id : Str) (i : ℕ) (p : Endpoint) (context : Str) (receipt : PutReply)
      (o : Option Acknowledgement)
      → Keeps P (confirm services blob_id i p context receipt o)
  unfolding confirm
  confirm-Keeps blob_id i p context receipt none = kept.acknowledge _
  confirm-Keeps blob_id i p context receipt (some a) = lift-Keeps _

  place_shard-Keeps :
      (b : BlobView) (blob_id : Str) (providers : List Endpoint) (i : ℕ) (chunk : Bytes)
      (commitment : Str)
      → Keeps P (place_shard services b blob_id providers i chunk commitment)
  unfolding place_shard
  place_shard-Keeps b blob_id providers i chunk commitment =
      search (keeps_rules, ensure_placed-Keeps, upload_shard-Keeps, confirm-Keeps) depth 16

  place_shards-Keeps :
      (b : BlobView) (blob_id : Str) (providers : List Endpoint) (commitments : List Str) (i : ℕ)
      (chunks : List Bytes)
      → Keeps P (place_shards services b blob_id providers commitments i chunks)
  unfolding place_shards
  place_shards-Keeps b blob_id providers commitments i [] = pure-Keeps []
  place_shards-Keeps b blob_id providers commitments i (chunk ∷ chunks) =
      bind-Keeps _ _ (place_shard-Keeps b blob_id providers i chunk _) (λ receipt.
        bind-Keeps _ _ (place_shards-Keeps b blob_id providers commitments (i + 1) chunks)
          (λ receipts. pure-Keeps (receipt ∷ receipts)))

  settle-Keeps :
      (o : Option (ClaimSettlement W)) (providers : List Endpoint) (blob_id : Str)
      (state : Option BlobView)
      → services.claim_settlement ≡ o
      → Keeps P (settle services o providers blob_id state)
  unfolding settle
  settle-Keeps none providers blob_id state e = pure-Keeps []
  settle-Keeps (some claim) providers blob_id none e = pure-Keeps []
  settle-Keeps (some claim) providers blob_id (some b) e =
      settle_provider_claims-Keeps claim (kept.claim claim e) providers blob_id b

  finish-Keeps :
      (input : Bytes) (encoded : Encoded) (blob_id : Str) (providers : List Endpoint) (b : BlobView)
      (receipts : List Placed)
      → Keeps P (finish services input encoded blob_id providers b receipts)
  unfolding finish
  finish-Keeps input encoded blob_id providers b receipts =
      search
        (
          keeps_rules,
          kept.finalize,
          settle-Keeps services.claim_settlement providers blob_id _ refl,
        )
        depth 20

  place_encoded_blob-Keeps :
      (input : Bytes) (encoded : Encoded) (blob_id : Str) (providers : List Endpoint)
      → Keeps P (place_encoded_blob services input encoded blob_id providers)
  unfolding place_encoded_blob
  place_encoded_blob-Keeps input encoded blob_id providers =
      search (keeps_rules, place_shards-Keeps, finish-Keeps) depth 16

  register_operator_blob-Keeps :
      (name : Str) (n : NewBlob) → Keeps P (register_operator_blob services name n)
  unfolding register_operator_blob
  register_operator_blob-Keeps [] n =
      from_required services.create_operator_blob _ (λ f. f n) (λ f e. kept.create f e n)
  register_operator_blob-Keeps (c ∷ name) n =
      from_required services.create_operator_blob_named _ (λ f. f (c ∷ name) n)
        (λ f e. kept.create_named f e (c ∷ name) n)

  module _ (keccak256 : Str → Str) (sha256 : Bytes → Str) (clay : Clay) (config : Config) where
    pub upload_registered_blob-Keeps :
        (input : Bytes) (blob_id blob_name account : Str) (registration : Option BlobView)
        (providers : List Endpoint) (now : ℕ)
        → Keeps P (
            upload_registered_blob services keccak256 sha256 clay config input blob_id blob_name
              account registration providers now)
    unfolding upload_registered_blob
    upload_registered_blob-Keeps input blob_id blob_name account registration providers now =
        search (keeps_rules, place_encoded_blob-Keeps) depth 16

    pub upload_blob-Keeps :
        (input : Bytes) (providers : List Endpoint) (blob_name : Str) (expires_at : ℕ)
        (random : Bytes)
        → Keeps P (
            upload_blob services keccak256 sha256 clay config input providers blob_name expires_at
              random)
    unfolding upload_blob
    upload_blob-Keeps input providers blob_name expires_at random =
        search (keeps_rules, register_operator_blob-Keeps, place_encoded_blob-Keeps) depth 16
