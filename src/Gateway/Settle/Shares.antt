-- ===== src/Gateway/Settle/Shares.antt =====
-- The calls of `claimProviderSettlement` that `settleProviderClaims` makes after an upload.
use prime_server.Base.{
  ℕ, ◌+◌, Str, Bool, true, false, not, Option, none, some, List, [], ◌∷◌, ◌++◌, ◌≡◌, refl, sym, ap,
  ◌∙◌, inl, inr, arith, is_empty, length, length-append, keep, lookup, insert, lookup-insert, Table,
  IsDistinct, insert-IsDistinct, upto, ◌==◌, ==-cases, str_eq, nat_eq, if◌then◌else◌, Bool-cases,
  Option-cases, Result, ok, err, ok-inj,
}
use mathlib.Core.List.{append-nil, append_assoc}
use prime_server.Registry.{BlobView}
use prime_server.Gateway.{Endpoint, find_provider}
use prime_server.Gateway.Settle.{
  shards_of, with_shard, shards_by_provider, Settlement, is_claimable, ClaimSettlement, settlement,
  then_settled, after_claim, claim_all, settle_provider_claims,
}

-- Whether a shard is placed with this provider.
abbrev pub is_at : Table ℕ Str → Str → ℕ → Bool
is_at placement p i = elim (lookup i placement) [ none ↦ false | some q ↦ q == p ]

-- Whether it is placed with any.
abbrev pub is_placed : Table ℕ Str → ℕ → Bool
is_placed placement i = elim (lookup i placement) [ none ↦ false | some q ↦ not (is_empty q) ]

-- The number of shards in a table by provider.
abbrev pub shards_in : Table Str (List ℕ) → ℕ
shards_in [] = 0
shards_in ((p, is) ∷ t) = length is + shards_in t

shards_in-insert :
    (p : Str) (v : List ℕ) (t : Table Str (List ℕ))
    → shards_in (insert p v t) + length (shards_of (lookup p t)) ≡ shards_in t + length v
unfolding insert lookup
shards_in-insert p v [] = omega arith
shards_in-insert p v ((q, w) ∷ t) = elim (Bool-cases (q == p)) [
  | inl e ↦ rw e (omega arith)
  | inr e ↦ rw e (omega (arith, shards_in-insert p v t))
]

one_more :
    (i : ℕ) (o : Option Str) (t : Table Str (List ℕ))
    → shards_in (with_shard i o t)
      ≡ shards_in t + (if (elim o [ none ↦ false | some q ↦ not (is_empty q) ]) then 1 else 0)
one_more i none t = omega arith
one_more i (some []) t = omega arith
one_more i (some (c ∷ q)) t =
    let v : List ℕ = shards_of (lookup (c ∷ q) t) ++ (i ∷ []) in
    omega
      (arith, shards_in-insert (c ∷ q) v t, length-append (shards_of (lookup (c ∷ q) t)) (i ∷ []))

shards_in-shards_by_provider :
    (placement : Table ℕ Str) (is : List ℕ) (t : Table Str (List ℕ))
    → shards_in (shards_by_provider placement is t)
      ≡ shards_in t + length (keep (is_placed placement) is)
unfolding shards_by_provider
shards_in-shards_by_provider placement [] t = omega arith
shards_in-shards_by_provider placement (i ∷ is) t =
    shards_in-shards_by_provider placement is (with_shard i (lookup i placement) t)
    ∙ (ap (λ n. n + length (keep (is_placed placement) is)) (one_more i (lookup i placement) t)
        ∙ counted (is_placed placement i) (keep (is_placed placement) is))
  where
    counted :
        (b : Bool) (l : List ℕ)
        → shards_in t + (if b then 1 else 0) + length l
          ≡ shards_in t + length (if b then i ∷ l else l)
    counted true l = omega arith
    counted false l = omega arith

own_more :
    (p : Str) (i : ℕ) (o : Option Str) (t : Table Str (List ℕ))
    → is_empty p ≡ false
    → shards_of (lookup p (with_shard i o t))
      ≡ shards_of (lookup p t)
        ++ (if (elim o [ none ↦ false | some q ↦ q == p ]) then i ∷ [] else [])
own_more p i none t h = sym (append-nil _)
own_more p i (some q) t h = elim (==-cases q p) [
  | inl (e, same) ↦
      let named : is_empty q ≡ false = ap is_empty same ∙ h in
      rw e (
        rw named (
          rw (lookup-insert q p (shards_of (lookup q t) ++ (i ∷ [])) t)
            (rw e (ap (λ k. shards_of (lookup k t) ++ (i ∷ [])) same))))
  | inr e ↦ apart_from (is_empty q) e
]
  where
    apart_from :
        (b : Bool)
        → (q == p) ≡ false
        → shards_of (lookup p (if b then t else insert q (shards_of (lookup q t) ++ (i ∷ [])) t))
          ≡ shards_of (lookup p t) ++ (if q == p then i ∷ [] else [])
    apart_from true e = rw e (sym (append-nil _))
    apart_from false e =
        rw (lookup-insert q p (shards_of (lookup q t) ++ (i ∷ [])) t) (rw e (sym (append-nil _)))

-- The shards collected for a provider are those placed with it, in order.
shards_of-shards_by_provider :
    (p : Str) (placement : Table ℕ Str) (is : List ℕ) (t : Table Str (List ℕ))
    → is_empty p ≡ false
    → shards_of (lookup p (shards_by_provider placement is t))
      ≡ shards_of (lookup p t) ++ keep (is_at placement p) is
unfolding shards_by_provider
shards_of-shards_by_provider p placement [] t h = sym (append-nil _)
shards_of-shards_by_provider p placement (i ∷ is) t h =
    shards_of-shards_by_provider p placement is (with_shard i (lookup i placement) t) h
    ∙ (ap (λ l. l ++ keep (is_at placement p) is) (own_more p i (lookup i placement) t h)
        ∙ (append_assoc (shards_of (lookup p t)) _ (keep (is_at placement p) is)
            ∙ ap (◌++◌ (shards_of (lookup p t)))
                (kept (is_at placement p i) (keep (is_at placement p) is))))
  where
    kept : (b : Bool) (l : List ℕ) → (if b then i ∷ [] else []) ++ l ≡ (if b then i ∷ l else l)
    kept true l = refl
    kept false l = refl

shards_by_provider-IsDistinct :
    (placement : Table ℕ Str) (is : List ℕ) (t : Table Str (List ℕ))
    → IsDistinct t
    → IsDistinct (shards_by_provider placement is t)
unfolding shards_by_provider
shards_by_provider-IsDistinct placement [] t d = d
shards_by_provider-IsDistinct placement (i ∷ is) t d =
    shards_by_provider-IsDistinct placement is (with_shard i (lookup i placement) t)
      (added i (lookup i placement) d)
  where
    added : (i : ℕ) (o : Option Str) → IsDistinct t → IsDistinct (with_shard i o t)
    added i none d = d
    added i (some []) d = d
    added i (some (c ∷ q)) d = insert-IsDistinct (c ∷ q) _ t d

module _ {S : Type 0} (claim : ClaimSettlement S) (blob_id : Str) (reward : ℕ) where
  -- From `s`, the entries of the table were claimed one after another, each by one call with its
  -- provider and its shards in the state that the call before left, up to `s'`; the settlements are
  -- those of the entries, with the transactions that the calls returned.
  abbrev pub IsClaimed : S → Table Str (List ℕ) → S → List Settlement → Type 0
  IsClaimed s [] s' xs = (s' ≡ s) × (xs ≡ [])
  IsClaimed s ((p, shards) ∷ t) s' xs =
      (tx : Option Str) × (ys : List Settlement) × ((claim s blob_id p shards).1 ≡ ok tx)
      × (xs ≡ settlement reward p shards tx ∷ ys)
      × IsClaimed (claim s blob_id p shards).0 t s' ys

module _ {S : Type 0} where
  then_settled-inv :
      (x : Settlement) (r : S × Result (List Settlement)) (s' : S) (xs : List Settlement)
      → then_settled x r ≡ (s', ok xs)
      → (ys : List Settlement) × (r ≡ (s', ok ys)) × (xs ≡ x ∷ ys)
  then_settled-inv x (s, err e) s' xs h = cc (ap (λ r. r.1) h)
  then_settled-inv x (s, ok ys) s' xs h =
      (ys, ap (λ r. (r.0, ok ys)) h, sym (ok-inj (ap (λ r. r.1) h)))

  after_claim-inv :
      (id : Str) (shards : List ℕ) (reward : ℕ) (next : S → S × Result (List Settlement))
      (r : S × Result (Option Str)) (s' : S) (xs : List Settlement)
      → after_claim reward id shards next r ≡ (s', ok xs)
      → (tx : Option Str) × (ys : List Settlement) × (r.1 ≡ ok tx)
        × (xs ≡ settlement reward id shards tx ∷ ys)
        × (next r.0 ≡ (s', ok ys))
  after_claim-inv id shards reward next (s, err e) s' xs h = cc (ap (λ r. r.1) h)
  after_claim-inv id shards reward next (s, ok tx) s' xs h =
      let (ys, rest, whole) = then_settled-inv (settlement reward id shards tx) (next s) s' xs h in
      (tx, ys, refl, whole, rest)

module _ {S : Type 0} (claim : ClaimSettlement S) (providers : List Endpoint) where
  claim_all-IsClaimed :
      (blob_id : Str) (reward : ℕ) (s : S) (t : Table Str (List ℕ)) (s' : S) (xs : List Settlement)
      → claim_all claim providers blob_id reward s t ≡ (s', ok xs)
      → IsClaimed claim blob_id reward s t s' xs
  unfolding claim_all
  claim_all-IsClaimed blob_id reward s [] s' xs h =
      (sym (ap (λ r. r.0) h), sym (ok-inj (ap (λ r. r.1) h)))
  claim_all-IsClaimed blob_id reward s ((id, shards) ∷ rest) s' xs h =
      elim (Option-cases (find_provider providers (some id))) [
        | inl e ↦ cc (ap (λ r. r.1) (rw (e, claim_all) at h))
        | inr (p, e) ↦
            let (tx, ys, returned, whole, others) =
              after_claim-inv id shards reward
                (λ s''. claim_all claim providers blob_id reward s'' rest)
                (claim s blob_id id shards) s' xs (rw (e, claim_all) at h) in
            (
              tx,
              ys,
              returned,
              whole,
              claim_all-IsClaimed blob_id reward (claim s blob_id id shards).0 rest s' ys others,
            )
      ]

  -- After an upload whose payment can be claimed, if the settlement returns: there is a table from
  -- providers to shards, in which no provider stands twice, such that the entries were claimed one
  -- after another, each by one call of claimProviderSettlement with the blob, this provider and exactly
  -- its shards, in the state that the call before left; every call succeeded, and the settlements are
  -- those of the entries, with the transactions of the calls and the rewards for the shards. In the
  -- table a provider has exactly the shards that are placed with it, in order, and the shards in it are
  -- as many as those that are placed at all, so that none is claimed twice.
  pub settle_provider_claims-IsClaimed :
      (blob_id : Str) (b : BlobView) (s s' : S) (xs : List Settlement)
      → settle_provider_claims claim providers blob_id b s ≡ (s', ok xs)
      → is_claimable b.payment ≡ true
      → (t : Table Str (List ℕ)) × IsClaimed claim blob_id b.payment.provider_reward_per_shard s t
          s' xs
        × IsDistinct t
        × ((p : Str)
            → is_empty p ≡ false
            → shards_of (lookup p t) ≡ keep (is_at b.placement p) (upto b.total_shards))
        × (shards_in t ≡ length (keep (is_placed b.placement) (upto b.total_shards)))
  unfolding settle_provider_claims lookup
  settle_provider_claims-IsClaimed blob_id b s s' xs h claimable =
      let t : Table Str (List ℕ) = shards_by_provider b.placement (upto b.total_shards) [] in
      (
        t,
        claim_all-IsClaimed blob_id b.payment.provider_reward_per_shard s t s' xs
            (rw (claimable, settle_provider_claims) at h),
        shards_by_provider-IsDistinct b.placement (upto b.total_shards) [] tt,
        λ p named. shards_of-shards_by_provider p b.placement (upto b.total_shards) [] named,
        shards_in-shards_by_provider b.placement (upto b.total_shards) [] ∙ omega arith,
      )
