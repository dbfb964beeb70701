-- ===== src/Gateway/Registration/Matching.antt =====
-- What an upload that passes `assertRegistrationMatchesRequest` satisfies.
use prime_server.Base.{
  ℕ, ◌<◌, Str, true, false, not, ◌&&◌, Option, some, [], ◌∷◌, ◌≡◌, refl, ◌⊎◌, inl, inr, arith,
  to_lower, ◌==◌, str_eq, ltb, leb, is_empty, Bool-cases, ok, throw_if-then, require-then,
  throw_if-ok, not-false, same_text_of, bind_unit,
}
use prime_server.Registry.{
  Status, pending, active, recovering, rebuilt, revoked, Origin, user, operator, BlobView,
}
use prime_server.Registry.Methods.{is_pending}
use prime_server.Gateway.{Headers, normalize_hex}
use prime_server.Gateway.Registration.{
  is_user, is_paid, check_registered, check_content, assert_registration_matches_request,
}
use prime_server.Gateway.Registration.Claims.{
  IsDescribed, IsPaidFor, check_content-IsDescribed, check_payment-IsPaidFor,
}

-- The registered blob is the caller's, under this name, waits for its upload and is in time.
pub record IsRegistered (keccak256 : Str → Str) (b : BlobView) (blob_id account name : Str)
    (now : ℕ) : Type 0 where
  pub same_blob : to_lower b.blob_id ≡ blob_id
  pub registered_by_user : b.origin ≡ user
  pub owned : to_lower b.owner ≡ to_lower account
  pub named : b.blob_name ≡ name
  pub hashed : (b.name_hash ≡ []) ⊎ (normalize_hex b.name_hash ≡ normalize_hex (keccak256 name))
  pub waiting : b.status ≡ pending
  pub in_time : (b.expires_at ≡ 0) ⊎ (now < b.expires_at)

user-is_user : (o : Origin) → is_user o ≡ true → o ≡ user
user-is_user user h = refl
user-is_user operator h = cc

pending-is_pending : (s : Status) → is_pending s ≡ true → s ≡ pending
pending-is_pending pending h = refl
pending-is_pending active h = cc
pending-is_pending recovering h = cc
pending-is_pending rebuilt h = cc
pending-is_pending revoked h = cc

empty-is_empty : (s : Str) → is_empty s ≡ true → s ≡ []
empty-is_empty [] h = refl
empty-is_empty (c ∷ s) h = cc

hash_checked : (s a b : Str) → (not (is_empty s) && not (a == b)) ≡ false → (s ≡ []) ⊎ (a ≡ b)
hash_checked s a b h = elim (Bool-cases (is_empty s)) [
  | inl e ↦ inl (empty-is_empty s e)
  | inr e ↦ inr (same_text_of a b (rw e at h))
]

module _ (keccak256 : Str → Str) where
  check_registered-IsRegistered :
      (b : BlobView) (blob_id account name : Str) (now : ℕ)
      → check_registered keccak256 b blob_id account name now ≡ ok tt
      → IsRegistered keccak256 b blob_id account name now
  unfolding check_registered
  check_registered-IsRegistered b blob_id account name now h =
      throw_if-then (not (to_lower b.blob_id == blob_id)) _ _ h λ t1 h1.
        throw_if-then (not (is_user b.origin)) _ _ h1 λ t2 h2.
          throw_if-then (not (to_lower b.owner == to_lower account)) _ _ h2 λ t3 h3.
            throw_if-then (not (b.blob_name == name)) _ _ h3 λ t4 h4.
              throw_if-then
                (not (is_empty b.name_hash)
                  && not (normalize_hex b.name_hash == normalize_hex (keccak256 name)))
                _ _ h4
                λ t5 h5. throw_if-then (not (is_pending b.status)) _ _ h5 λ t6 h6.
                  let t7 = throw_if-ok (ltb 0 b.expires_at && leb b.expires_at now) _ h6 in
                  record {
                    same_blob = same_text_of (to_lower b.blob_id) blob_id t1;
                    registered_by_user = user-is_user b.origin (not-false _ t2);
                    owned = same_text_of (to_lower b.owner) (to_lower account) t3;
                    named = same_text_of b.blob_name name t4;
                    hashed = hash_checked b.name_hash _ _ t5;
                    waiting = pending-is_pending b.status (not-false _ t6);
                    in_time = ground arith;
                  }

-- An upload that passes all the checks: the blob is registered, by a user and for this account and
-- name, waits for its upload and has not expired; the `content-length` is its size, each further
-- header about the content either is absent or agrees with the registration, no duration is asked
-- for; and if the registration states a payment, then the payment is escrowed and the headers state
-- the registered policy.
pub assert_registration_matches_request_sound :
    (keccak256 : Str → Str) (number : Str → Option ℕ) (registration : Option BlobView)
    (blob_id account name : Str) (headers : Headers) (now : ℕ)
    → assert_registration_matches_request keccak256 number registration blob_id account name headers
        now
      ≡ ok tt
    → (b : BlobView) × (registration ≡ some b)
      × IsRegistered keccak256 b blob_id account name now
      × IsDescribed number b headers
      × (is_paid b ≡ true → IsPaidFor number b headers)
unfolding assert_registration_matches_request
assert_registration_matches_request_sound keccak256 number registration blob_id account name headers
      now h =
    require-then registration _ _ h λ b given h1.
      bind_unit (check_registered keccak256 b blob_id account name now) _ h1 λ registered h2.
        bind_unit (check_content number b headers) _ h2 λ content h3. (
          b,
          given,
          check_registered-IsRegistered keccak256 b blob_id account name now registered,
          check_content-IsDescribed number headers b content,
          λ paid. check_payment-IsPaidFor number headers b (rw paid at h3),
        )
