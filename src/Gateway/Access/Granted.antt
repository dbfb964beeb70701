-- ===== src/Gateway/Access/Granted.antt =====
-- When ciphertext is handed out, with the in-memory registry behind the gateway.
use prime_server.Base.{
  ℕ, ◌≤◌, ◌<◌, Str, Bool, true, false, not, Option, none, some, ◌≡◌, refl, ap, ◌∙◌, subst, ◌⊎◌, inl,
  inr, arith, lit, to_lower, lookup, ◌==◌, ==-cases, str_eq, ok, throw_if-then, require-then,
  throw_if-ok, not-false, same_text_of,
}
use prime_server.Registry.{AccessRequest, Blob, Registry}
use prime_server.Registry.Methods.{
  is_usable, is_authorized, is_revoked, get_confidential_access_request,
  is_confidential_access_usable,
}
use prime_server.Gateway.{Headers, normalize_hex, text_of, is_identifier}
use prime_server.Gateway.Access.{
  PolicyValue, is_selected_wallets, AccessRegistry, is_open, check_access_request,
  require_selected_wallet_ciphertext_access,
}

-- `MemoryRegistry` behind the gateway, at a time in seconds.
abbrev pub memory_registry : Registry → ℕ → AccessRegistry
memory_registry r now = record {
  get_request = some (λ id. ok (get_confidential_access_request r id));
  check_usable = some (λ id. ok (is_confidential_access_usable r now id));
}

-- A request that a wallet may use now to read the ciphertext of a blob.
pub record IsGrant (r : Registry) (now : ℕ) (session_address blob_id request_id : Str)
    : Type 0 where
  pub request : AccessRequest
  pub found : get_confidential_access_request r request_id ≡ some request
  pub made_by : to_lower request.requester ≡ to_lower session_address
  pub about : normalize_hex request.blob_id ≡ normalize_hex blob_id
  pub for_retrieval : request.purpose ≡ 0
  pub unconsumed : request.consumed ≡ false
  pub in_time : now ≤ request.deadline
  pub blob : Blob
  pub stored : lookup request.blob_id r.blobs ≡ some blob
  pub live : is_revoked blob.status ≡ false
  pub unexpired : (blob.expires_at ≡ 0) ⊎ (now < blob.expires_at)
  pub authorized :
      (to_lower blob.owner ≡ to_lower session_address)
      ⊎ (lookup (to_lower session_address) blob.selected_wallets ≡ some true)

usable_entry :
    (now : ℕ) (q : AccessRequest) (o : Option Blob)
    → (elim o [ none ↦ false | some b ↦ is_usable now q b ]) ≡ true
    → (b : Blob) × (o ≡ some b) × (is_usable now q b ≡ true)
usable_entry now q none h = cc
usable_entry now q (some b) h = (b, refl, h)

usable-blob :
    (r : Registry) (now : ℕ) (id : Str) (q : AccessRequest)
    → get_confidential_access_request r id ≡ some q
    → is_confidential_access_usable r now id ≡ true
    → (b : Blob) × (lookup q.blob_id r.blobs ≡ some b) × (is_usable now q b ≡ true)
unfolding is_confidential_access_usable
usable-blob r now id q found h =
    usable_entry now q (lookup q.blob_id r.blobs) (rw (found, is_confidential_access_usable) at h)

entry-true : (o : Option Bool) → (elim o [ none ↦ false | some w ↦ w ]) ≡ true → o ≡ some true
entry-true none h = cc
entry-true (some w) h = ap some h

authorized-cases :
    (b : Blob) (wallet session : Str)
    → to_lower wallet ≡ to_lower session
    → is_authorized b wallet ≡ true
    → (to_lower b.owner ≡ to_lower session)
      ⊎ (lookup (to_lower session) b.selected_wallets ≡ some true)
authorized-cases b wallet session same h = elim (==-cases (to_lower b.owner) (to_lower wallet)) [
  | inl (_, e) ↦ inl (e ∙ same)
  | inr e ↦ inr (
      entry-true _ (
        subst (λ k. (elim (lookup k b.selected_wallets) [ none ↦ false | some w ↦ w ]) ≡ true) same
          (rw e at h)))
]

module _ (r : Registry) (now : ℕ) (session_address blob_id request_id : Str) where
  open_request-IsGrant :
      (q : AccessRequest) (b : Blob)
      → get_confidential_access_request r request_id ≡ some q
      → is_open q ≡ true
      → to_lower q.requester ≡ to_lower session_address
      → normalize_hex q.blob_id ≡ normalize_hex blob_id
      → lookup q.blob_id r.blobs ≡ some b
      → is_usable now q b ≡ true
      → IsGrant r now session_address blob_id request_id
  open_request-IsGrant q b found opened made_by about stored usable = record {
    request = q;
    found = found;
    made_by = made_by;
    about = about;
    for_retrieval = ground arith;
    unconsumed = ground arith;
    in_time = ground arith;
    blob = b;
    stored = stored;
    live = ground arith;
    unexpired = ground arith;
    authorized = authorized-cases b q.requester session_address made_by (ground arith);
  }

  check_access_request-IsGrant :
      (access : Option AccessRequest)
      → get_confidential_access_request r request_id ≡ access
      → check_access_request
          (λ id. ok (is_confidential_access_usable r now id))
          request_id
          session_address
          blob_id
          access
        ≡ ok tt
      → IsGrant r now session_address blob_id request_id
  unfolding check_access_request
  check_access_request-IsGrant access found h = require-then access _ _ h λ q is_q k.
      throw_if-then (not (is_open q)) _ _ k λ opened k1.
        throw_if-then (not (to_lower q.requester == to_lower session_address)) _ _ k1 λ by k2.
          throw_if-then (not (normalize_hex q.blob_id == normalize_hex blob_id)) _ _ k2 λ about k3.
            let usable = throw_if-ok _ _ k3 in
            let (b, stored, fits) =
              usable-blob r now request_id q (found ∙ is_q) (not-false _ usable) in
            open_request-IsGrant q b (found ∙ is_q) (not-false _ opened) (same_text_of _ _ by)
              (same_text_of _ _ about) stored fits

-- The gateway hands ciphertext to a session wallet, with the in-memory registry behind it, only if
-- the wallet is the account's own, or the object's policy is `selected_wallets` and the request that
-- the header names is a grant: it is the wallet's own, for this blob and for retrieval, not consumed
-- and in time, and its blob is stored, not revoked and not expired, and the wallet owns the blob or
-- is one of its selected wallets.
pub require_selected_wallet_ciphertext_access-IsGrant :
    (r : Registry) (now : ℕ) (headers : Headers) (session_address account blob_id : Str)
    (access_policy : PolicyValue)
    → require_selected_wallet_ciphertext_access headers session_address account
        (some (blob_id, access_policy))
        (memory_registry r now)
      ≡ ok tt
    → (to_lower session_address ≡ to_lower account)
      ⊎ ((is_selected_wallets access_policy ≡ true)
          × IsGrant r now session_address blob_id
              (normalize_hex (text_of (lookup (lit "x-prime-access-request-id") headers))))
unfolding require_selected_wallet_ciphertext_access
require_selected_wallet_ciphertext_access-IsGrant r now headers session_address account blob_id
      access_policy h =
    elim (==-cases (to_lower session_address) (to_lower account)) [
      | inl (_, same) ↦ inl same
      | inr foreign ↦
          let request_id : Str =
            normalize_hex (text_of (lookup (lit "x-prime-access-request-id") headers)) in
          inr (
            throw_if-then (not (is_selected_wallets access_policy)) _ _ (rw foreign at h)
              λ selective k. throw_if-then (not (is_identifier request_id)) _ _ k λ named k1. (
                not-false _ selective,
                check_access_request-IsGrant r now session_address blob_id request_id
                    (get_confidential_access_request r request_id) refl k1,
              ))
    ]
