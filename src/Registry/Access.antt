-- ===== src/Registry/Access.antt =====
-- Who may read a confidential blob: `setBlobWalletAccess` and `isConfidentialAccessUsable`.
use prime_server.Base.{
  ℕ, Str, Bool, false, not, ◌&&◌, ◌||◌, some, ◌≡◌, refl, sym, ap, ◌∙◌, lookup, insert,
  lookup-insert_self, ◌==◌, str_eq, to_lower, ltb, leb, eqb, ok, throw_if-then, ok-inj,
}
use prime_server.Registry.{Blob, Registry, AccessRequest}
use prime_server.Registry.Methods.{
  put_blob, set_blob_wallet_access, get_confidential_access_request, is_revoked,
  is_confidential_access_usable,
}

-- The blob after `setBlobWalletAccess`.
abbrev pub with_wallet : Blob → Str → Bool → Blob
with_wallet b wallet allowed = record b {
  selected_wallets = insert (to_lower wallet) allowed b.selected_wallets;
}

set_blob_wallet_access-put :
    (r r' : Registry) (id wallet : Str) (allowed : Bool) (b : Blob)
    → lookup id r.blobs ≡ some b
    → set_blob_wallet_access r id wallet allowed ≡ ok r'
    → put_blob r id (with_wallet b wallet allowed) ≡ r'
unfolding set_blob_wallet_access
set_blob_wallet_access-put r r' id wallet allowed b at h =
    throw_if-then _ _ _ (rw at at h) (λ selective done. ok-inj done)

-- Once a call has allowed or forbidden a wallet, in any case of letters, on a blob that another
-- wallet owns, a request of that wallet for the blob is usable exactly if it was allowed, the request
-- exists and is not consumed, its deadline has not passed, and the blob is neither revoked nor
-- expired. A wallet that is forbidden can use no request.
pub set_blob_wallet_access-usable :
    (r r' : Registry) (id wallet : Str) (allowed : Bool) (b : Blob) (request_id : Str)
    (q : AccessRequest) (now : ℕ)
    → set_blob_wallet_access r id wallet allowed ≡ ok r'
    → lookup id r.blobs ≡ some b
    → get_confidential_access_request r request_id ≡ some q
    → q.blob_id ≡ id
    → to_lower q.requester ≡ to_lower wallet
    → (to_lower b.owner == to_lower wallet) ≡ false
    → is_confidential_access_usable r' now request_id ≡ (
        q.exists
        && not q.consumed
        && leb now q.deadline
        && not (is_revoked b.status)
        && (eqb b.expires_at 0 || ltb now b.expires_at)
        && allowed)
unfolding is_confidential_access_usable get_confidential_access_request
set_blob_wallet_access-usable r r' id wallet allowed b request_id q now done at asked on_it by_it
      foreign =
    ap (λ (x : Registry). is_confidential_access_usable x now request_id)
      (sym (set_blob_wallet_access-put r r' id wallet allowed b at done))
    ∙ rw (asked, is_confidential_access_usable, get_confidential_access_request)
        (rw on_it (
          rw (lookup-insert_self id (with_wallet b wallet allowed) r.blobs) (
            rw by_it (
              rw foreign
                (rw (lookup-insert_self (to_lower wallet) allowed b.selected_wallets) refl)))))
