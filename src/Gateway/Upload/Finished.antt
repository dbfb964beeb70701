-- ===== src/Gateway/Upload/Finished.antt =====
-- What a gateway over a `MemoryRegistry` has done when an upload returns.
use prime_server.Base.{
  ℕ, Str, to_lower, is_empty, leb, ltb, ◌&&◌, ◌==◌, same_text_of, throw_if-ok, Option, none, some,
  List, [], ◌≡◌, refl, ap, sym, subst, ◌∙◌, Result, ok, err, Error, require, length, eqb, eqb_iff,
  not, lookup, lookup-insert_self, str_eq, true, not-false, throw_if-then, require-then, ok-inj,
}
use prime_server.Base.Action.{pure, lift, reads, ◌>>=◌, bind-then_at, and_then, lift-ok}
use prime_server.Erasure.{Bytes, Config, Clay, Encoded, encode}
use prime_server.Registry.{Registry, Blob, BlobView, active}
use prime_server.Registry.Methods.{Verify, empty, finalize_blob, get_blob, put_blob, is_pending}
use prime_server.Registry.Calls.{run, apply, settled}
use prime_server.Registry.Invariant.{IsSigned, run-IsSigned}
use prime_server.Gateway.{Endpoint, normalize_hex}
use prime_server.Gateway.Registration.{is_user}
use prime_server.Gateway.Admission.{check_registration, check_encoding}
use prime_server.Gateway.Services.Memory.{World, Network, call, memory_services, done}
use prime_server.Gateway.Services.Kept.{IsReached, memory-AreKept}
use prime_server.Gateway.Upload.{
  Placed, UploadResult, place_encoded_blob, upload_registered_blob, finish, settle, upload_result,
  status_of,
}
use prime_server.Gateway.Upload.Kept.{upload_registered_blob-Keeps}

-- The blob is active with as many acknowledgements as shards, and is what the result shows.
pub record IsFinished {N : Type 0} (w : World N) (blob_id : Str) (r : UploadResult) : Type 0 where
  pub blob : Blob
  pub found : lookup blob_id w.registry.blobs ≡ some blob
  pub is_active : blob.status ≡ active
  pub complete : length blob.acknowledgements ≡ blob.total_shards
  pub shown : r.registry ≡ get_blob w.registry blob_id
  pub reported : r.status ≡ active

module _ {N : Type 0} where
  abbrev Finished : Str → World N × Result UploadResult → Type 0
  Finished id (w, ok r) = IsFinished w id r
  Finished id (w, err _) = Unit

status_shown :
    (r : Registry) (id : Str) (b : Blob)
    → lookup id r.blobs ≡ some b
    → status_of (get_blob r id) ≡ b.status
unfolding get_blob
status_shown r id b h = rw (h, status_of) refl

finalize_blob_done :
    (r r' : Registry) (id : Str)
    → finalize_blob r id ≡ ok r'
    → (b : Blob) × (length b.acknowledgements ≡ b.total_shards)
      × (r' ≡ put_blob r id (record b { status = active }))
unfolding finalize_blob
finalize_blob_done r r' id h = require-then (lookup id r.blobs) _ _ h (λ b found h1.
    throw_if-then (not (eqb (length b.acknowledgements) b.total_shards)) _ _ h1
      (λ t h2. (b, (eqb_iff _ _).0 (not-false _ t), sym (ok-inj h2))))

-- What the checks before an upload have found.
pub record IsAdmitted (sha256 : Bytes → Str) (clay : Clay) (config : Config) (input : Bytes)
    (id account : Str) (registration : Option BlobView) : Type 0 where
  pub view : BlobView
  pub encoded : Encoded
  pub given : registration ≡ some view
  pub made : encode sha256 clay config input ≡ ok encoded
  pub named : normalize_hex view.blob_id ≡ normalize_hex id
  pub owned : to_lower view.owner ≡ to_lower account
  pub waiting : is_pending view.status ≡ true
  pub sized : view.size ≡ length input
  pub committed : normalize_hex encoded.clay_chunkset_root ≡ normalize_hex view.commitment

admitted :
    (keccak256 : Str → Str) (sha256 : Bytes → Str) (clay : Clay) (config : Config) (input : Bytes)
    (id name account : Str) (registration : Option BlobView) (now : ℕ) (b : BlobView)
    (encoded : Encoded)
    → registration ≡ some b
    → check_registration keccak256 b id name account input now ≡ ok tt
    → encode sha256 clay config input ≡ ok encoded
    → check_encoding config b encoded ≡ ok tt
    → IsAdmitted sha256 clay config input id account registration
unfolding check_registration check_encoding
admitted keccak256 sha256 clay config input id name account registration now b encoded given h made
      k =
    throw_if-then (not (normalize_hex b.blob_id == normalize_hex id)) _ _ h (λ named h1.
      throw_if-then (not (is_user b.origin)) _ _ h1 (λ _ h2.
        throw_if-then (not (to_lower b.owner == to_lower account)) _ _ h2 (λ owned h3.
          throw_if-then (not (b.blob_name == name)) _ _ h3 (λ _ h4.
            throw_if-then
              (not (is_empty b.name_hash)
                && not (normalize_hex b.name_hash == normalize_hex (keccak256 name)))
              _ _ h4
              (λ _ h5. throw_if-then (not (is_pending b.status)) _ _ h5 (λ waiting h6.
                throw_if-then (ltb 0 b.expires_at && leb b.expires_at now) _ _ h6 (λ _ h7.
                  throw_if-then
                    (not (normalize_hex encoded.clay_chunkset_root == normalize_hex b.commitment)) _
                    _ k
                    (λ committed _. record {
                      view = b;
                      encoded = encoded;
                      given = given;
                      made = made;
                      named = same_text_of _ _ named;
                      owned = same_text_of _ _ owned;
                      waiting = not-false _ waiting;
                      sized = (eqb_iff _ _).0 (not-false _ (throw_if-ok _ _ h7));
                      committed = same_text_of _ _ committed;
                    }))))))))

required_is : {A : Type 0} (o : Option A) (e : Error) {a : A} → require o e ≡ ok a → o ≡ some a
required_is none e h = cc
required_is (some b) e h = cc

module _ {N : Type 0} (keccak256 : Str → Str) (verify : Verify) (network : Network N) where
  after_finalize :
      (w w' : World N) (input : Bytes) (encoded : Encoded) (id : Str) (b : BlobView)
      (receipts : List Placed) (r : UploadResult) (x : Result Registry)
      → finalize_blob w.registry id ≡ x
      → and_then
          (record w { registry = settled w.registry x }, done x)
          (λ _ v. (v, ok (upload_result input encoded id b receipts [] (get_blob v.registry id))))
        ≡ (w', ok r)
      → IsFinished w' id r
  unfolding get_blob
  after_finalize w w' input encoded id b receipts r (err e) finalized h = cc
  after_finalize w w' input encoded id b receipts r (ok after) finalized h =
      let (blob, complete, e) = finalize_blob_done w.registry after id finalized in
      let found : lookup id after.blobs ≡ some (record blob { status = active }) =
        ap (λ (g : Registry). lookup id g.blobs) e ∙ lookup-insert_self id _ w.registry.blobs in
      subst (λ (y : World N × Result UploadResult). Finished id y) h
        (record {
          blob = record blob { status = active };
          found = found;
          is_active = refl;
          complete = complete;
          shown = refl;
          reported = status_shown after id (record blob { status = active }) found;
        })

  finish-IsFinished :
      (w w' : World N) (input : Bytes) (encoded : Encoded) (id : Str) (providers : List Endpoint)
      (b : BlobView) (receipts : List Placed) (r : UploadResult)
      → finish (memory_services keccak256 verify network) input encoded id providers b receipts w
        ≡ (w', ok r)
      → IsFinished w' id r
  unfolding finish ◌>>=◌ call apply reads settle pure
  finish-IsFinished w w' input encoded id providers b receipts r h =
      after_finalize w w' input encoded id b receipts r (finalize_blob w.registry id) refl h

  place_encoded_blob-IsFinished :
      (w w' : World N) (input : Bytes) (encoded : Encoded) (id : Str) (providers : List Endpoint)
      (r : UploadResult)
      → place_encoded_blob (memory_services keccak256 verify network) input encoded id providers w
        ≡ (w', ok r)
      → IsFinished w' id r
  unfolding place_encoded_blob reads
  place_encoded_blob-IsFinished w w' input encoded id providers r h =
      bind-then_at _ _ w h (λ w0 _ _ h0. bind-then_at _ _ w0 h0 (λ w1 found _ h1.
        bind-then_at _ _ w1 h1 (λ w2 b _ h2. bind-then_at _ _ w2 h2 (λ w3 receipts _ h3.
          finish-IsFinished w3 w' input encoded id providers b receipts r h3))))

  module _ (sha256 : Bytes → Str) (clay : Clay) (config : Config) (coordinator : Str) (chain_id : ℕ)
      (address : Str) where
    -- An upload to a registry that calls reach, under a registration, that returns: the registration
    -- was pending, belongs to the account and is of this input and of the root of its encoding; the
    -- blob is now active, has as many acknowledgements as shards, and is what the result shows; and
    -- all acknowledgements of the registry are signed.
    pub upload_registered_blob-IsFinished :
        (w w' : World N) (input : Bytes) (id name account : Str) (registration : Option BlobView)
        (providers : List Endpoint) (now : ℕ) (r : UploadResult)
        → IsReached keccak256 verify network (empty coordinator chain_id address) w
        → upload_registered_blob
            (memory_services keccak256 verify network)
            keccak256
            sha256
            clay
            config
            input
            id
            name
            account
            registration
            providers
            now
            w
          ≡ (w', ok r)
        → IsAdmitted sha256 clay config input id account registration
          × IsFinished w' id r
          × IsSigned verify w'.registry
    unfolding upload_registered_blob
    upload_registered_blob-IsFinished w w' input id name account registration providers now r p h =
        let (calls, reached) =
          (upload_registered_blob-Keeps (memory_services keccak256 verify network)
              (memory-AreKept keccak256 verify network (empty coordinator chain_id address))
              keccak256 sha256 clay config input id name account registration providers now).at
            w p in
        let last : w'.registry ≡ run keccak256 verify (empty coordinator chain_id address) calls =
          ap (λ (y : World N × Result UploadResult). y.0.registry) (sym h) ∙ reached in
        bind-then_at (lift (require registration _)) _ w h (λ w0 b given h0.
          bind-then_at (lift (check_registration keccak256 b id name account input now)) _ w0 h0
            (λ w1 _ checked h1.
              bind-then_at (lift (encode sha256 clay config input)) _ w1 h1 (λ w2 encoded made h2.
                bind-then_at (lift (check_encoding config b encoded)) _ w2 h2 (λ w3 _ fits h3. (
                  admitted keccak256 sha256 clay config input id name account registration now b
                      encoded (required_is registration _ (lift-ok _ w given))
                      (lift-ok _ w0 checked) (lift-ok _ w1 made) (lift-ok _ w2 fits),
                  place_encoded_blob-IsFinished w3 w' input encoded id providers r h3,
                  subst (IsSigned verify) (sym last)
                      (run-IsSigned keccak256 verify coordinator chain_id address calls),
                )))))
