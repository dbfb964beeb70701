-- ===== src/Gateway/Content/Guarded.antt =====
-- Who is served the content of a blob by its id.
use prime_server.Base.{
  ℕ, Str, Bool, true, false, not, ◌||◌, ◌≡◌, ◌≢◌, ◌⊎◌, inl, inr, refl, sym, Option, none, some, [],
  ◌∷◌, lit, drop, lookup, eqb, eqb_iff, is_empty, starts_with, ◌==◌, str_eq, str_beq_iff, not-false,
  same_text_of, if◌then◌else◌, Result, ok, err, ◌>>=◌, ◌>>◌, ◌++◌, throw_if-then, throw_if-ok,
}
use prime_server.Registry.{Policy, BlobView}
use prime_server.Erasure.{Bytes}
use prime_server.Gateway.{text_of}
use prime_server.Gateway.Read.{ReadResult}
use prime_server.Gateway.Paths.{match_ciphertext}
use prime_server.Gateway.Site.{Request, Response, Setup}
use prime_server.Gateway.Http.Shown.{
  IsPart, Shows, Returns, ok-Returns, throw_if-Returns, require-Returns, bind-Returns,
  serve_range-Shows, content-inj,
}
use prime_server.Gateway.Content.{
  is_compute_only, is_confidential, content_headers, read_of, serve_stored, serve_content,
  serve_ciphertext, authorize_fcc, handle_fcc_internal_request,
}

-- The policy of a blob keeps it for computations, by its number and by its name.
pub record IsOpen (p : Policy) : Type 0 where
  pub by_number : p.access_policy ≢ 2
  pub by_name : p.access_policy_name ≢ lit "compute_only"

pub record IsComputeOnly (p : Policy) : Type 0 where
  pub confidential : (p.storage_mode ≡ 2) ⊎ (p.storage_mode_name ≡ lit "confidential")
  pub compute_only : (p.access_policy ≡ 2) ⊎ (p.access_policy_name ≡ lit "compute_only")

same_text : (a b : Str) → (a == b) ≡ true → a ≡ b
same_text a b h = (str_beq_iff a b).0 h

or-neither : (a b : Bool) → (a || b) ≡ false → (a ≡ false) × (b ≡ false)
or-neither true b h = cc
or-neither false b h = (refl, h)

or-either : (a b : Bool) → not (a || b) ≡ false → (a ≡ true) ⊎ (b ≡ true)
or-either true b h = inl refl
or-either false b h = inr (not-false b h)

not_same : (a b : Str) → (a == b) ≡ false → a ≢ b
not_same a b h e = cc ((str_beq_iff a b).1 e, h)

not_eqb : (a b : ℕ) → eqb a b ≡ false → a ≢ b
not_eqb a b h e = cc ((eqb_iff a b).1 e, h)

test-IsOpen : (p : Policy) → is_compute_only p ≡ false → IsOpen p
test-IsOpen p h =
    let (name, number) = or-neither _ _ h in
    record { by_number = not_eqb p.access_policy 2 number; by_name = not_same _ _ name }

either : (n : ℕ) (s t : Str) → not (eqb n 2 || s == t) ≡ false → (n ≡ 2) ⊎ (s ≡ t)
either n s t h = elim (or-either (eqb n 2) (s == t) h) [
  | inl e ↦ inl ((eqb_iff n 2).0 e)
  | inr e ↦ inr (same_text s t e)
]

-- A route that answers has passed its check.
route_taken :
    (t : Bool) (check : Result (Unit {0})) (x : Result Response) (r : Response)
    → (if t then (check >> (x >>= λ a. ok (some a))) else ok none) ≡ ok (some r)
    → (check ≡ ok tt) × (x ≡ ok r)
route_taken true (ok tt) (ok a) r h = (refl, cc)
route_taken true (ok tt) (err e) r h = cc
route_taken true (err e) x r h = cc
route_taken false check x r h = cc

not_empty : (s : Str) → is_empty s ≡ false → s ≢ []
not_empty [] h e = cc
not_empty (c ∷ s) h e = cc

module _ {W : Type 0} (setup : Setup W) where
  -- The bytes are a part of what is read of a stored blob that is open.
  pub record IsPublic (w : W) (blob_id : Str) (bytes : Bytes) : Type 0 where
    pub b : BlobView
    pub stored : setup.services.get_blob w blob_id ≡ some b
    pub policy : IsOpen b.policy
    pub result : ReadResult
    pub read : read_of setup w blob_id ≡ ok result
    pub part : IsPart result.bytes bytes

  serve_stored-Returns :
      (w : W) (blob_id : Str) (request : Request) (found : Option BlobView)
      → setup.services.get_blob w blob_id ≡ found
      → Returns (IsPublic w blob_id) (serve_stored setup w blob_id request found)
  serve_stored-Returns w blob_id request none stored =
      ok-Returns _ (record { shown = λ bytes h. cc })
  serve_stored-Returns w blob_id request (some b) stored =
      throw_if-Returns (is_compute_only b.policy) _ _ λ t.
        bind-Returns (read_of setup w blob_id) _ λ result read. ok-Returns _ (
          serve_range-Shows (lookup (lit "range") request.headers) result.bytes
            (content_headers result)
            λ bytes part. record {
              b = b;
              stored = stored;
              policy = test-IsOpen b.policy t;
              result = result;
              read = read;
              part = part;
            })

  pub serve_content-Returns :
      (w : W) (blob_id : Str) (request : Request)
      → Returns (IsPublic w blob_id) (serve_content setup w blob_id request)
  unfolding serve_content
  serve_content-Returns w blob_id request = serve_stored-Returns w blob_id request _ refl

  -- The bytes are what is read of a blob for computations, for a caller with the configured token.
  pub record IsInternal (w : W) (request : Request) (bytes : Bytes) : Type 0 where
    pub get : request.method ≡ lit "GET"
    pub configured : setup.fcc_internal_token ≢ []
    pub authorized :
        text_of (lookup (lit "x-prime-fcc-token") request.headers) ≡ setup.fcc_internal_token
    pub hex : Str
    pub path : match_ciphertext (drop 20 request.pathname) ≡ some hex
    pub b : BlobView
    pub stored : setup.services.get_blob w (lit "0x" ++ hex) ≡ some b
    pub kept : IsComputeOnly b.policy
    pub result : ReadResult
    pub read : read_of setup w (lit "0x" ++ hex) ≡ ok result
    pub whole : bytes ≡ result.bytes

module _ {W : Type 0} (setup : Setup W) (w : W) (request : Request) where
  serve_ciphertext-Returns :
      request.method ≡ lit "GET"
      → setup.fcc_internal_token ≢ []
      → text_of (lookup (lit "x-prime-fcc-token") request.headers) ≡ setup.fcc_internal_token
      → (path : Option Str) → match_ciphertext (drop 20 request.pathname) ≡ path
      → Returns (IsInternal setup w request) (serve_ciphertext setup w path)
  serve_ciphertext-Returns get configured authorized none path =
      ok-Returns _ (record { shown = λ bytes h. cc })
  serve_ciphertext-Returns get configured authorized (some hex) path =
      require-Returns (setup.services.get_blob w (lit "0x" ++ hex)) _ _ λ b stored.
        throw_if-Returns (not (is_confidential b.policy)) _ _ λ t.
          throw_if-Returns
            (not
              (eqb b.policy.access_policy 2 || b.policy.access_policy_name == lit "compute_only"))
            _ _
            λ u. bind-Returns (read_of setup w (lit "0x" ++ hex)) _ λ result read.
              ok-Returns _ (record {
                shown = λ bytes h. record {
                  get = get;
                  configured = configured;
                  authorized = authorized;
                  hex = hex;
                  path = path;
                  b = b;
                  stored = stored;
                  kept = record {
                    confidential = either b.policy.storage_mode b.policy.storage_mode_name _ t;
                    compute_only = either b.policy.access_policy b.policy.access_policy_name _ u;
                  };
                  result = result;
                  read = read;
                  whole = sym (content-inj h);
                };
              })

  -- A path that is for another route is passed on, and the others are answered.
  pub handle_fcc_internal_request-Shows :
      (r : Response)
      → handle_fcc_internal_request setup w request ≡ ok (some r)
      → Shows (IsInternal setup w request) r
  unfolding handle_fcc_internal_request lit
  handle_fcc_internal_request-Shows r h =
      let (checked, answered) =
        route_taken (starts_with request.pathname (lit "/internal/fcc/blobs/"))
          (authorize_fcc setup request)
          (serve_ciphertext setup w (match_ciphertext (drop 20 request.pathname))) r h in
      throw_if-then (not (request.method == lit "GET")) _ _ checked λ t1 h1.
        throw_if-then (is_empty setup.fcc_internal_token) _ _ h1 λ t2 h2.
          (serve_ciphertext-Returns (same_text_of _ _ t1) (not_empty _ t2)
              (same_text_of _ _ (throw_if-ok _ _ h2)) _ refl).returned
            r answered
