-- ===== src/Gateway/Server/Unexpiring.antt =====
-- A blob that was registered without an expiry is refused as expired once it is uploaded.
use prime_server.Base.{
  Str, true, ◌||◌, ◌≡◌, refl, sym, ap, subst, ◌∙◌, Option, some, lit, is_empty, lookup,
  lookup-insert_self, str_eq, gateway, Result, ok, err, require, throw_if-then, ok-inj, arith,
  Table,
}
use prime_server.Base.Action.{lift, ◌>>=◌, bind-then_at, pure_done}
use prime_server.Auth.{Claims}
use prime_server.Objects.{Object, object_key, get_object, put_object}
use prime_server.Gateway.{text_of}
use prime_server.Gateway.Paths.{parse_developer_blob_path}
use prime_server.Gateway.Site.{Request, Details, object, Response, Site, Setup}
use prime_server.Gateway.Requests.{require_session}
use prime_server.Gateway.Serve.{is_expired, serve_object}
use prime_server.Gateway.Developer.{
  after_store, store_object, put_blob, handle_object, handle_blobs,
}

module _ {W : Type 0} (setup : Setup W) where
  abbrev found_in : Site W → Str → Str → Option (Object Details)
  found_in s account name = get_object setup.encode_name setup.before s.objects account name

  stored_at :
      (o : Object Details) (s s' : Site W) (stored : Object Details)
      (x : Result (Table Str (Object Details)))
      → put_object setup.encode_name setup.before s.objects o ≡ x
      → after_store setup s o x ≡ (s', ok stored)
      → (stored ≡ o)
        × (get_object setup.encode_name setup.before s'.objects o.account o.name ≡ some o)
  unfolding put_object get_object
  stored_at o s s' stored (err e) put h = cc
  stored_at o s s' stored (ok objects) put h =
      throw_if-then (is_empty o.account || is_empty o.name || is_empty o.blob_id) _ _ put λ _ made.
        (
          cc,
          ap (λ (x : Site W × Result (Object Details)). found_in x.0 o.account o.name) (sym h)
              ∙ ap (λ t. lookup (object_key setup.encode_name setup.before o.account o.name) t)
                  (sym (ok-inj made))
              ∙ lookup-insert_self (object_key setup.encode_name setup.before o.account o.name) o
                  s.objects,
        )

  put_blob-stored :
      (account name : Str) (request : Request) (s s' : Site W) (r : Response)
      → put_blob setup account name request s ≡ (s', ok r)
      → (o : Object Details) × (url : Str) × (r.body ≡ object o url)
        × (get_object setup.encode_name setup.before s'.objects account name ≡ some o)
  unfolding put_blob store_object
  put_blob-stored account name request s s' r h = bind-then_at _ _ s h λ s1 checked _ h1.
      bind-then_at _ _ s1 h1 λ s2 result _ h2.
        bind-then_at (lift (require result.registry _)) _ s2 h2 λ s3 b _ h3.
          bind-then_at _ _ s3 h3 λ s4 stored put h4.
            let (same, found) = stored_at _ s3 s4 stored _ refl put in
            let (last, shown) = pure_done _ s4 h4 in
            (
              stored,
              _,
              sym (ap (λ (x : Response). x.body) shown),
              subst (λ x. found_in x account name ≡ some stored) last (found ∙ ap some (sym same)),
            )

  expired_refused :
      (w : W) (session_address account : Str) (request : Request) (o : Object Details)
      → o.fields.expires_at ≡ 0
      → serve_object setup w session_address account request o
        ≡ err (gateway 410 (lit "blob has expired"))
  unfolding serve_object
  expired_refused w session_address account request o none_left =
      let late : is_expired request.now o ≡ true = rw none_left (ground arith) in rw late refl

  -- A PUT that returned an object whose expiry is 0, as it is for a blob that was registered without one:
  -- every later request of a session for it, at any time, is refused with the message that it has
  -- expired, and changes nothing.
  pub put_blob-unreadable :
      (account name : Str) (request : Request) (s s' : Site W) (r : Response) (o : Object Details)
      (url : Str)
      → put_blob setup account name request s ≡ (s', ok r)
      → r.body ≡ object o url
      → o.fields.expires_at ≡ 0
      → (later : Request) (claims : Claims)
      → parse_developer_blob_path setup.crypto.get_address later.pathname
        ≡ ok (some (account, some name))
      → require_session setup s'.manager later ≡ ok claims
      → handle_blobs setup later s' ≡ (s', err (gateway 410 (lit "blob has expired")))
  unfolding handle_blobs ◌>>=◌ lift handle_object
  put_blob-unreadable account name request s s' r o url put shown none_left later claims path
        session =
      let (stored, url', answered, found) = put_blob-stored account name request s s' r put in
      let same : stored ≡ o = cc (answered, shown) in
      rw path (
        rw session (
          rw found (
            ap (λ x. (s', x))
              (expired_refused s'.world (text_of claims.address) account later stored
                (ap (λ (x : Object Details). x.fields.expires_at) same ∙ none_left)))))
