-- ===== src/Gateway/Server/Sessions.antt =====
-- The sessions that the server opens for the body of a POST.
use prime_server.Base.{◌≡◌, refl, sym, ap, subst, Result, ok, err, ok-inj}
use prime_server.Base.Action.{lift, bind-then_at, lift-ok, lift-same}
use prime_server.Auth.{Manager, Session, create_session}
use prime_server.Auth.Sessions.{IsOpened, create_session-IsOpened}
use prime_server.Gateway.Site.{Request, SessionRequest, session, Response, Site, Setup}
use prime_server.Gateway.Server.{clock_of, read_json_body, logged_in, log_in, post_session}

-- The body was the JSON of a request for a session, which a challenge backs at the time that the body
-- gives as its `now`, and at the clock of the server only if the body gives none.
pub record IsLoggedIn {W : Type 0} (setup : Setup W) (request : Request) (s s' : Site W)
    (r : Response) : Type 0 where
  pub f : SessionRequest
  pub body : read_json_body setup request ≡ ok f
  pub made : Session
  pub shown : r.body ≡ session made
  pub opened :
      IsOpened setup.crypto s.manager s'.manager f.address f.nonce f.signature
        (clock_of f.now request.now)
        made
  pub same_world : s'.world ≡ s.world
  pub same_objects : s'.objects ≡ s.objects

module _ {W : Type 0} (setup : Setup W) (request : Request) (s s' : Site W) (r : Response) where
  logged :
      (f : SessionRequest)
      → read_json_body setup request ≡ ok f
      → (x : Manager × Result Session)
      → create_session setup.crypto s.manager f.address f.nonce f.signature
          (clock_of f.now request.now)
        ≡ x
      → logged_in setup s x ≡ (s', ok r)
      → IsLoggedIn setup request s s' r
  logged f body (manager, err e) made h = cc
  logged f body (manager, ok c) made h =
      let last : record s { manager = manager } ≡ s' = ap (λ x. x.0) h in
      record {
        f = f;
        body = body;
        made = c;
        shown =
            ap (λ (x : Response). x.body)
              (sym (ok-inj (ap (λ (x : Site W × Result Response). x.1) h)));
        opened =
            create_session-IsOpened setup.crypto s.manager s'.manager f.address f.nonce f.signature
              (clock_of f.now request.now) c
              (subst
                (λ (x : Site W).
                  create_session setup.crypto s.manager f.address f.nonce f.signature
                    (clock_of f.now request.now)
                  ≡ (x.manager, ok c))
                last made);
        same_world = ap (λ (x : Site W). x.world) (sym last);
        same_objects = ap (λ (x : Site W). x.objects) (sym last);
      }

  -- A POST for a session that returns: its body is the JSON of a request that a challenge backs. The
  -- challenge was given out for the wallet's address and is used up by the session, the wallet signed it,
  -- and it is in time at the moment that the body states, and at the clock of the server if the body
  -- states none. Nothing else is changed.
  pub post_session-IsLoggedIn :
      post_session setup request s ≡ (s', ok r) → IsLoggedIn setup request s s' r
  unfolding post_session
  post_session-IsLoggedIn h =
      bind-then_at (lift (read_json_body setup request)) (log_in setup request) s h λ s1 f read h1.
        logged f (lift-ok _ s read) _ refl (
          subst (λ (x : Site W). log_in setup request f x ≡ (s', ok r)) (sym (lift-same _ s read))
            h1)
