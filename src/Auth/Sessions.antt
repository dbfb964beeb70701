-- ===== src/Auth/Sessions.antt =====
-- A session is created for a live challenge that the wallet signed, and uses the challenge up.
use prime_server.Base.{
  ℕ, ◌<◌, Str, Bool, true, false, Option, none, some, ◌≡◌, refl, sym, ap, ◌∙◌, subst, inl, inr,
  arith, leb, lookup, remove, lookup-remove, str_eq, str_beq_iff, Bool-cases, Result, ok, err,
  ok-inj, Table,
}
use prime_server.Auth.{
  Challenge, Manager, Crypto, Session, challenge_key, token_of, payload_at, forget, begin_session,
  finish_session, verified, session_for, create_session, session_of, in_time,
}

begun_with :
    (m : Manager) (key : Str) (now : ℕ) (o : Option Challenge) (c : Challenge)
    → (in_time m key now o).1 ≡ ok c
    → ((in_time m key now o).0 ≡ m) × (o ≡ some c) × (now < c.expires_at)
begun_with m key now none c h = cc
begun_with m key now (some d) c h = elim (Bool-cases (leb d.expires_at now)) [
  | inl e ↦ cc (rw e at h)
  | inr e ↦
      let same : d ≡ c = ok-inj (rw e at h) in
      (rw e refl, ap some same, subst (λ (x : Challenge). now < x.expires_at) same (ground arith))
]

begun :
    (m : Manager) (normalized nonce : Str) (now : ℕ) (c : Challenge)
    → (begin_session m normalized nonce now).1 ≡ ok c
    → ((begin_session m normalized nonce now).0 ≡ m)
      × (lookup (challenge_key normalized nonce) m.challenges ≡ some c)
      × (now < c.expires_at)
unfolding begin_session
begun m normalized nonce now c h =
    begun_with m (challenge_key normalized nonce) now
      (lookup (challenge_key normalized nonce) m.challenges) c h

pub forgotten : (t : Table Str Challenge) (key : Str) → lookup key (remove key t) ≡ none
forgotten t key = rw (lookup-remove key key t) (ground (arith, str_beq_iff key key))

module _ (crypto : Crypto) where
  -- What a session that was created rests on, and what it is.
  pub record IsOpened (m m' : Manager) (address nonce signature : Str) (now : ℕ) (s : Session)
      : Type 0 where
    pub normalized : Str
    pub valid : crypto.get_address address ≡ some normalized
    pub challenge : Challenge
    pub found : lookup (challenge_key normalized nonce) m.challenges ≡ some challenge
    pub in_time : now < challenge.expires_at
    pub signed : crypto.verify_message normalized challenge.message signature ≡ ok true
    pub used : m' ≡ forget m (challenge_key normalized nonce)
    pub token : s.token ≡ token_of crypto m (payload_at m normalized now)
    pub address_of : s.address ≡ normalized

  pub finished :
      (m m' : Manager) (normalized nonce : Str) (now : ℕ) (r : Result Bool) (s : Session)
      → finish_session crypto m normalized nonce now r ≡ (m', ok s)
      → (r ≡ ok true)
        × (m' ≡ forget m (challenge_key normalized nonce))
        × (s.token ≡ token_of crypto m (payload_at m normalized now))
        × (s.address ≡ normalized)
  unfolding finish_session
  finished m m' normalized nonce now (err e) s h = cc
  finished m m' normalized nonce now (ok false) s h = cc
  finished m m' normalized nonce now (ok true) s h =
      let opened : session_of crypto m normalized now ≡ s =
        ok-inj (ap (λ (x : Manager × Result Session). x.1) h) in
      (
        refl,
        ap (λ (x : Manager × Result Session). x.0) (sym h),
        ap (λ (x : Session). x.token) (sym opened),
        ap (λ (x : Session). x.address) (sym opened),
      )

  verified-inv :
      (x : Manager × Result Challenge) (m' : Manager) (normalized nonce signature : Str) (now : ℕ)
      (s : Session)
      → verified crypto x normalized nonce signature now ≡ (m', ok s)
      → (c : Challenge) × (x.1 ≡ ok c)
        × (finish_session crypto x.0 normalized nonce now
              (crypto.verify_message normalized c.message signature)
            ≡ (m', ok s))
  verified-inv (m, err e) m' normalized nonce signature now s h = cc
  verified-inv (m, ok c) m' normalized nonce signature now s h = (c, refl, h)

  opened :
      (o : Option Str) (m m' : Manager) (address nonce signature : Str) (now : ℕ) (s : Session)
      → crypto.get_address address ≡ o
      → session_for crypto m o nonce signature now ≡ (m', ok s)
      → IsOpened m m' address nonce signature now s
  opened none m m' address nonce signature now s valid h = cc
  opened (some normalized) m m' address nonce signature now s valid h =
      let (c, started, ended) =
        verified-inv (begin_session m normalized nonce now) m' normalized nonce signature now s h in
      let (same, found, live) = begun m normalized nonce now c started in
      let (signed, used, token, address_of) =
        finished (begin_session m normalized nonce now).0 m' normalized nonce now _ s ended in
      record {
        normalized = normalized;
        valid = valid;
        challenge = c;
        found = found;
        in_time = live;
        signed = signed;
        used = used ∙ ap (λ x. forget x (challenge_key normalized nonce)) same;
        token = token ∙ ap (λ x. token_of crypto x (payload_at x normalized now)) same;
        address_of = address_of;
      }

  -- A session is only created for a challenge that was given out for the address and nonce and is in
  -- time, of which the wallet's signature verifies; then the challenge is gone, and the token states
  -- the address and the time until which the session is valid.
  pub create_session-IsOpened :
      (m m' : Manager) (address nonce signature : Str) (now : ℕ) (s : Session)
      → create_session crypto m address nonce signature now ≡ (m', ok s)
      → IsOpened m m' address nonce signature now s
  unfolding create_session
  create_session-IsOpened m m' address nonce signature now s h =
      opened (crypto.get_address address) m m' address nonce signature now s refl h
