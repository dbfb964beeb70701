-- ===== src/Auth/Tokens.antt =====
-- A token is accepted if the manager signed it and it has not expired.
use prime_server.Base.{
  ℕ, ◌+◌, ◌<◌, Str, true, false, not, ◌||◌, Option, none, some, [], ◌∷◌, ◌++◌, ◌≡◌, refl, sym, ap,
  ◌∙◌, arith, is_empty, is_safe, includes_unit, ◌==◌, str_eq, str_beq_iff, ok, throw_if-then,
  require-then, bind-then, ok-inj, same_text_of,
}
use prime_server.Auth.{
  Manager, Crypto, Session, Claims, Payload, normalize_address, payload_at, token_of, before_dot,
  after_dot, is_live, check_claims, verify_token, create_session,
}
use prime_server.Auth.Sessions.{create_session-IsOpened}

-- A text up to its first dot.
before_dot-append : (s t : Str) → includes_unit s b'.' ≡ false → before_dot (s ++ (b'.' ∷ t)) ≡ s
unfolding includes_unit
before_dot-append [] t h = refl
before_dot-append (c ∷ s) t h = let ih = before_dot-append s t (ground arith) in ground arith

after_dot-append : (s t : Str) → includes_unit s b'.' ≡ false → after_dot (s ++ (b'.' ∷ t)) ≡ t
unfolding includes_unit
after_dot-append [] t h = refl
after_dot-append (c ∷ s) t h = let ih = after_dot-append s t (ground arith) in ground arith

before_dot-whole : (s : Str) → includes_unit s b'.' ≡ false → before_dot s ≡ s
unfolding includes_unit
before_dot-whole [] h = refl
before_dot-whole (c ∷ s) h = let ih = before_dot-whole s (ground arith) in ground arith

present-append : (s t : Str) → is_empty s ≡ false → is_empty (s ++ t) ≡ false
present-append [] t h = cc
present-append (c ∷ s) t h = refl

-- What the calls of the packages guarantee: the base64url forms are not empty and have no dot, what
-- was encoded is decoded again, and a checksummed address is one and is its own checksummed form.
pub record IsReliable (crypto : Crypto) : Type 0 where
  pub payload_dotless : (p : Payload) → includes_unit (crypto.encode p) b'.' ≡ false
  pub payload_present : (p : Payload) → is_empty (crypto.encode p) ≡ false
  pub signature_dotless : (s key : Str) → includes_unit (crypto.sign s key) b'.' ≡ false
  pub signature_present : (s key : Str) → is_empty (crypto.sign s key) ≡ false
  pub decoded :
      (p : Payload)
      → crypto.decode (crypto.encode p)
        ≡ ok (record {
          address = some p.address;
          issued_at = some p.issued_at;
          expires_at = some p.expires_at;
        })
  pub address_present : (a b : Str) → crypto.get_address a ≡ some b → is_empty b ≡ false
  pub address_stable : (a b : Str) → crypto.get_address a ≡ some b → crypto.get_address b ≡ some b

live-time : (o : Option ℕ) (now : ℕ) → is_live o now ≡ true → (t : ℕ) × (o ≡ some t) × (now < t)
live-time none now h = cc
live-time (some t) now h = (t, refl, ground arith)

module _ (crypto : Crypto) where
  -- What an accepted token is.
  pub record IsAccepted (m : Manager) (token : Str) (now : ℕ) (c : Claims) : Type 0 where
    pub signed : crypto.sign (before_dot token) m.secret ≡ before_dot (after_dot token)
    pub stated : Claims
    pub decoded : crypto.decode (before_dot token) ≡ ok stated
    pub expires_at : ℕ
    pub expiry : stated.expires_at ≡ some expires_at
    pub in_time : now < expires_at
    pub stated_address : Str
    pub said : stated.address ≡ some stated_address
    pub address : Str
    pub valid : crypto.get_address stated_address ≡ some address
    pub result : c ≡ record stated { address = some address }

  check_claims-inv :
      (claims c : Claims) (now : ℕ)
      → check_claims crypto claims now ≡ ok c
      → (a b : Str) × (claims.address ≡ some a)
        × (is_live claims.expires_at now ≡ true)
        × (crypto.get_address a ≡ some b)
        × (c ≡ record claims { address = some b })
  unfolding check_claims normalize_address
  check_claims-inv claims c now h = require-then claims.address _ _ h λ a said k.
      throw_if-then (is_empty a || not (is_live claims.expires_at now)) _ _ k λ live k1.
        require-then (crypto.get_address a) _ _ k1
          λ b valid done. (a, b, said, ground arith, valid, sym (ok-inj done))

  -- A token is only accepted if its second part is the manager's signature of its first, which
  -- decodes to claims with a valid address and a time that has not passed; the result has these
  -- claims, with the address in its checksummed form.
  pub verify_token-IsAccepted :
      (m : Manager) (token : Str) (now : ℕ) (c : Claims)
      → verify_token crypto m (some token) now ≡ ok c
      → IsAccepted m token now c
  unfolding verify_token
  verify_token-IsAccepted m token now c h = throw_if-then (is_empty token) _ _ h λ given h1.
      throw_if-then (is_empty (before_dot token) || is_empty (before_dot (after_dot token))) _ _ h1
        λ parts h2.
          throw_if-then
            (not (crypto.sign (before_dot token) m.secret == before_dot (after_dot token))) _ _ h2
            λ signed h3. bind-then (crypto.decode (before_dot token)) _ h3 λ claims decoded h4.
              let (a, b, said, live, valid, result) = check_claims-inv claims c now h4 in
              let (t, expiry, in_time) = live-time claims.expires_at now live in
              record {
                signed = same_text_of _ _ signed;
                stated = claims;
                decoded = decoded;
                expires_at = t;
                expiry = expiry;
                in_time = in_time;
                stated_address = a;
                said = said;
                address = b;
                valid = valid;
                result = result;
              }

  module _ (sure : IsReliable crypto) where
    token-parts :
        (m : Manager) (p : Payload)
        → (is_empty (token_of crypto m p) ≡ false)
          × (before_dot (token_of crypto m p) ≡ crypto.encode p)
          × (before_dot (after_dot (token_of crypto m p)) ≡ crypto.sign (crypto.encode p) m.secret)
    token-parts m p = (
      present-append (crypto.encode p) _ (sure.payload_present p),
      before_dot-append (crypto.encode p) _ (sure.payload_dotless p),
      ap before_dot (after_dot-append (crypto.encode p) _ (sure.payload_dotless p))
          ∙ before_dot-whole _ (sure.signature_dotless (crypto.encode p) m.secret),
    )

    check_claims-own :
        (p : Payload) (later : ℕ)
        → crypto.get_address p.address ≡ some p.address
        → is_empty p.address ≡ false
        → is_live (some p.expires_at) later ≡ true
        → check_claims crypto
            (record {
              address = some p.address;
              issued_at = some p.issued_at;
              expires_at = some p.expires_at;
            })
            later
          ≡ ok (record {
            address = some p.address;
            issued_at = some p.issued_at;
            expires_at = some p.expires_at;
          })
    unfolding check_claims normalize_address
    check_claims-own p later stable present live = rw present (rw live (rw stable refl))

    accepted :
        (m m' : Manager) (p : Payload) (later : ℕ)
        → m'.secret ≡ m.secret
        → crypto.get_address p.address ≡ some p.address
        → is_empty p.address ≡ false
        → is_live (some p.expires_at) later ≡ true
        → verify_token crypto m' (some (token_of crypto m p)) later
          ≡ ok (record {
            address = some p.address;
            issued_at = some p.issued_at;
            expires_at = some p.expires_at;
          })
    unfolding verify_token
    accepted m m' p later secret stable present live =
        let (given, first, second) = token-parts m p in
        let matches : (crypto.sign (crypto.encode p) m'.secret
              == crypto.sign (crypto.encode p) m.secret)
            ≡ true =
          (str_beq_iff _ _).1 (ap (crypto.sign (crypto.encode p)) secret) in
        rw given (
          rw second (
            rw first (
              rw (sure.payload_present p) (
                rw (sure.signature_present (crypto.encode p) m.secret) (
                  rw matches
                    (rw (sure.decoded p) (check_claims-own p later stable present live)))))))

  -- With packages that are reliable, the token of a session that was just created is accepted until the session ends, if the end is a
  -- safe integer; the result is the session's address with the times of its start and end.
  pub create_session-verify_token :
      (m m' : Manager) (address nonce signature : Str) (now : ℕ) (s : Session) (later : ℕ)
      → IsReliable crypto
      → create_session crypto m address nonce signature now ≡ (m', ok s)
      → later < now + m.session_ttl_ms
      → is_safe (now + m.session_ttl_ms) ≡ true
      → verify_token crypto m' (some s.token) later
        ≡ ok (record {
          address = some s.address;
          issued_at = some now;
          expires_at = some (now + m.session_ttl_ms);
        })
  create_session-verify_token m m' address nonce signature now s later sure h in_time safe =
      let done = create_session-IsOpened crypto m m' address nonce signature now s h in
      let p : Payload = payload_at m done.normalized now in
      let secret : m'.secret ≡ m.secret = ap (λ (x : Manager). x.secret) done.used in
      let live : is_live (some (now + m.session_ttl_ms)) later ≡ true = ground arith in
      ap (λ t. verify_token crypto m' (some t) later) done.token
      ∙ (accepted sure m m' p later secret (sure.address_stable address done.normalized done.valid)
            (sure.address_present address done.normalized done.valid) live
          ∙ ap
              (λ a. ok (record {
                address = some a;
                issued_at = some now;
                expires_at = some (now + m.session_ttl_ms);
              }))
              (sym done.address_of))
