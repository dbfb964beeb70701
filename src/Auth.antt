-- ===== src/Auth.antt =====
-- `PrimeAuthManager` (rpc/src/auth.mjs): challenges, sessions and their tokens. Times are
-- milliseconds, and `now` is the clock at the call.
pub mod Sessions
pub mod Once
pub mod Tokens
mod Tests
use prime_server.Base.{
  ℕ, ◌+◌, Str, Bool, true, false, not, ◌&&◌, ◌||◌, Option, none, some, List, [], ◌∷◌, ◌++◌, lit,
  to_lower, is_empty, length, ltb, leb, eqb, is_safe, lookup, insert, remove, Table, ◌==◌, str_eq,
  if◌then◌else◌, Error, plain, Result, ok, err, ◌>>=◌, ◌>>◌, throw_if, require,
}

pub record Challenge : Type 0 where
  pub address : Str
  pub nonce : Str
  pub message : Str
  pub expires_at : ℕ

-- The manager's settings and the challenges that it has given out.
pub record Manager : Type 0 where
  pub secret : Str
  pub domain : Str
  pub session_ttl_ms : ℕ
  pub challenge_ttl_ms : ℕ
  pub challenges : Table Str Challenge

-- What a token states, as `createSession` writes it.
pub record Payload : Type 0 where
  pub address : Str
  pub issued_at : ℕ
  pub expires_at : ℕ

-- What is read from a token: fields that are not there, or are no text or no safe integer that is
-- not negative, are `none`.
pub record Claims : Type 0 where
  pub address : Option Str
  pub issued_at : Option ℕ
  pub expires_at : Option ℕ

-- The calls of viem and node:crypto: the checksummed form of a valid address, the check of a wallet's
-- signature of a message, `toISOString`, the base64url form of a payload's JSON and back, and the
-- HMAC of a text under the secret.
pub record Crypto : Type 0 where
  pub get_address : Str → Option Str
  pub verify_message : Str → Str → Str → Result Bool
  pub to_iso_string : ℕ → Str
  pub encode : Payload → Str
  pub decode : Str → Result Claims
  pub sign : Str → Str → Str

unfoldable pub create : Option Str → Str → ℕ → ℕ → Result Manager
create secret domain session_ttl_ms challenge_ttl_ms = do
  s ← require secret (plain (lit "PRIME_SERVER_AUTH_SECRET must be at least 32 characters"))
  throw_if (ltb (length s) 32)
      (plain (lit "PRIME_SERVER_AUTH_SECRET must be at least 32 characters"))
  ok (record {
    secret = s;
    domain = domain;
    session_ttl_ms = session_ttl_ms;
    challenge_ttl_ms = challenge_ttl_ms;
    challenges = [];
  })

-- `createPrimeAuthMessage`; a line feed is the unit 10.
unfoldable pub create_prime_auth_message : Str → Str → Str → Str → Str → Str
create_prime_auth_message domain address nonce issued_at expiration_time =
    domain
    ++ (lit " wants you to sign in with your Ethereum account:"
        ++ (10 ∷ address
            ++ (10 ∷ 10 ∷ lit "Sign in to Prime Server."
                ++ (10 ∷ 10 ∷ lit "URI: https://"
                    ++ (domain
                        ++ (lit "/prime/v1"
                            ++ (10 ∷ lit "Version: 1"
                                ++ (10 ∷ lit "Chain ID: 114"
                                    ++ (10 ∷ lit "Nonce: "
                                        ++ (nonce
                                            ++ (10 ∷ lit "Issued At: "
                                                ++ (issued_at
                                                    ++ (10 ∷ lit "Expiration Time: "
                                                        ++ expiration_time)))))))))))))

abbrev pub challenge_key : Str → Str → Str
challenge_key address nonce = to_lower address ++ (b':' ∷ nonce)

-- `token.split(".")`, of which the first two parts are read.
abbrev pub before_dot : Str → Str
before_dot [] = []
before_dot (c ∷ s) = let rest = before_dot s in if eqb c b'.' then [] else c ∷ rest

abbrev pub after_dot : Str → Str
after_dot [] = []
after_dot (c ∷ s) = let rest = after_dot s in if eqb c b'.' then s else rest

pub record Session : Type 0 where
  pub token : Str
  pub address : Str
  pub expires_at : Str

abbrev pub payload_at : Manager → Str → ℕ → Payload
payload_at m address now = record {
  address = address;
  issued_at = now;
  expires_at = now + m.session_ttl_ms;
}

abbrev pub forget : Manager → Str → Manager
forget m key = record m { challenges = remove key m.challenges }

abbrev pub expired : Error
expired = plain (lit "authentication challenge expired or not found")

-- The challenge that was found, if it is in time; one that is not is deleted.
abbrev pub in_time : Manager → Str → ℕ → Option Challenge → Manager × Result Challenge
in_time m key now none = (forget m key, err expired)
in_time m key now (some c) = if leb c.expires_at now then (forget m key, err expired) else (m, ok c)

-- `createSession` up to the check of the signature, which it awaits. The manager is changed also
-- where it throws.
unfoldable pub begin_session : Manager → Str → Str → ℕ → Manager × Result Challenge
begin_session m normalized nonce now =
    in_time m (challenge_key normalized nonce) now
      (lookup (challenge_key normalized nonce) m.challenges)

abbrev pub is_live : Option ℕ → ℕ → Bool
is_live none now = false
is_live (some t) now = is_safe t && ltb now t

module _ (crypto : Crypto) where
  unfoldable pub normalize_address : Str → Result Str
  normalize_address address =
      require (crypto.get_address address) (plain (lit "valid EVM address is required"))

  -- The challenge for an address; `nonce` is what `randomBytes` gave.
  unfoldable pub create_challenge : Manager → Str → Str → ℕ → Result (Manager × Challenge)
  create_challenge m address nonce now = do
    normalized ← normalize_address address
    let challenge : Challenge = record {
      address = normalized;
      nonce = nonce;
      message =
          create_prime_auth_message m.domain normalized nonce (crypto.to_iso_string now)
            (crypto.to_iso_string (now + m.challenge_ttl_ms));
      expires_at = now + m.challenge_ttl_ms;
    }
    ok (
      record m { challenges = insert (challenge_key normalized nonce) challenge m.challenges },
      challenge,
    )

  abbrev pub token_of : Manager → Payload → Str
  token_of m p = crypto.encode p ++ (b'.' ∷ crypto.sign (crypto.encode p) m.secret)

  abbrev pub session_of : Manager → Str → ℕ → Session
  session_of m normalized now = record {
    token = token_of m (payload_at m normalized now);
    address = normalized;
    expires_at = crypto.to_iso_string (now + m.session_ttl_ms);
  }

  -- The rest of `createSession`, with the answer of `verifyMessage`.
  unfoldable pub finish_session : Manager → Str → Str → ℕ → Result Bool → Manager × Result Session
  finish_session m normalized nonce now (err e) = (m, err e)
  finish_session m normalized nonce now (ok false) =
      (m, err (plain (lit "invalid wallet signature")))
  finish_session m normalized nonce now (ok true) =
      (forget m (challenge_key normalized nonce), ok (session_of m normalized now))

  abbrev pub verified : Manager × Result Challenge → Str → Str → Str → ℕ → Manager × Result Session
  verified (m, err e) normalized nonce signature now = (m, err e)
  verified (m, ok c) normalized nonce signature now =
      finish_session m normalized nonce now (crypto.verify_message normalized c.message signature)

  abbrev pub session_for : Manager → Option Str → Str → Str → ℕ → Manager × Result Session
  session_for m none nonce signature now = (m, err (plain (lit "valid EVM address is required")))
  session_for m (some normalized) nonce signature now =
      verified (begin_session m normalized nonce now) normalized nonce signature now

  -- `createSession`, when no other call comes while it waits.
  unfoldable pub create_session : Manager → Str → Str → Str → ℕ → Manager × Result Session
  create_session m address nonce signature now =
      session_for m (crypto.get_address address) nonce signature now

  -- From the token's payload on.
  unfoldable pub check_claims : Claims → ℕ → Result Claims
  check_claims claims now = do
    address ← require claims.address (plain (lit "authentication token expired"))
    throw_if (is_empty address || not (is_live claims.expires_at now))
        (plain (lit "authentication token expired"))
    normalized ← normalize_address address
    ok (record claims { address = some normalized })

  unfoldable pub verify_token : Manager → Option Str → ℕ → Result Claims
  verify_token m token now = do
    t ← require token (plain (lit "authentication required"))
    throw_if (is_empty t) (plain (lit "authentication required"))
    throw_if (is_empty (before_dot t) || is_empty (before_dot (after_dot t)))
        (plain (lit "invalid authentication token"))
    throw_if (not (crypto.sign (before_dot t) m.secret == before_dot (after_dot t)))
        (plain (lit "invalid authentication token"))
    claims ← crypto.decode (before_dot t)
    check_claims claims now
