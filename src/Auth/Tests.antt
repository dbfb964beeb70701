-- ===== src/Auth/Tests.antt =====
-- A stand-in for the packages' calls: every text is shifted past the dot, and every signature is one
-- slash.
use prime_server.Base.{
  ℕ, ◌+◌, ◌-◌, Str, true, false, Option, none, some, [], ◌∷◌, List, map, ◌≡◌, ◌≢◌, refl, sym, subst,
  arith, is_empty, includes_unit, decimal, lookup, insert, remove, str_beq, str_eq, to_lower,
  lower_unit, Result, ok, err, plain,
}
use mathlib.Core.Option.{some-injective}
use prime_server.Auth.{
  Challenge, challenge_key, Manager, Payload, Claims, Crypto, Session, expired, create_challenge,
  create_session, begin_session, finish_session, verify_token, check_claims, normalize_address,
  session_of,
}
use prime_server.Auth.Sessions.{IsOpened, create_session-IsOpened}
use prime_server.Auth.Once.{Part, asks, begins, ends, after_parts, create_session-once}
use prime_server.Auth.Tokens.{
  IsReliable, IsAccepted, verify_token-IsAccepted, create_session-verify_token,
}

abbrev shift : Str → Str
shift s = map (λ c. c + 47) s

abbrev unshift : Str → Str
unshift s = map (λ c. c - 47) s

abbrev nonempty : Str → Option Str
nonempty [] = none
nonempty (c ∷ s) = some (c ∷ s)

abbrev read_claims : Str → Result Claims
read_claims (i ∷ e ∷ s) =
    ok
      (record { address = some (unshift s); issued_at = some (i - 47); expires_at = some (e - 47) })
read_claims s = err (plain [])

abbrev toy : Crypto
toy = record {
  get_address = nonempty;
  verify_message = λ address message signature. ok true;
  to_iso_string = decimal;
  encode = λ p. (p.issued_at + 47) ∷ (p.expires_at + 47) ∷ shift p.address;
  decode = read_claims;
  sign = λ s key. b'/' ∷ [];
}

shift-dotless : (s : Str) → includes_unit (shift s) b'.' ≡ false
unfolding includes_unit
shift-dotless [] = refl
shift-dotless (c ∷ s) = ground (arith, shift-dotless s)

unshift-shift : (s : Str) → unshift (shift s) ≡ s
unshift-shift [] = refl
unshift-shift (c ∷ s) = let same : c + 47 - 47 ≡ c = omega arith in cc (same, unshift-shift s)

nonempty-present : (a b : Str) → nonempty a ≡ some b → is_empty b ≡ false
nonempty-present [] b h = cc
nonempty-present (c ∷ s) b h = subst (λ x. is_empty x ≡ false) (some-injective (c ∷ s) b h) refl

nonempty-stable : (a b : Str) → nonempty a ≡ some b → nonempty b ≡ some b
nonempty-stable [] b h = cc
nonempty-stable (c ∷ s) b h = subst (λ x. nonempty x ≡ some x) (some-injective (c ∷ s) b h) refl

read_claims-encode :
    (p : Payload)
    → read_claims ((p.issued_at + 47) ∷ (p.expires_at + 47) ∷ shift p.address)
      ≡ ok (record {
        address = some p.address;
        issued_at = some p.issued_at;
        expires_at = some p.expires_at;
      })
read_claims-encode p =
    let i : p.issued_at + 47 - 47 ≡ p.issued_at = omega arith in
    let e : p.expires_at + 47 - 47 ≡ p.expires_at = omega arith in
    rw (unshift-shift p.address) (rw i (rw e refl))

toy-IsReliable : IsReliable toy
unfolding includes_unit
toy-IsReliable = record {
  payload_dotless = λ p. ground (arith, shift-dotless p.address);
  payload_present = λ p. refl;
  signature_dotless = λ s key. refl;
  signature_present = λ s key. refl;
  decoded = read_claims-encode;
  address_present = nonempty-present;
  address_stable = nonempty-stable;
}

abbrev empty_manager : Manager
empty_manager = record {
  secret = b'k' ∷ [];
  domain = b'd' ∷ [];
  session_ttl_ms = 100;
  challenge_ttl_ms = 10;
  challenges = [];
}

abbrev manager_of : Result (Manager × Challenge) → Manager
manager_of (ok (m, _)) = m
manager_of (err _) = empty_manager

abbrev challenged : Manager
challenged = manager_of (create_challenge toy empty_manager (b'A' ∷ []) (b'n' ∷ []) 5)

abbrev opened_at : ℕ → Manager × Result Session
opened_at now = create_session toy challenged (b'A' ∷ []) (b'n' ∷ []) [] now

abbrev session : Session
session = session_of toy challenged (b'A' ∷ []) 7

opens : opened_at 7 ≡ ((opened_at 7).0, ok session)
unfolding create_session create_challenge normalize_address begin_session finish_session lookup
    insert str_beq to_lower lower_unit
opens = refl

too_late : (opened_at 15).1 ≡ err expired
unfolding create_session create_challenge normalize_address begin_session finish_session lookup
    insert str_beq to_lower lower_unit
too_late = refl

create_session-IsOpened_example :
    IsOpened toy challenged (opened_at 7).0 (b'A' ∷ []) (b'n' ∷ []) [] 7 session
create_session-IsOpened_example =
    create_session-IsOpened toy challenged (opened_at 7).0 (b'A' ∷ []) (b'n' ∷ []) [] 7 session
      opens

ends_opened :
    finish_session toy challenged (b'A' ∷ []) (b'n' ∷ []) 7 (ok true)
    ≡ ((opened_at 7).0, ok session)
unfolding create_session create_challenge normalize_address begin_session finish_session lookup
    insert str_beq to_lower lower_unit
ends_opened = refl

-- A call that had found the challenge before it was deleted opens another session.
overlapping_opens :
    (finish_session toy (opened_at 7).0 (b'A' ∷ []) (b'n' ∷ []) 8 (ok true)).1
    ≡ ok (session_of toy challenged (b'A' ∷ []) 8)
unfolding create_session create_challenge normalize_address begin_session finish_session lookup
    insert str_beq to_lower lower_unit
overlapping_opens = refl

-- Other calls: one that finds no challenge, a new challenge, and the end of a call that had begun.
abbrev others : List Part
others =
    begins (b'A' ∷ []) (b'n' ∷ []) 8
    ∷ asks (b'A' ∷ []) (b'm' ∷ []) 9
    ∷ ends (b'A' ∷ []) (b'n' ∷ []) 8 (ok true)
    ∷ []

other_nonce :
    (n : Str)
    → nonempty (b'A' ∷ []) ≡ some n
    → challenge_key n (b'm' ∷ []) ≢ challenge_key (b'A' ∷ []) (b'n' ∷ [])
unfolding to_lower lower_unit
other_nonce n e same =
    let clash : challenge_key (b'A' ∷ []) (b'm' ∷ []) ≡ challenge_key (b'A' ∷ []) (b'n' ∷ []) =
      subst (λ x. challenge_key x (b'm' ∷ []) ≡ challenge_key (b'A' ∷ []) (b'n' ∷ []))
        (sym (some-injective (b'A' ∷ []) n e)) same in
    ground arith

create_session-once_example :
    (create_session toy
      (after_parts toy (opened_at 7).0 others)
      (b'A' ∷ [])
      (b'n' ∷ [])
      (b's' ∷ [])
      10).1
    ≡ err expired
create_session-once_example =
    create_session-once toy challenged (opened_at 7).0 (b'A' ∷ []) (b'n' ∷ []) 7 (ok true) session
      others (b'A' ∷ []) (b's' ∷ []) 10 ends_opened (tt, (other_nonce, (tt, tt))) refl

abbrev claims : Claims
claims = record { address = some (b'A' ∷ []); issued_at = some 7; expires_at = some 107 }

create_session-verify_token_example :
    verify_token toy (opened_at 7).0 (some session.token) 90 ≡ ok claims
unfolding create_challenge normalize_address
create_session-verify_token_example =
    create_session-verify_token toy challenged (opened_at 7).0 (b'A' ∷ []) (b'n' ∷ []) [] 7 session
      90 toy-IsReliable opens (omega arith) refl

accepts : verify_token toy (opened_at 7).0 (some session.token) 90 ≡ ok claims
unfolding create_session create_challenge normalize_address begin_session finish_session
    verify_token check_claims lookup insert remove str_beq to_lower lower_unit
accepts = refl

verify_token-IsAccepted_example : IsAccepted toy (opened_at 7).0 session.token 90 claims
verify_token-IsAccepted_example =
    verify_token-IsAccepted toy (opened_at 7).0 session.token 90 claims accepts
