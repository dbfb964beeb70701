-- ===== src/Auth/Once.antt =====
-- The calls of `PrimeAuthManager` as the parts that run without a wait, in any order: a call of
-- `createSession` is two parts, before and after `verifyMessage`.
use prime_server.Base.{
  ℕ, Str, Bool, true, false, Option, none, some, List, [], ◌∷◌, ◌≡◌, ◌≢◌, refl, ap, ◌∙◌, inl, inr,
  arith, leb, lookup, lookup-insert_other, lookup-remove, str_eq, Bool-cases, Option-cases, Result,
  ok, err, All,
}
use prime_server.Auth.{
  Challenge, Manager, Crypto, Session, challenge_key, forget, begin_session, normalize_address,
  create_challenge, finish_session, in_time, create_session, expired,
}
use prime_server.Auth.Sessions.{forgotten, finished}

pub data Part : Type 0 where
  -- A call of createChallenge, with the nonce that `randomBytes` gave.
  asks : (address nonce : Str) (now : ℕ) → Part
  begins : (normalized nonce : Str) (now : ℕ) → Part
  ends : (normalized nonce : Str) (now : ℕ) (answer : Result Bool) → Part

abbrev pub challenged : Manager → Result (Manager × Challenge) → Manager
challenged m (ok (m', c)) = m'
challenged m (err e) = m

abbrev IsAbsent : Str → Manager → Type 0
IsAbsent key m = lookup key m.challenges ≡ none

forget-IsAbsent : (key other : Str) (m : Manager) → IsAbsent key m → IsAbsent key (forget m other)
forget-IsAbsent key other m h = ground (arith, lookup-remove other key m.challenges)

in_time-IsAbsent :
    (key other : Str) (m : Manager) (now : ℕ) (o : Option Challenge)
    → IsAbsent key m
    → IsAbsent key (in_time m other now o).0
in_time-IsAbsent key other m now none h = forget-IsAbsent key other m h
in_time-IsAbsent key other m now (some c) h = elim (Bool-cases (leb c.expires_at now)) [
  | inl e ↦ rw e (forget-IsAbsent key other m h)
  | inr e ↦ rw e h
]

module _ (crypto : Crypto) where
  -- The manager after a part, also where the part throws.
  abbrev pub after_part : Manager → Part → Manager
  after_part m (asks address nonce now) = challenged m (create_challenge crypto m address nonce now)
  after_part m (begins normalized nonce now) = (begin_session m normalized nonce now).0
  after_part m (ends normalized nonce now answer) =
      (finish_session crypto m normalized nonce now answer).0

  abbrev pub after_parts : Manager → List Part → Manager
  after_parts m [] = m
  after_parts m (p ∷ ps) = after_parts (after_part m p) ps

  -- The part gives out no challenge under this key.
  abbrev pub IsOther : Str → Part → Type 0
  IsOther key (asks address nonce now) =
      (normalized : Str)
      → crypto.get_address address ≡ some normalized
      → challenge_key normalized nonce ≢ key
  IsOther key (begins normalized nonce now) = Unit
  IsOther key (ends normalized nonce now answer) = Unit

  part-IsAbsent :
      (key : Str) (m : Manager) (p : Part)
      → IsOther key p
      → IsAbsent key m
      → IsAbsent key (after_part m p)
  unfolding create_challenge normalize_address begin_session finish_session
  part-IsAbsent key m (asks address nonce now) other h =
      elim (Option-cases (crypto.get_address address)) [
        | inl e ↦ rw e h
        | inr (n, e) ↦
            rw e (lookup-insert_other (challenge_key n nonce) key _ m.challenges (other n e) ∙ h)
      ]
  part-IsAbsent key m (begins normalized nonce now) other h =
      in_time-IsAbsent key (challenge_key normalized nonce) m now
        (lookup (challenge_key normalized nonce) m.challenges) h
  part-IsAbsent key m (ends normalized nonce now (err e)) other h = h
  part-IsAbsent key m (ends normalized nonce now (ok false)) other h = h
  part-IsAbsent key m (ends normalized nonce now (ok true)) other h =
      forget-IsAbsent key (challenge_key normalized nonce) m h

  parts-IsAbsent :
      (key : Str) (m : Manager) (ps : List Part)
      → All (IsOther key) ps
      → IsAbsent key m
      → IsAbsent key (after_parts m ps)
  parts-IsAbsent key m [] others h = h
  parts-IsAbsent key m (p ∷ ps) (other, others) h =
      parts-IsAbsent key (after_part m p) ps others (part-IsAbsent key m p other h)

  refused :
      (m : Manager) (address nonce signature : Str) (now : ℕ) (normalized : Str)
      → crypto.get_address address ≡ some normalized
      → IsAbsent (challenge_key normalized nonce) m
      → (create_session crypto m address nonce signature now).1 ≡ err expired
  unfolding create_session begin_session
  refused m address nonce signature now normalized valid gone =
      rw (valid, create_session) (rw (gone, begin_session) refl)

  -- Once a call of createSession has ended with a session, its challenge serves for no call that begins
  -- later: whatever parts of other calls run in between, in any order, a call that begins after them is
  -- refused for the same nonce and the same address, in whatever form the address is given, with any
  -- signature and at any clock, unless a new challenge was given out under this nonce and address. A
  -- call that overlaps with the first, which had begun before it ended, is not covered.
  pub create_session-once :
      (m m' : Manager) (normalized nonce : Str) (now : ℕ) (answer : Result Bool) (s : Session)
      (ps : List Part) (address signature : Str) (later : ℕ)
      → finish_session crypto m normalized nonce now answer ≡ (m', ok s)
      → All (IsOther (challenge_key normalized nonce)) ps
      → crypto.get_address address ≡ some normalized
      → (create_session crypto (after_parts m' ps) address nonce signature later).1 ≡ err expired
  create_session-once m m' normalized nonce now answer s ps address signature later h others valid =
      let (signed, used, token, address_of) =
        finished crypto m m' normalized nonce now answer s h in
      let key : Str = challenge_key normalized nonce in
      let gone : IsAbsent key m' =
        ap (λ (x : Manager). lookup key x.challenges) used ∙ forgotten m.challenges key in
      refused (after_parts m' ps) address nonce signature later normalized valid
        (parts-IsAbsent key m' ps others gone)
