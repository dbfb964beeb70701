-- ===== src/Gateway/Paths/Url.antt =====
-- `new URL(req.url, ...).pathname` in the listener of rpc/src/server.mjs, for the path of a URL that
-- starts with a slash and whose other units are slashes, percent signs and those that
-- `encodeURIComponent` leaves as they are: of these, the parser of URLs only removes dot segments.
use prime_server.Base.{
  ℕ, Str, Bool, false, ◌||◌, List, [], ◌∷◌, ◌++◌, ◌≡◌, refl, ap, lit, eqb, includes_unit, ◌==◌,
  str_eq, if◌then◌else◌, Bool-cases, inl, inr,
}

-- A single-dot segment, in which a dot may be escaped.
unfoldable pub is_single_dot : Str → Bool
is_single_dot t = t == lit "." || t == lit "%2e" || t == lit "%2E"

unfoldable pub is_double_dot : Str → Bool
is_double_dot t =
    t == lit ".."
    || (t == lit ".%2e" || t == lit ".%2E" || t == lit "%2e." || t == lit "%2E.")
    || (t == lit "%2e%2e" || t == lit "%2e%2E" || t == lit "%2E%2e" || t == lit "%2E%2E")

abbrev pub onto : ℕ → List Str → List Str
onto c [] = (c ∷ []) ∷ []
onto c (t ∷ ts) = (c ∷ t) ∷ ts

-- The segments between slashes.
unfoldable pub segments : Str → List Str
segments [] = [] ∷ []
segments (c ∷ s) = let rest = segments s in if eqb c b'/' then [] ∷ rest else onto c rest

abbrev pub without_top : List Str → List Str
without_top [] = []
without_top (t ∷ ts) = ts

-- A segment before a slash; the path so far has its last segment at the head.
abbrev pub resolve : List Str → Str → List Str
resolve path t =
    if is_double_dot t then without_top path else if is_single_dot t then path else t ∷ path

-- The last segment: a dot segment leaves an empty one.
abbrev pub resolve_last : List Str → Str → List Str
resolve_last path t =
    if is_double_dot t
    then [] ∷ without_top path
    else if is_single_dot t
    then [] ∷ path
    else t ∷ path

abbrev pub resolve_all : List Str → List Str → List Str
resolve_all path [] = path
resolve_all path (t ∷ []) = resolve_last path t
resolve_all path (t ∷ u ∷ ts) = resolve_all (resolve path t) (u ∷ ts)

abbrev pub joined : List Str → Str
joined [] = []
joined (t ∷ path) = joined path ++ (b'/' ∷ t)

unfoldable pub pathname_of : Str → Str
pathname_of [] = b'/' ∷ []
pathname_of (c ∷ s) = joined (resolve_all [] (segments s))

pub segments-append :
    (a t : Str) → includes_unit a b'/' ≡ false → segments (a ++ (b'/' ∷ t)) ≡ a ∷ segments t
unfolding segments includes_unit
segments-append [] t h = refl
segments-append (c ∷ a) t h = elim (Bool-cases (eqb c b'/')) [
  | inl e ↦ cc (rw e at h)
  | inr e ↦ rw e (ap (onto c) (segments-append a t (rw e at h)))
]

pub segments_slashless : (t : Str) → includes_unit t b'/' ≡ false → segments t ≡ t ∷ []
unfolding segments includes_unit
segments_slashless [] h = refl
segments_slashless (c ∷ t) h = elim (Bool-cases (eqb c b'/')) [
  | inl e ↦ cc (rw e at h)
  | inr e ↦ rw e (ap (onto c) (segments_slashless t (rw e at h)))
]
