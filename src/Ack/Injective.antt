-- ===== src/Ack/Injective.antt =====
-- The text that a provider signs tells which shard it is for: its fields can be read back.
use prime_server.Base.{
  ℕ, Str, false, List, [], ◌∷◌, ◌++◌, ◌≡◌, refl, sym, ap, ◌∙◌, arith, lit, length, All,
  includes_unit, to_lower, lower_unit, strip_0x, decimal, AllDigits, decimal-AllDigits,
  digits_value, digits_value-decimal,
}
use prime_server.Ack.{join_bar, AckFields, normalize_hex, acknowledgement_context}

-- A text without the separator.
abbrev pub IsBarless : Str → Type 0
IsBarless s = includes_unit s b'|' ≡ false

-- Two texts in which the separator comes first at the same place.
cut :
    (p q s t : Str)
    → IsBarless p
    → IsBarless q
    → p ++ (b'|' ∷ s) ≡ q ++ (b'|' ∷ t)
    → (p ≡ q) × (s ≡ t)
unfolding includes_unit
cut [] [] s t h k e = ground arith
cut [] (d ∷ q) s t h k e = ground arith
cut (c ∷ p) [] s t h k e = ground arith
cut (c ∷ p) (d ∷ q) s t h k e =
    let (same, rest) = cut p q s t (ground arith) (ground arith) (ground arith) in ground arith

join_bar-cons :
    (p : Str) (ps : List Str) (x : Str)
    → join_bar (p ∷ (ps ++ (x ∷ []))) ≡ p ++ (b'|' ∷ join_bar (ps ++ (x ∷ [])))
unfolding join_bar
join_bar-cons p [] x = refl
join_bar-cons p (q ∷ ps) x = refl

-- Parts joined by the separator can be told apart, but for separators in the last one.
pub join_bar-inj :
    (ps qs : List Str) (x y : Str)
    → All IsBarless ps
    → All IsBarless qs
    → length ps ≡ length qs
    → join_bar (ps ++ (x ∷ [])) ≡ join_bar (qs ++ (y ∷ []))
    → (ps ≡ qs) × (x ≡ y)
unfolding join_bar
join_bar-inj [] [] x y h k l e = (refl, e)
join_bar-inj [] (q ∷ qs) x y h k l e = ground arith
join_bar-inj (p ∷ ps) [] x y h k l e = ground arith
join_bar-inj (p ∷ ps) (q ∷ qs) x y (hp, h) (kq, k) l e =
    let (first, others) =
      cut p q (join_bar (ps ++ (x ∷ []))) (join_bar (qs ++ (y ∷ []))) hp kq
        (sym (join_bar-cons p ps x) ∙ e ∙ join_bar-cons q qs y) in
    let (rest, last) = join_bar-inj ps qs x y h k (omega arith) others in (cc (first, rest), last)

to_lower-IsBarless : (s : Str) → IsBarless s → IsBarless (to_lower s)
unfolding to_lower lower_unit includes_unit
to_lower-IsBarless [] h = refl
to_lower-IsBarless (c ∷ s) h = let ih = to_lower-IsBarless s (ground arith) in ground arith

strip_0x-IsBarless : (s : Str) → IsBarless s → IsBarless (strip_0x s)
unfolding strip_0x includes_unit
strip_0x-IsBarless [] h = h
strip_0x-IsBarless (a ∷ []) h = h
strip_0x-IsBarless (a ∷ b ∷ s) h = ground arith

normalize_hex-IsBarless : (s : Str) → IsBarless s → IsBarless (normalize_hex s)
unfolding normalize_hex
normalize_hex-IsBarless s h = to_lower-IsBarless (strip_0x s) (strip_0x-IsBarless s h)

digits-IsBarless : (s : Str) → AllDigits s → IsBarless s
unfolding includes_unit
digits-IsBarless [] h = refl
digits-IsBarless (c ∷ s) (d, h) = let ih = digits-IsBarless s h in ground arith

decimal-IsBarless : (n : ℕ) → IsBarless (decimal n)
decimal-IsBarless n = digits-IsBarless (decimal n) (decimal-AllDigits n)

decimal-inj : (m n : ℕ) → decimal m ≡ decimal n → m ≡ n
decimal-inj m n e = sym (digits_value-decimal m) ∙ ap (digits_value 0) e ∙ digits_value-decimal n

-- Fields none of which, but the provider's id, holds the separator. Identifiers in hexadecimal and
-- decimal chain ids are such texts.
pub record IsPlain (a : AckFields) : Type 0 where
  pub chain_id : IsBarless a.chain_id
  pub registry_address : IsBarless a.registry_address
  pub blob_id : IsBarless a.blob_id
  pub owner : IsBarless a.owner
  pub name_hash : IsBarless a.name_hash
  pub commitment : IsBarless a.commitment

-- Two receipts about the same shard of the same blob.
pub record IsSameReceipt (a b : AckFields) : Type 0 where
  pub chain_id : a.chain_id ≡ b.chain_id
  pub registry_address : to_lower a.registry_address ≡ to_lower b.registry_address
  pub blob_id : normalize_hex a.blob_id ≡ normalize_hex b.blob_id
  pub owner : to_lower a.owner ≡ to_lower b.owner
  pub name_hash : normalize_hex a.name_hash ≡ normalize_hex b.name_hash
  pub shard_index : a.shard_index ≡ b.shard_index
  pub commitment : normalize_hex a.commitment ≡ normalize_hex b.commitment
  pub size : a.size ≡ b.size
  pub provider_id : a.provider_id ≡ b.provider_id

-- The parts before the provider's id.
abbrev leading_parts : AckFields → List Str
leading_parts a =
    lit "prime-ack-v1"
    ∷ a.chain_id
    ∷ to_lower a.registry_address
    ∷ normalize_hex a.blob_id
    ∷ to_lower a.owner
    ∷ normalize_hex a.name_hash
    ∷ decimal a.shard_index
    ∷ normalize_hex a.commitment
    ∷ decimal a.size
    ∷ []

leading_parts-IsBarless : (a : AckFields) → IsPlain a → All IsBarless (leading_parts a)
unfolding lit includes_unit
leading_parts-IsBarless a h = (
  refl,
  (
    h.chain_id,
    (
      to_lower-IsBarless _ h.registry_address,
      (
        normalize_hex-IsBarless _ h.blob_id,
        (
          to_lower-IsBarless _ h.owner,
          (
            normalize_hex-IsBarless _ h.name_hash,
            (
              decimal-IsBarless a.shard_index,
              (normalize_hex-IsBarless _ h.commitment, (decimal-IsBarless a.size, (tt))),
            ),
          ),
        ),
      ),
    ),
  ),
)

-- One signed text acknowledges one shard: if the contexts of two receipts are equal, and no field but
-- the provider's id holds a `|`, then the receipts agree in chain, contract, blob, owner, name hash,
-- shard, commitment, size and provider, up to the case of letters and a leading `0x`.
pub acknowledgement_context-inj :
    (a b : AckFields)
    → IsPlain a
    → IsPlain b
    → acknowledgement_context a ≡ acknowledgement_context b
    → IsSameReceipt a b
unfolding acknowledgement_context
acknowledgement_context-inj a b h k e =
    let (parts, last) =
      join_bar-inj (leading_parts a) (leading_parts b) a.provider_id b.provider_id
        (leading_parts-IsBarless a h) (leading_parts-IsBarless b k) refl e in
    record {
      chain_id = cc parts;
      registry_address = cc parts;
      blob_id = cc parts;
      owner = cc parts;
      name_hash = cc parts;
      shard_index = decimal-inj a.shard_index b.shard_index (cc parts);
      commitment = cc parts;
      size = decimal-inj a.size b.size (cc parts);
      provider_id = last;
    }
