-- ===== src/Ack/Tests.antt =====
-- Two receipts that write one identifier in two ways.
use prime_server.Base.{[], ◌∷◌, ◌≡◌, refl, strip_0x, to_lower, lower_unit, includes_unit}
use prime_server.Ack.{AckFields, acknowledgement_context, normalize_hex, join_bar}
use prime_server.Ack.Injective.{IsPlain, IsSameReceipt, acknowledgement_context-inj}

abbrev lower : AckFields
lower = record {
  chain_id = b'7' ∷ [];
  registry_address = b'c' ∷ [];
  blob_id = b'a' ∷ [];
  owner = b'o' ∷ [];
  name_hash = [];
  provider_id = b'p' ∷ b'|' ∷ [];
  shard_index = 3;
  commitment = b'1' ∷ [];
  size = 12;
}

abbrev upper : AckFields
upper = record lower { blob_id = b'0' ∷ b'x' ∷ b'A' ∷ [] }

lower-IsPlain : IsPlain lower
unfolding includes_unit
lower-IsPlain = record {
  chain_id = refl;
  registry_address = refl;
  blob_id = refl;
  owner = refl;
  name_hash = refl;
  commitment = refl;
}

upper-IsPlain : IsPlain upper
unfolding includes_unit
upper-IsPlain = record {
  chain_id = refl;
  registry_address = refl;
  blob_id = refl;
  owner = refl;
  name_hash = refl;
  commitment = refl;
}

same_context : acknowledgement_context lower ≡ acknowledgement_context upper
unfolding acknowledgement_context normalize_hex join_bar strip_0x to_lower lower_unit
same_context = refl

acknowledgement_context-inj_example : IsSameReceipt lower upper
acknowledgement_context-inj_example =
    acknowledgement_context-inj lower upper lower-IsPlain upper-IsPlain same_context
