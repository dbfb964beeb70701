-- ===== src/Ack.antt =====
-- rpc/src/ack-context.mjs: the text that a provider signs when it acknowledges a shard.
pub mod Injective
mod Tests
use prime_server.Base.{ℕ, Str, List, [], ◌∷◌, ◌++◌, lit, to_lower, strip_0x, decimal}

-- `parts.join("|")`.
unfoldable pub join_bar : List Str → Str
join_bar [] = []
join_bar (p ∷ []) = p
join_bar (p ∷ q ∷ ps) = p ++ (b'|' ∷ join_bar (q ∷ ps))

pub record AckFields : Type 0 where
  pub chain_id : Str
  pub registry_address : Str
  pub blob_id : Str
  pub owner : Str
  pub name_hash : Str
  pub provider_id : Str
  pub shard_index : ℕ
  pub commitment : Str
  pub size : ℕ

unfoldable pub normalize_hex : Str → Str
normalize_hex s = to_lower (strip_0x s)

abbrev pub context_parts : AckFields → List Str
context_parts a =
    lit "prime-ack-v1"
    ∷ a.chain_id
    ∷ to_lower a.registry_address
    ∷ normalize_hex a.blob_id
    ∷ to_lower a.owner
    ∷ normalize_hex a.name_hash
    ∷ decimal a.shard_index
    ∷ normalize_hex a.commitment
    ∷ decimal a.size
    ∷ a.provider_id
    ∷ []

unfoldable pub acknowledgement_context : AckFields → Str
unfolding join_bar
acknowledgement_context a = join_bar (context_parts a)
