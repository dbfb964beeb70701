-- ===== src/Registry/Invariant.antt =====
-- What holds of every registry that calls can reach from an empty one.
use prime_server.Base.{
  Eq, ℕ, Str, true, none, some, List, [], ◌∷◌, ◌≡◌, refl, ap, subst, subst₂, ◌⊎◌, inl, inr, arith,
  lookup, insert, lookup-insert, Table, str_eq, nat_eq, decimal, Result, ok, err,
}
use prime_server.Ack.{acknowledgement_context}
use prime_server.Registry.{Provider, Acknowledgement, Blob, Registry}
use prime_server.Registry.Methods.{empty, ShardReceipt, ack_key, ack_fields, entry_of, Verify}
use prime_server.Registry.Calls.{Call, apply, settled, run}
use prime_server.Registry.Transitions.{
  Change, place, confirm, activate, permit, begin, replace, rebuild, Step, enrol, add, add_named,
  change, note,
}
use prime_server.Registry.Refines.{apply-Step}

-- A lookup after a write finds what was written, or what was there.
pub lookup-insert_cases :
    {K V : Type 0} ⦃e : Eq K⦄ (k j : K) (v w : V) (t : Table K V)
    → lookup j (insert k v t) ≡ some w
    → ((k ≡ j) × (v ≡ w)) ⊎ (lookup j t ≡ some w)
lookup-insert_cases ⦃e⦄ k j v w t h = ground (arith, lookup-insert k j v t, e.same_iff k j)

-- A write to a key that is free keeps every entry.
pub lookup-insert_free :
    {K V : Type 0} ⦃e : Eq K⦄ (k j : K) (v w : V) (t : Table K V)
    → lookup k t ≡ none
    → lookup j t ≡ some w
    → lookup j (insert k v t) ≡ some w
lookup-insert_free ⦃e⦄ k j v w t free h = ground (arith, lookup-insert k j v t, e.same_iff k j)

module _ (verify : Verify) where
  -- An acknowledgement under its own key whose provider signed its context, for the blob `id` with
  -- this owner and name hash, on this chain and contract.
  pub record IsBacked (providers : Table Str Provider) (chain_id : ℕ)
      (address id owner name_hash k : Str) (a : Acknowledgement) : Type 0 where
    pub keyed : k ≡ ack_key a.provider_id a.shard_index
    pub provider : Provider
    pub registered : lookup a.provider_id providers ≡ some provider
    pub signature : Str
    pub signed :
        verify provider.public_key
          (acknowledgement_context (record {
            chain_id = decimal chain_id;
            registry_address = address;
            blob_id = id;
            owner = owner;
            name_hash = name_hash;
            provider_id = a.provider_id;
            shard_index = a.shard_index;
            commitment = a.commitment;
            size = a.size;
          }))
          signature
        ≡ ok true

  abbrev pub IsSignedTable :
      Table Str Provider → ℕ → Str → Str → Str → Str → Table Str Acknowledgement → Type 0
  IsSignedTable providers chain_id address id owner name_hash entries =
      (k : Str) (a : Acknowledgement)
      → lookup k entries ≡ some a
      → IsBacked providers chain_id address id owner name_hash k a

  abbrev pub IsSignedBlob : Registry → Str → Blob → Type 0
  IsSignedBlob r id b =
      IsSignedTable r.providers r.chain_id r.address id b.owner b.name_hash b.acknowledgements

  abbrev pub IsSigned : Registry → Type 0
  IsSigned r = (id : Str) (b : Blob) → lookup id r.blobs ≡ some b → IsSignedBlob r id b

  entry-IsBacked :
      (r : Registry) (b : Blob) (a : ShardReceipt) (p : Provider)
      → lookup a.provider_id r.providers ≡ some p
      → verify p.public_key (acknowledgement_context (ack_fields r b a)) a.signature ≡ ok true
      → IsBacked r.providers r.chain_id r.address a.blob_id b.owner b.name_hash
          (ack_key a.provider_id a.shard_index)
          (entry_of a)
  entry-IsBacked r b a p known signed = record {
    keyed = refl;
    provider = p;
    registered = known;
    signature = a.signature;
    signed = signed;
  }

module _ (keccak256 : Str → Str) (verify : Verify) (r : Registry) where
  Change-IsSignedBlob :
      {id : Str} {b b' : Blob}
      → Change keccak256 verify r id b b'
      → IsSignedBlob verify r id b
      → IsSignedBlob verify r id b'
  Change-IsSignedBlob {id} (confirm {b} a p same _ _ known _ signed) s = λ k x h.
      elim (lookup-insert_cases _ k _ x b.acknowledgements h) [
        | inl (at_k, is_x) ↦
            subst₂
              (λ j y. IsBacked verify r.providers r.chain_id r.address id b.owner b.name_hash j y)
              at_k is_x
              (subst
                (λ i.
                  IsBacked verify r.providers r.chain_id r.address i b.owner b.name_hash
                    (ack_key a.provider_id a.shard_index) (entry_of a))
                same (entry-IsBacked verify r b a p known signed))
        | inr old ↦ s k x old
      ]
  Change-IsSignedBlob (place _ _ _ _ _) s = s
  Change-IsSignedBlob (activate _) s = s
  Change-IsSignedBlob (permit _ _ _) s = s
  Change-IsSignedBlob (begin _ _ _) s = s
  Change-IsSignedBlob (replace _ _ _ _) s = s
  Change-IsSignedBlob (rebuild _ _ _ _ _ _) s = s

  -- A blob with no acknowledgements is signed.
  unacknowledged-IsSignedBlob :
      (id : Str) (b : Blob) → b.acknowledgements ≡ [] → IsSignedBlob verify r id b
  unfolding lookup
  unacknowledged-IsSignedBlob id b e k a h =
      cc (ap (λ (t : Table Str Acknowledgement). lookup k t) e)

  put-IsSigned :
      (id : Str) (b : Blob)
      → IsSigned verify r
      → IsSignedBlob verify r id b
      → (j : Str) (x : Blob) → lookup j (insert id b r.blobs) ≡ some x
      → IsSignedBlob verify r j x
  put-IsSigned id b s new j x h = elim (lookup-insert_cases id j b x r.blobs h) [
    | inl (at_j, is_x) ↦ subst₂ (λ i y. IsSignedBlob verify r i y) at_j is_x new
    | inr old ↦ s j x old
  ]

  Step-IsSigned :
      {r' : Registry} → Step keccak256 verify r r' → IsSigned verify r → IsSigned verify r'
  Step-IsSigned (enrol p free _) s = λ id b found k a h.
      let back = s id b found k a h in
      record {
        keyed = back.keyed;
        provider = back.provider;
        registered = lookup-insert_free p.provider_id _ p _ r.providers free back.registered;
        signature = back.signature;
        signed = back.signed;
      }
  Step-IsSigned (add id b _ fresh _ _) s =
      put-IsSigned id b s (unacknowledged-IsSignedBlob id b fresh.unacknowledged)
  Step-IsSigned (add_named id _ b _ fresh _ _ _ _) s =
      put-IsSigned id b s (unacknowledged-IsSignedBlob id b fresh.unacknowledged)
  Step-IsSigned (change id {b' = b'} found c) s =
      put-IsSigned id b' s (Change-IsSignedBlob c (s id _ found))
  Step-IsSigned (note _ _) s = s

-- What every step keeps, every sequence of calls keeps, whether they return or throw.
module _ (keccak256 : Str → Str) (verify : Verify) (P : Registry → Type 0)
    (keep : (r r' : Registry) → Step keccak256 verify r r' → P r → P r') where
  settled_induction :
      (r : Registry) (c : Call) (x : Result Registry)
      → apply keccak256 verify r c ≡ x
      → P r
      → P (settled r x)
  settled_induction r c (ok r') e p = keep r r' (apply-Step keccak256 verify r c e) p
  settled_induction r c (err _) e p = p

  pub run_induction : (calls : List Call) (r : Registry) → P r → P (run keccak256 verify r calls)
  unfolding run
  run_induction [] r p = p
  run_induction (c ∷ calls) r p = run_induction calls _ (settled_induction r c _ refl p)

empty-IsSigned : (verify : Verify) (c : Str) (n : ℕ) (a : Str) → IsSigned verify (empty c n a)
unfolding empty lookup
empty-IsSigned verify c n a id b h = cc

-- After any calls on a new registry, every stored acknowledgement stands under the key of its
-- provider and shard, its provider is registered, and a signature verifies under that provider's
-- key over the acknowledgement context of exactly this blob, owner, name hash, shard, commitment and
-- size, on this chain and registry.
pub run-IsSigned :
    (keccak256 : Str → Str) (verify : Verify) (coordinator : Str) (chain_id : ℕ) (address : Str)
    (calls : List Call)
    → IsSigned verify (run keccak256 verify (empty coordinator chain_id address) calls)
run-IsSigned keccak256 verify coordinator chain_id address calls =
    run_induction keccak256 verify (IsSigned verify)
      (λ r r' st s. Step-IsSigned keccak256 verify r st s) calls _
      (empty-IsSigned verify coordinator chain_id address)
