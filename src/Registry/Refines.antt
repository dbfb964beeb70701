-- ===== src/Registry/Refines.antt =====
-- The methods of `MemoryRegistry` make the steps of the transition system.
use prime_server.Base.{
  ℕ, Str, Bool, true, false, not, ◌&&◌, Option, none, some, ◌≡◌, refl, ap, sym, ◌∙◌, subst, Table,
  ◌⊎◌, arith, lit, to_lower, drop, lookup, insert, insert-insert, lookup-insert_self, is_some, eqb,
  eqb_iff, ◌==◌, str_eq, nat_eq, str_beq_iff, ok, throw_if-then, require-then, bind-then, ok-inj,
}
use prime_server.Ack.{acknowledgement_context}
use prime_server.Registry.{
  Provider, Status, pending, active, recovering, rebuilt, Origin, user, operator, Blob, Registry,
}
use prime_server.Registry.Methods.{
  NewBlob, fresh_blob, put_blob, name_key, is_invalid_name, mark_operator, request_key, is_pending,
  is_recovering, is_active_or_rebuilt, is_placed, ShardReceipt, ack_fields, contradicts,
  expected_payload, Verify, register_provider, create_blob, create_blob_named, create_operator_blob,
  create_operator_blob_named, assign_shard, acknowledge_shard, finalize_blob,
  set_blob_wallet_access, seed_confidential_access_request, start_recovery, reassign_shard,
  record_rebuilt_shard,
}
use prime_server.Registry.Calls.{
  Call, register, create, create_named, create_operator, create_operator_named, assign, acknowledge,
  finalize, set_wallet, seed, start, reassign, record_rebuilt, apply,
}
use prime_server.Registry.Transitions.{
  place, confirm, activate, permit, begin, replace, rebuild, Step, enrol, add, add_named, change,
  note,
}

not-true : (b : Bool) → not b ≡ false → b ≡ true
not-true true h = refl
not-true false h = cc

absent : {A : Type 0} (o : Option A) → is_some o ≡ false → o ≡ none
absent none h = refl
absent (some a) h = cc

pending_of : (s : Status) → not (is_pending s) ≡ false → s ≡ pending
pending_of s h = ground arith

recovering_of : (s : Status) → not (is_recovering s) ≡ false → s ≡ recovering
recovering_of s h = ground arith

writable_of :
    (s : Status)
    → (not (is_pending s) && not (is_recovering s)) ≡ false
    → (s ≡ pending) ⊎ (s ≡ recovering)
writable_of s h = ground arith

settled_of : (s : Status) → not (is_active_or_rebuilt s) ≡ false → (s ≡ active) ⊎ (s ≡ rebuilt)
settled_of s h = ground arith

placed_of :
    (b : Blob) (i : ℕ) (p : Str) → not (is_placed b i p) ≡ false → lookup i b.placement ≡ some p
placed_of b i p h = go (lookup i b.placement) h
  where
    go : (o : Option Str) → not (elim o [ none ↦ false | some q ↦ q == p ]) ≡ false → o ≡ some p
    go none h = cc
    go (some q) h = ground (arith, str_beq_iff q p)

selected_of :
    (b : Blob)
    → (not (eqb b.policy.access_policy 1)
        && not (b.policy.access_policy_name == lit "selected_wallets"))
      ≡ false
    → (b.policy.access_policy ≡ 1) ⊎ (b.policy.access_policy_name ≡ lit "selected_wallets")
selected_of b h = ground (arith, str_beq_iff b.policy.access_policy_name (lit "selected_wallets"))

-- What was verified is the context of the acknowledgement.
verified_context :
    (verify : Verify) (r : Registry) (b : Blob) (a : ShardReceipt) (p : Provider) {valid : Bool}
    → verify p.public_key a.signed_payload a.signature ≡ ok valid
    → not valid ≡ false
    → not (a.signed_payload == acknowledgement_context (ack_fields r b a)) ≡ false
    → verify p.public_key (acknowledgement_context (ack_fields r b a)) a.signature ≡ ok true
verified_context verify r b a p verified passed same =
    let signed : a.signed_payload ≡ acknowledgement_context (ack_fields r b a) =
      (str_beq_iff _ _).0 (not-true _ same) in
    rw (← signed) (rw verified (ap ok (not-true _ passed)))

-- What `createBlobNamed` stores.
abbrev pub named_blob : (Str → Str) → Str → Str → NewBlob → Origin → Blob
named_blob keccak256 name owner n origin = record (fresh_blob owner n) {
  blob_name = name;
  name_hash = drop 2 (keccak256 name);
  origin = origin;
}

abbrev named_into : (Str → Str) → Registry → Str → Str → NewBlob → Table Str Blob → Registry
named_into keccak256 r name owner n blobs = record r {
  blobs = blobs;
  blob_id_by_owner_name_hash =
      insert (name_key owner (keccak256 name)) n.blob_id r.blob_id_by_owner_name_hash;
}

create_blob_named_lem :
    (keccak256 : Str → Str) (r : Registry) (name owner : Str) (n : NewBlob) {r' : Registry}
    → create_blob_named keccak256 r name owner n ≡ ok r'
    → (is_invalid_name name ≡ false)
      × (lookup (name_key owner (keccak256 name)) r.blob_id_by_owner_name_hash ≡ none)
      × (lookup n.blob_id r.blobs ≡ none)
      × (r'
          ≡ named_into keccak256 r name owner n
              (insert n.blob_id (named_blob keccak256 name owner n user) r.blobs))
unfolding create_blob_named create_blob
create_blob_named_lem keccak256 r name owner n h = ground (
  arith,
  lookup-insert_self n.blob_id (fresh_blob owner n) r.blobs,
  insert-insert n.blob_id (named_blob keccak256 name owner n user) (fresh_blob owner n) r.blobs,
)

mark_operator_lem :
    (r : Registry) (id : Str) (b : Blob) {r' : Registry}
    → lookup id r.blobs ≡ some b
    → mark_operator id r ≡ ok r'
    → r' ≡ put_blob r id (record b { origin = operator })
mark_operator_lem r id b found h = ground arith

module _ (keccak256 : Str → Str) (verify : Verify) (r : Registry) where
  seed-Step :
      (q id w : Str) (purpose deadline : ℕ) (consumed : Bool)
      → Step keccak256 verify r
          (seed_confidential_access_request r q id w purpose deadline consumed)
  unfolding seed_confidential_access_request
  seed-Step q id w purpose deadline consumed = note (request_key q) (record {
    blob_id = id;
    requester = w;
    purpose = purpose;
    deadline = deadline;
    exists = true;
    consumed = consumed;
  })

module _ (keccak256 : Str → Str) (verify : Verify) (r : Registry) {r' : Registry} where
  register_provider-Step :
      (p e k : Str) → register_provider r p e k ≡ ok r' → Step keccak256 verify r r'
  unfolding register_provider
  register_provider-Step p e k h = throw_if-then _ _ _ h λ free done.
      subst (Step keccak256 verify r) (ok-inj done) (
        enrol (record { provider_id = p; endpoint = e; public_key = k; active = true })
          (absent _ free) refl)

  create_blob-Step :
      (owner : Str) (n : NewBlob) → create_blob r owner n ≡ ok r' → Step keccak256 verify r r'
  unfolding create_blob
  create_blob-Step owner n h = throw_if-then _ _ _ h λ free done.
      subst (Step keccak256 verify r) (ok-inj done) (
        add n.blob_id (fresh_blob owner n) (absent _ free)
          (record {
            keyed = refl;
            waiting = refl;
            unplaced = refl;
            unacknowledged = refl;
            closed = refl;
            owned = λ e. cc;
          })
          refl refl)

  assign_shard-Step :
      (id : Str) (i : ℕ) (p : Str) → assign_shard r id i p ≡ ok r' → Step keccak256 verify r r'
  unfolding assign_shard
  assign_shard-Step id i p h = require-then _ _ _ h λ b found h. throw_if-then _ _ _ h λ waiting h.
      throw_if-then _ _ _ h λ live h. throw_if-then _ _ _ h λ free done.
        subst (Step keccak256 verify r) (ok-inj done)
          (change id found (place i p (pending_of _ waiting) (not-true _ live) (absent _ free)))

  acknowledge_shard-Step :
      (a : ShardReceipt) → acknowledge_shard verify r a ≡ ok r' → Step keccak256 verify r r'
  unfolding acknowledge_shard
  acknowledge_shard-Step a h = require-then _ _ _ h λ b found h. throw_if-then _ _ _ h λ writable h.
      throw_if-then _ _ _ h λ placed h. require-then _ _ _ h λ p known h.
        throw_if-then _ _ _ h λ live h. bind-then _ _ h λ valid verified h.
          throw_if-then _ _ _ h λ passed h.
            throw_if-then (contradicts a.ack_context (expected_payload r b a)) _ _ h λ agreed h.
              throw_if-then _ _ _ h λ same done. subst (Step keccak256 verify r) (ok-inj done) (
                change a.blob_id found (
                  confirm a p refl (writable_of _ writable) (placed_of b _ _ placed) known
                    (not-true _ live) (verified_context verify r b a p verified passed same)))

  finalize_blob-Step : (id : Str) → finalize_blob r id ≡ ok r' → Step keccak256 verify r r'
  unfolding finalize_blob
  finalize_blob-Step id h = require-then _ _ _ h λ b found h. throw_if-then _ _ _ h λ full done.
      subst (Step keccak256 verify r) (ok-inj done)
        (change id found (activate ((eqb_iff _ _).0 (not-true _ full))))

  set_blob_wallet_access-Step :
      (id w : Str) (allowed : Bool)
      → set_blob_wallet_access r id w allowed ≡ ok r'
      → Step keccak256 verify r r'
  unfolding set_blob_wallet_access
  set_blob_wallet_access-Step id w allowed h = require-then _ _ _ h λ b found h.
      throw_if-then _ _ _ h λ selected done.
        subst (Step keccak256 verify r) (ok-inj done)
          (change id found (permit (to_lower w) allowed (selected_of b selected)))

  start_recovery-Step :
      (id : Str) (i : ℕ) → start_recovery r id i ≡ ok r' → Step keccak256 verify r r'
  unfolding start_recovery
  start_recovery-Step id i h = require-then _ _ _ h λ b found h. throw_if-then _ _ _ h λ live h.
      throw_if-then _ _ _ h λ placed done.
        subst (Step keccak256 verify r) (ok-inj done)
          (change id found (begin i (settled_of _ live) (not-true _ placed)))

  reassign_shard-Step :
      (id : Str) (i : ℕ) (p : Str) → reassign_shard r id i p ≡ ok r' → Step keccak256 verify r r'
  unfolding reassign_shard
  reassign_shard-Step id i p h = require-then _ _ _ h λ b found h.
      throw_if-then _ _ _ h λ recovering h. throw_if-then _ _ _ h λ live done.
        subst (Step keccak256 verify r) (ok-inj done)
          (change id found (replace i p (recovering_of _ recovering) (not-true _ live)))

  record_rebuilt_shard-Step :
      (id : Str) (i : ℕ) (p c : Str)
      → record_rebuilt_shard r id i p c ≡ ok r'
      → Step keccak256 verify r r'
  unfolding record_rebuilt_shard
  record_rebuilt_shard-Step id i p c h = require-then _ _ _ h λ b found h.
      throw_if-then _ _ _ h λ recovering h. throw_if-then _ _ _ h λ placed h.
        throw_if-then _ _ _ h λ given done. subst (Step keccak256 verify r) (ok-inj done) (
          change id found
            (rebuild i p c (recovering_of _ recovering) (placed_of b _ _ placed) given))

  create_blob_named-Step :
      (name owner : Str) (n : NewBlob)
      → create_blob_named keccak256 r name owner n ≡ ok r'
      → Step keccak256 verify r r'
  create_blob_named-Step name owner n h =
      let (legal, unused, free, done) = create_blob_named_lem keccak256 r name owner n h in
      subst (Step keccak256 verify r) (sym done) (
        add_named n.blob_id name (named_blob keccak256 name owner n user) free
          (record {
            keyed = refl;
            waiting = refl;
            unplaced = refl;
            unacknowledged = refl;
            closed = refl;
            owned = λ e. cc;
          })
          legal refl refl unused)

  create_operator_blob_named-Step :
      (name : Str) (n : NewBlob)
      → create_operator_blob_named keccak256 r name n ≡ ok r'
      → Step keccak256 verify r r'
  unfolding create_operator_blob_named
  create_operator_blob_named-Step name n h = bind-then _ _ h λ r₁ made h.
      let (legal, unused, free, done) =
        create_blob_named_lem keccak256 r name r.coordinator n made in
      let same =
        mark_operator_lem r₁ n.blob_id (named_blob keccak256 name r.coordinator n user)
          (ap (λ (x : Registry). lookup n.blob_id x.blobs) done ∙ lookup-insert_self _ _ r.blobs)
          h in
      let twice =
        insert-insert n.blob_id (named_blob keccak256 name r.coordinator n operator)
          (named_blob keccak256 name r.coordinator n user) r.blobs in
      subst (Step keccak256 verify r)
        (sym (
          same
          ∙ rw done
              (ap (λ (t : Table Str Blob). named_into keccak256 r name r.coordinator n t) twice)))
        (add_named n.blob_id name (named_blob keccak256 name r.coordinator n operator) free
          (record {
            keyed = refl;
            waiting = refl;
            unplaced = refl;
            unacknowledged = refl;
            closed = refl;
            owned = λ e. refl;
          })
          legal refl refl unused)

  create_operator_blob-Step :
      (n : NewBlob) → create_operator_blob r n ≡ ok r' → Step keccak256 verify r r'
  unfolding create_operator_blob create_blob
  create_operator_blob-Step n h = bind-then _ _ h λ r₁ made h. throw_if-then _ _ _ made λ free done.
      let b = record (fresh_blob r.coordinator n) { origin = operator } in
      let same =
        mark_operator_lem r₁ n.blob_id (fresh_blob r.coordinator n)
          (ap (λ (x : Registry). lookup n.blob_id x.blobs) (sym (ok-inj done))
            ∙ lookup-insert_self _ _ r.blobs)
          h in
      let twice = insert-insert n.blob_id b (fresh_blob r.coordinator n) r.blobs in
      subst (Step keccak256 verify r)
        (sym (
          same
          ∙ (ap (λ (x : Registry). put_blob x n.blob_id b) (sym (ok-inj done))
              ∙ ap (λ (t : Table Str Blob). record r { blobs = t }) twice)))
        (add n.blob_id b (absent _ free)
          (record {
            keyed = refl;
            waiting = refl;
            unplaced = refl;
            unacknowledged = refl;
            closed = refl;
            owned = λ e. refl;
          })
          refl refl)

  -- Every call that returns makes a step of the transition system: its guards held, and it changed
  -- nothing else.
  pub apply-Step : (c : Call) → apply keccak256 verify r c ≡ ok r' → Step keccak256 verify r r'
  unfolding apply
  apply-Step (register p e k) h = register_provider-Step p e k h
  apply-Step (create owner n) h = create_blob-Step owner n h
  apply-Step (create_named name owner n) h = create_blob_named-Step name owner n h
  apply-Step (create_operator n) h = create_operator_blob-Step n h
  apply-Step (create_operator_named name n) h = create_operator_blob_named-Step name n h
  apply-Step (assign id i p) h = assign_shard-Step id i p h
  apply-Step (acknowledge a) h = acknowledge_shard-Step a h
  apply-Step (finalize id) h = finalize_blob-Step id h
  apply-Step (set_wallet id w allowed) h = set_blob_wallet_access-Step id w allowed h
  apply-Step (seed q id w purpose deadline consumed) h =
      subst (Step keccak256 verify r) (ok-inj h)
        (seed-Step keccak256 verify r q id w purpose deadline consumed)
  apply-Step (start id i) h = start_recovery-Step id i h
  apply-Step (reassign id i p) h = reassign_shard-Step id i p h
  apply-Step (record_rebuilt id i p c) h = record_rebuilt_shard-Step id i p c h
