-- ===== src/Registry/Sound.antt =====
-- What holds of the blobs of every reachable registry: their keys, names, placements and counts.
use prime_server.Base.{
  ℕ, ◌≤◌, Str, true, false, none, some, List, [], ◌≡◌, ◌≢◌, sym, ap, ◌∙◌, subst, subst₂, inl, inr,
  arith, length, length-insert, lookup, insert, lookup-insert, lookup-insert_self, Table, str_eq,
  nat_eq, str_beq_iff, to_lower,
}
use prime_server.Registry.{Provider, pending, Acknowledgement, Blob, Registry}
use prime_server.Registry.Methods.{
  empty, put_blob, name_key, is_active_provider, ack_key, entry_of, Verify,
}
use prime_server.Registry.Calls.{Call, run}
use prime_server.Registry.Transitions.{
  Change, place, confirm, activate, permit, begin, replace, rebuild, IsFresh, Step, enrol, add,
  add_named, change, note,
}
use prime_server.Registry.Invariant.{lookup-insert_cases, lookup-insert_free, run_induction}

abbrev add_name : Registry → Str → Blob → Str → Registry
add_name r id b key = record r {
  blobs = insert id b r.blobs;
  blob_id_by_owner_name_hash = insert key id r.blob_id_by_owner_name_hash;
}

module _ (keccak256 : Str → Str) where
  -- The blob stored under `id`: it carries that id; a blob that has left `pending` has at least as
  -- many acknowledgements as shards; every placed provider is registered and active; and a name is
  -- reserved for this blob under its owner.
  pub record IsSound (r : Registry) (id : Str) (b : Blob) : Type 0 where
    pub keyed : b.blob_id ≡ id
    pub complete : b.status ≢ pending → b.total_shards ≤ length b.acknowledgements
    pub placed : (i : ℕ) (p : Str) → lookup i b.placement ≡ some p → is_active_provider r p ≡ true
    pub named :
        b.blob_name ≢ []
        → lookup (name_key b.owner (keccak256 b.blob_name)) r.blob_id_by_owner_name_hash ≡ some id

  abbrev pub IsSoundRegistry : Registry → Type 0
  IsSoundRegistry r = (id : Str) (b : Blob) → lookup id r.blobs ≡ some b → IsSound r id b

  length-insert_grows :
      (k : Str) (a : Acknowledgement) (t : Table Str Acknowledgement)
      → length t ≤ length (insert k a t)
  length-insert_grows k a t = ground (arith, length-insert k a t)

  placed_after :
      (r : Registry) (i : ℕ) (p : Str) (t : Table ℕ Str)
      → is_active_provider r p ≡ true
      → ((j : ℕ) (q : Str) → lookup j t ≡ some q → is_active_provider r q ≡ true)
      → (j : ℕ) (q : Str) → lookup j (insert i p t) ≡ some q
      → is_active_provider r q ≡ true
  placed_after r i p t live old j q h = elim (lookup-insert_cases i j p q t h) [
    | inl (_, same) ↦ subst (λ x. is_active_provider r x ≡ true) same live
    | inr before ↦ old j q before
  ]

  module _ (verify : Verify) (r : Registry) where
    Change-IsSound :
        {id : Str} {b b' : Blob}
        → Change keccak256 verify r id b b'
        → IsSound r id b
        → IsSound r id b'
    Change-IsSound (place {b} i p waiting live _) s = record {
      keyed = s.keyed;
      complete = s.complete;
      placed = placed_after r i p b.placement live s.placed;
      named = s.named;
    }
    Change-IsSound (confirm {b} a _ _ _ _ _ _ _) s = record {
      keyed = s.keyed;
      complete = λ left.
          let grows =
            length-insert_grows (ack_key a.provider_id a.shard_index) (entry_of a)
              b.acknowledgements in
          let before = s.complete left in omega arith;
      placed = s.placed;
      named = s.named;
    }
    Change-IsSound (activate full) s = record {
      keyed = s.keyed;
      complete = λ left. omega arith;
      placed = s.placed;
      named = s.named;
    }
    Change-IsSound (permit _ _ _) s = record {
      keyed = s.keyed;
      complete = s.complete;
      placed = s.placed;
      named = s.named;
    }
    Change-IsSound (begin _ live _) s = record {
      keyed = s.keyed;
      complete = λ _. s.complete (λ e. ground arith);
      placed = s.placed;
      named = s.named;
    }
    Change-IsSound (replace {b} i p _ live) s = record {
      keyed = s.keyed;
      complete = s.complete;
      placed = placed_after r i p b.placement live s.placed;
      named = s.named;
    }
    Change-IsSound (rebuild _ _ _ busy _ _) s = record {
      keyed = s.keyed;
      complete = λ _. s.complete (λ e. ground arith);
      placed = s.placed;
      named = s.named;
    }

  -- A registry with one more blob, whose other blobs are sound in it.
  put-IsSound :
      (r r' : Registry) (id : Str) (b : Blob)
      → ((j : Str) (x : Blob) → lookup j r.blobs ≡ some x → IsSound r' j x)
      → IsSound r' id b
      → (j : Str) (x : Blob) → lookup j (insert id b r.blobs) ≡ some x
      → IsSound r' j x
  put-IsSound r r' id b old new j x h = elim (lookup-insert_cases id j b x r.blobs h) [
    | inl (at_j, is_x) ↦ subst₂ (λ i y. IsSound r' i y) at_j is_x new
    | inr before ↦ old j x before
  ]

  -- Soundness looks at the registry for the active providers and the reserved names only.
  unaffected-IsSound :
      (r r' : Registry) (id : Str) (b : Blob)
      → ((p : Str) → is_active_provider r p ≡ true → is_active_provider r' p ≡ true)
      → ((k i : Str)
          → lookup k r.blob_id_by_owner_name_hash ≡ some i
          → lookup k r'.blob_id_by_owner_name_hash ≡ some i)
      → IsSound r id b
      → IsSound r' id b
  unaffected-IsSound r r' id b live reserved s = record {
    keyed = s.keyed;
    complete = s.complete;
    placed = λ i p h. live p (s.placed i p h);
    named = λ h. reserved _ _ (s.named h);
  }

  enrol_active :
      (p : Provider) (ps : Table Str Provider) (q : Str)
      → lookup p.provider_id ps ≡ none
      → (elim (lookup q ps) [ none ↦ false | some x ↦ x.active ]) ≡ true
      → (elim (lookup q (insert p.provider_id p ps)) [ none ↦ false | some x ↦ x.active ]) ≡ true
  enrol_active p ps q free h =
      ground (arith, lookup-insert p.provider_id q p ps, str_beq_iff p.provider_id q)

  fresh-IsSound :
      (verify : Verify) (r r' : Registry) (id : Str) (b : Blob)
      → IsFresh keccak256 verify r id b
      → (b.blob_name ≢ []
          → lookup (name_key b.owner (keccak256 b.blob_name)) r'.blob_id_by_owner_name_hash
            ≡ some id)
      → IsSound r' id b
  unfolding lookup
  fresh-IsSound verify r r' id b f named = record {
    keyed = f.keyed;
    complete = λ left. absurd (left f.waiting);
    placed = λ i p h. cc (ap (λ (t : Table ℕ Str). lookup i t) f.unplaced);
    named = named;
  }

  module _ (verify : Verify) (r : Registry) where
    Step-IsSound :
        {r' : Registry} → Step keccak256 verify r r' → IsSoundRegistry r → IsSoundRegistry r'
    Step-IsSound (enrol p free _) s = λ id b found.
        unaffected-IsSound r _ id b (λ q. enrol_active p r.providers q free) (λ k i h. h)
          (s id b found)
    Step-IsSound (add id b _ fresh unnamed _) s =
        put-IsSound r (put_blob r id b) id b
          (λ j x found.
            unaffected-IsSound r (put_blob r id b) j x (λ q h. h) (λ k i h. h) (s j x found))
          (fresh-IsSound verify r (put_blob r id b) id b fresh (λ h. absurd (h unnamed)))
    Step-IsSound (add_named id name b _ fresh _ is_name _ unused) s =
        let r' = add_name r id b (name_key b.owner (keccak256 name)) in
        put-IsSound r r' id b
          (λ j x found.
            unaffected-IsSound r r' j x (λ q h. h)
              (λ k i. lookup-insert_free _ k id i r.blob_id_by_owner_name_hash unused)
              (s j x found))
          (fresh-IsSound verify r r' id b fresh (λ _.
            subst
              (λ n. lookup (name_key b.owner (keccak256 n)) r'.blob_id_by_owner_name_hash ≡ some id)
              (sym is_name) (lookup-insert_self _ id r.blob_id_by_owner_name_hash)))
    Step-IsSound (change id {b' = b'} found c) s =
        put-IsSound r (put_blob r id b') id b'
          (λ j x at. unaffected-IsSound r (put_blob r id b') j x (λ q h. h) (λ k i h. h) (s j x at))
          (unaffected-IsSound r (put_blob r id b') id b' (λ q h. h) (λ k i h. h)
            (Change-IsSound verify r c (s id _ found)))
    Step-IsSound (note _ _) s =
        λ id b found. unaffected-IsSound r _ id b (λ q h. h) (λ k i h. h) (s id b found)

-- After any calls on a new registry, whether they return or throw, every stored blob carries its own
-- id, has at least as many acknowledgements as shards once it has left the pending status, is placed
-- on registered and active providers only, and, where it has a name, is the blob for which its
-- owner's name is reserved.
pub run-IsSound :
    (keccak256 : Str → Str) (verify : Verify) (coordinator : Str) (chain_id : ℕ) (address : Str)
    (calls : List Call)
    → IsSoundRegistry keccak256 (run keccak256 verify (empty coordinator chain_id address) calls)
unfolding empty lookup
run-IsSound keccak256 verify coordinator chain_id address calls =
    run_induction keccak256 verify (IsSoundRegistry keccak256)
      (λ r r' st s. Step-IsSound keccak256 verify r st s) calls _ (λ id b h. cc)

-- After any calls on a new registry, an owner has at most one blob of a name: two blobs with the
-- same name, not empty, whose owners differ at most in the case of letters, have one id.
pub names_unique :
    (keccak256 : Str → Str) (verify : Verify) (coordinator : Str) (chain_id : ℕ) (address : Str)
    (calls : List Call) (i j : Str) (b c : Blob)
    → lookup i (run keccak256 verify (empty coordinator chain_id address) calls).blobs ≡ some b
    → lookup j (run keccak256 verify (empty coordinator chain_id address) calls).blobs ≡ some c
    → b.blob_name ≢ []
    → b.blob_name ≡ c.blob_name
    → to_lower b.owner ≡ to_lower c.owner
    → i ≡ j
names_unique keccak256 verify coordinator chain_id address calls i j b c at_i at_j named name
      owner =
    let sound = run-IsSound keccak256 verify coordinator chain_id address calls in
    let here = (sound i b at_i).named named in
    let there = (sound j c at_j).named (λ e. named (name ∙ e)) in cc (here, there, name, owner)
