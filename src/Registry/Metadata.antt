-- ===== src/Registry/Metadata.antt =====
-- What calls can never change in a stored blob.
use prime_server.Base.{
  Str, some, List, ◌≡◌, refl, sym, ap, ◌∙◌, inl, inr, lookup, lookup-insert, ==-cases, str_eq,
}
use mathlib.Core.Option.{some-injective}
use prime_server.Registry.{Blob, Registry}
use prime_server.Registry.Methods.{Verify}
use prime_server.Registry.Calls.{Call, run}
use prime_server.Registry.Transitions.{
  Change, place, confirm, activate, permit, begin, replace, rebuild, Step, enrol, add, add_named,
  change, note,
}
use prime_server.Registry.Invariant.{run_induction, lookup-insert_free}

-- The blob with the status, placement, acknowledgements and wallets of another.
abbrev pub progressed : Blob → Blob → Blob
progressed b c = record b {
  status = c.status;
  placement = c.placement;
  acknowledgements = c.acknowledgements;
  selected_wallets = c.selected_wallets;
}

-- The blob stored under `id` is `b`, but for its progress.
abbrev pub IsKept : Str → Blob → Registry → Type 0
IsKept id b r = (c : Blob) × (lookup id r.blobs ≡ some c) × (c ≡ progressed b c)

module _ (keccak256 : Str → Str) (verify : Verify) where
  Change-progressed :
      (r : Registry) (id : Str) {c d : Blob} → Change keccak256 verify r id c d → d ≡ progressed c d
  Change-progressed r id (place i p _ _ _) = refl
  Change-progressed r id (confirm a p _ _ _ _ _ _) = refl
  Change-progressed r id (activate _) = refl
  Change-progressed r id (permit _ _ _) = refl
  Change-progressed r id (begin _ _ _) = refl
  Change-progressed r id (replace i p _ _) = refl
  Change-progressed r id (rebuild i p _ _ _ _) = refl

  Step-IsKept :
      (id : Str) (b : Blob) (r : Registry) {r' : Registry}
      → Step keccak256 verify r r'
      → IsKept id b r
      → IsKept id b r'
  Step-IsKept id b r (enrol p _ _) k = k
  Step-IsKept id b r (add j new free _ _ _) (c, at, h) =
      (c, lookup-insert_free j id new c r.blobs free at, h)
  Step-IsKept id b r (add_named j name new free _ _ _ _ _) (c, at, h) =
      (c, lookup-insert_free j id new c r.blobs free at, h)
  Step-IsKept id b r (change j {b = old} {b' = new} found step) (c, at, h) = elim (==-cases j id) [
    | inl (e, same) ↦
        let is_old : c ≡ old =
          some-injective c old (sym at ∙ (ap (λ k. lookup k r.blobs) (sym same) ∙ found)) in
        (
          new,
          rw (lookup-insert j id new r.blobs) (rw e refl),
          Change-progressed r j step ∙ ap (λ x. progressed x new) (sym is_old ∙ h),
        )
    | inr e ↦ (c, rw (lookup-insert j id new r.blobs) (rw e at), h)
  ]
  Step-IsKept id b r (note _ _) k = k

  -- A blob that is stored in any registry is found under its id after any calls, and nothing of it
  -- but its status, placement, acknowledgements and selected wallets has changed.
  pub run-progressed :
      (calls : List Call) (r : Registry) (id : Str) (b : Blob)
      → lookup id r.blobs ≡ some b
      → IsKept id b (run keccak256 verify r calls)
  run-progressed calls r id b at =
      run_induction keccak256 verify (IsKept id b) (λ r r' st k. Step-IsKept id b r st k) calls r
        (b, at, refl)
