-- ===== src/Gateway/Services/Kept.antt =====
-- Properties of the state that no call of the services breaks, and the calls of a `MemoryRegistry`:
-- what they do to the registry is a sequence of its calls.
use prime_server.Base.{ℕ, Str, some, List, [], ◌∷◌, ◌++◌, ◌≡◌, refl, ap, ◌∙◌, sym, subst, Result}
use prime_server.Base.Action.{Action, Keeps}
use prime_server.Erasure.{Bytes}
use prime_server.Registry.{Registry}
use prime_server.Registry.Calls.{
  Call, apply, settled, run, create_operator, create_operator_named, assign, acknowledge, finalize,
  start, reassign, record_rebuilt,
}
use prime_server.Registry.Methods.{NewBlob, ShardReceipt, Verify}
use prime_server.Gateway.Settle.{ClaimSettlement}
use prime_server.Gateway.Services.{Services, PutReply}
use prime_server.Gateway.Services.Memory.{World, Network, call, with_network, memory_services}

pub record AreKept {W : Type 0} (services : Services W) (P : W → Type 0) : Type 0 where
  pub create :
      (f : NewBlob → Action W (Unit {0}))
      → services.create_operator_blob ≡ some f
      → (n : NewBlob) → Keeps P (f n)
  pub create_named :
      (f : Str → NewBlob → Action W (Unit {0}))
      → services.create_operator_blob_named ≡ some f
      → (name : Str) (n : NewBlob) → Keeps P (f name n)
  pub assign : (id : Str) (i : ℕ) (p : Str) → Keeps P (services.assign_shard id i p)
  pub acknowledge : (a : ShardReceipt) → Keeps P (services.acknowledge_shard a)
  pub finalize : (id : Str) → Keeps P (services.finalize_blob id)
  pub start : (id : Str) (i : ℕ) → Keeps P (services.start_recovery id i)
  pub reassign : (id : Str) (i : ℕ) (p : Str) → Keeps P (services.reassign_shard id i p)
  pub record_rebuilt :
      (id : Str) (i : ℕ) (p c : Str) → Keeps P (services.record_rebuilt_shard id i p c)
  pub claim :
      (f : ClaimSettlement W)
      → services.claim_settlement ≡ some f
      → (id p : Str) (is : List ℕ) → Keeps P (λ w. f w id p is)
  pub put :
      (url commitment context : Str) (bytes : Bytes)
      → Keeps P (services.put url commitment context bytes)

some-inj : {A : Type 0} {a b : A} → some a ≡ some b → a ≡ b
some-inj h = cc

module _ (keccak256 : Str → Str) (verify : Verify) where
  run-append :
      (r : Registry) (cs ds : List Call)
      → run keccak256 verify r (cs ++ ds) ≡ run keccak256 verify (run keccak256 verify r cs) ds
  unfolding run
  run-append r [] ds = refl
  run-append r (c ∷ cs) ds = run-append (settled r (apply keccak256 verify r c)) cs ds

  module _ {N : Type 0} (network : Network N) (first : Registry) where
    -- The registry of a world is one that calls reach from `first`.
    abbrev pub IsReached : World N → Type 0
    IsReached w = (calls : List Call) × (w.registry ≡ run keccak256 verify first calls)

    call-Keeps : (c : Call) → Keeps IsReached (call keccak256 verify network c)
    unfolding call run
    call-Keeps c = record {
      at = λ w (calls, e). (
        calls ++ (c ∷ []),
        ap (λ r. settled r (apply keccak256 verify r c)) e ∙ sym (run-append first calls (c ∷ [])),
      );
    }

    with_network-IsReached :
        (w : World N) (x : N × Result PutReply) → IsReached w → IsReached (with_network w x).0
    with_network-IsReached w (n, reply) p = p

    -- Every call of the services leaves a registry that calls reach.
    pub memory-AreKept : AreKept (memory_services keccak256 verify network) IsReached
    memory-AreKept = record {
      create =
          λ f e n. subst (λ g. Keeps IsReached (g n)) (some-inj e) (call-Keeps (create_operator n));
      create_named = λ f e name n.
          subst (λ g. Keeps IsReached (g name n)) (some-inj e)
            (call-Keeps (create_operator_named name n));
      assign = λ id i p. call-Keeps (assign id i p);
      acknowledge = λ a. call-Keeps (acknowledge a);
      finalize = λ id. call-Keeps (finalize id);
      start = λ id i. call-Keeps (start id i);
      reassign = λ id i p. call-Keeps (reassign id i p);
      record_rebuilt = λ id i p c. call-Keeps (record_rebuilt id i p c);
      claim = λ f e id p is. cc;
      put = λ url commitment context bytes. record {
        at = λ w p. with_network-IsReached w (network.put url commitment context bytes w.network) p;
      };
    }
