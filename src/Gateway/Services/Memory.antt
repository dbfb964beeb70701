-- ===== src/Gateway/Services/Memory.antt =====
-- The services of a gateway over a `MemoryRegistry` (rpc/src/memory-registry.mjs) and a network of
-- providers whose state is an `N`.
use prime_server.Base.{Str, none, some, Result, ok, err, decimal}
use prime_server.Base.Action.{Action}
use prime_server.Erasure.{Bytes}
use prime_server.Registry.{Registry}
use prime_server.Registry.Calls.{
  Call, apply, settled, create_operator, create_operator_named, assign, acknowledge, finalize,
  start, reassign, record_rebuilt,
}
use prime_server.Registry.Methods.{Verify, get_blob}
use prime_server.Gateway.{Fetch}
use prime_server.Gateway.Services.{Services, PutReply}

pub record World (N : Type 0) : Type 0 where
  pub registry : Registry
  pub network : N

-- The providers, as what a GET and a PUT of a URL do.
pub record Network (N : Type 0) : Type 0 where
  pub fetch : N → Fetch
  pub put : Str → Str → Str → Bytes → Action N PutReply

abbrev pub done : Result Registry → Result (Unit {0})
done (ok _) = ok tt
done (err e) = err e

module _ {N : Type 0} where
  abbrev pub with_network : World N → N × Result PutReply → World N × Result PutReply
  with_network w (n, reply) = (record w { network = n }, reply)

module _ {N : Type 0} (keccak256 : Str → Str) (verify : Verify) (network : Network N) where
  -- A call of the registry, which leaves it as it was if it throws.
  unfoldable pub call : Call → Action (World N) (Unit {0})
  call c w =
      let r = apply keccak256 verify w.registry c in
      (record w { registry = settled w.registry r }, done r)

  abbrev pub memory_services : Services (World N)
  memory_services = record {
    chain_id = λ w. decimal w.registry.chain_id;
    address = λ w. w.registry.address;
    get_blob = λ w blob_id. get_blob w.registry blob_id;
    create_operator_blob = some (λ n. call (create_operator n));
    create_operator_blob_named = some (λ name n. call (create_operator_named name n));
    assign_shard = λ id i p. call (assign id i p);
    acknowledge_shard = λ a. call (acknowledge a);
    finalize_blob = λ id. call (finalize id);
    start_recovery = λ id i. call (start id i);
    reassign_shard = λ id i p. call (reassign id i p);
    record_rebuilt_shard = λ id i p c. call (record_rebuilt id i p c);
    claim_settlement = none;
    fetch = λ w. network.fetch w.network;
    put = λ url commitment context bytes w.
        with_network w (network.put url commitment context bytes w.network);
  }
