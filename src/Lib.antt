-- ===== src/Lib.antt =====
-- Prime Server: erasure-coded blob storage on providers, coordinated by a gateway
-- (rpc/src) against a registry, which is a contract on Flare (rpc/src/flare-registry.mjs) or
-- the in-memory `MemoryRegistry` (rpc/src/memory-registry.mjs).
--
-- Shared: Base holds the Boolean tests and equality instances, lists, texts as UTF-16 code
-- units, numbers and their decimal form, JavaScript maps as association lists in the order of
-- insertion, results of code that may throw, and a stable sort.
--
-- Parts:
-- * Ack (rpc/src/ack-context.mjs): `acknowledgement_context`, the text that a provider signs.
-- * Registry (rpc/src/memory-registry.mjs): the state is the record `Registry`; the methods are
--   functions of Registry/Methods with the names of the source in snake_case, from the state and
--   the arguments to the new state or the error thrown. Calls and `run` are sequences of method
--   calls in which a call that throws changes nothing; Transitions is the step relation that the
--   methods implement, and the invariants are proved on its steps.
-- * Range (rpc/src/server.mjs and provider/src/server.mjs): the `Range` header.
-- * Jobs (rpc/src/operational-store.mjs): the recovery jobs of `JsonOperationalStore`, with the
--   clock as an argument.
-- * Recovery (rpc/src/recovery-coordinator.mjs): the coordinator over Jobs. The rounds of the loop of
--   `recoverBlob` are a list.
-- * Erasure (provider/src/erasure.mjs): `encode` and `decode` around the Clay code.
-- * Gateway (rpc/src/server.mjs): Read is `readProviderShard` and `readBlob`; Access the checks
--   before a ciphertext is served; Registration the checks of an upload against the registry;
--   Settle is `settleProviderClaims`; Services is what uploads and rebuilds call, with `MemoryRegistry`
--   and a network of providers as an instance; Admission and Upload are `uploadRegisteredBlob`,
--   `uploadBlob` and `placeEncodedBlob`; Rebuild is `rebuildBlob`.
-- * The gateway's server (rpc/src/server.mjs), in the folder Gateway: Site is its state (the
--   registry and providers, the objects, the sessions), its requests and responses; Paths and Http
--   read paths and bodies and make responses; Content is the content of a blob by its id and
--   `handleFccInternalRequest`, Requests, Serve and Developer are `handleDeveloperRequest`, Proxy is
--   `handleFccProxyRequest`, and Server the listener with its routes
--   and its catch; Start registers the providers.
-- * Indexer (rpc/src/event-indexer.mjs): `PrimeServerEventIndexer`, with the node as it is at each
--   poll as an argument; an error leaves the state that was reached.
-- * Auth (rpc/src/auth.mjs): `PrimeAuthManager`; `begin_session` and `finish_session` are the parts
--   of `createSession` before and after the check of the signature that it awaits, and Once runs the
--   parts of several calls in any order.
-- * Storage (provider/src/storage.mjs): `ProviderStorage`; a crash inside `putShard` is the
--   operation `interrupted`.
-- * Objects (rpc/src/operational-store.mjs): the cursors and objects of `JsonOperationalStore`, with
--   the locale order of names as a parameter.
-- * Provider (provider/src/server.mjs): the server of a provider, over the disk of Storage and the
--   ranges of Range; signatures are a parameter.
-- * Policy (sdk/src/policy.mjs): `normalizePolicy` and the commitment of a policy, with its canonical
--   JSON text.
-- * Client (sdk/src/client.mjs): the request of `uploadRegisteredBlob` without a policy.
-- * Prepare (sdk/src/prepare.mjs): `prepareBlob`.
--
-- How they interact: the client prepares a blob with the same code as the engine of Erasure and sends
-- the headers that Registration checks; the gateway's paths are read by Paths and those of a provider
-- by Provider/Listener; the gateway's access check takes the registry as the interface
-- `AccessRegistry`, which `memory_registry` fills; a read takes the view of the blob that the
-- registry returned, and decodes with the erasure engine; the registry checks signatures of the
-- acknowledgement context.
--
-- Parameters, since their code is not in the repository: `keccak256` of viem is any function of
-- texts, and the check of a signature by node:crypto any function from key, text and signature
-- to a truth value or an error. SHA-256, the network (`fetch`), the Clay code
-- (@shelby-protocol/clay-codes, the record `Clay` with the laws `IsErasureCode`), the calls of
-- viem and node:crypto in the authentication (the record `Crypto` with the laws `IsReliable`) and
-- the node of the chain are parameters too, and which texts `Number` reads as a natural number.
-- The parsing of URLs and of JSON bodies stands before the model, in the record `Request` and the
-- fields of `Setup`; Gateway/Paths/Url has what the parser of URLs does with the path of a blob, the
-- removal of dot segments.
--
-- Bounds: the printing of a number in decimal takes as many rounds as the number and one more,
-- while each round divides it by ten; the loop of a poll takes as many rounds as the windows
-- that a poll may read, and Indexer/Target shows that they reach the target.
--
-- Not modelled: the front end (ui), the registry contract itself and its client
-- (rpc/src/flare-registry.mjs), the identity of a provider, the rest of the client of the SDK, its
-- encryption, and the confidential compute extension (fcc); network and file system calls, timers,
-- the JSON text of responses, the demonstration scripts and the deployment files.
pub mod Base
pub mod Ack
pub mod Registry
pub mod Range
pub mod Jobs
pub mod Erasure
pub mod Gateway
pub mod Indexer
pub mod Auth
pub mod Storage
pub mod Objects
pub mod Policy
pub mod Provider
pub mod Recovery
pub mod Prepare
pub mod Client
