-- ===== src/Lib.antt =====
-- Doxa.js: a verification library for the framework's own logic (packages/*/src).
--
-- The compiler (packages/compiler) reads an application and writes a manifest (packages/manifest);
-- the runtime (packages/runtime) boots from it, starts the providers, admits executions and shuts
-- down; queued work comes back to it as deliveries. Values cross process boundaries through the
-- codecs of packages/core; Keryx (packages/keryx) is the realtime server, which takes frames from
-- clients, messages from publishers and tickets from the applications; packages/realtime is its client,
-- and packages/praxis reloads an application while it is developed.
--
-- Which file models what:
--
-- Base: lists, tests and sets of text keys that all modules share.
-- Js: the values of the language as trees, access to values of unknown shape, and what the checks ask
--   of numbers and texts: floats are a type of the caller with its tests, and so are the length of a
--   text in code units and String(value).
-- Compiler/Manifest: the entries of packages/manifest/src/index.ts that the compiler's checks read.
-- Compiler/Unique, Cycles, Scopes, Dispatch: assertUnique, assertAcyclicProviderGraph,
--   assertScopeSafety and assertNoNestedActionBusReachability of
--   packages/compiler/src/manifest-validation.ts. A Map is a list in which the last entry of a key
--   wins, a mutable Set a list that is passed along. The recursive walks take fuel, one more than
--   there are providers: an id is walked below itself never twice, so this is enough, and the
--   theorems hold with no condition on the fuel.
-- Compiler/Advisories: componentAdvisories, nearestRoleFolder and componentEntries of that file.
-- Runtime/Lifecycle, Unwind, Boot: packages/runtime/src/lifecycle.ts, and boot and shutdown of
--   DoxaRuntime in packages/runtime/src/runtime.ts. An awaited method races with its timer; an
--   environment says what wins and after how long, as a function of the calls so far.
-- Runtime/Profile, Settings: providerIdsForProfile, configurationIdsForProviders and
--   materializeConfigurations of runtime.ts. include takes fuel as the compiler's walks do.
-- Runtime/Graph: constructSingletonGraph of runtime.ts. Instances are names, a constructor call is known
--   by its arguments, and resolve takes fuel too: a nested call is below an id that is not on the stack.
-- Queue/Checks, Validation, Seed: assertQueueDelivery and queueSeed of
--   packages/runtime/src/runtime.ts, over an envelope of unknown shape.
-- Codec: packages/core/src/datetime-codec.ts.
-- Cache: MemoryCache of packages/core/src/cache.ts; the clock is read once for each call.
-- Keryx/Json, Protocol: packages/keryx/src/protocol.ts.
-- Keryx/Publish: KeryxPublishAuthenticator of packages/keryx/src/security.ts.
-- Keryx/Tickets: open of KeryxAdmissionTickets, in the same file; every throw ends as its one error.
-- Realtime: packages/realtime/src/index.ts, as a function on the client's fields and an event; the
--   runs are lists of events in any order, so a late answer or a timer of an old socket is among them.
-- Logging: the sanitising of attributes in packages/core/src/logging.ts, over a heap, so that an object
--   may hold itself; the recursion is on 8 less the depth.
-- Passwords: packages/auth-postgres/src/passwords.ts.
-- Reload: HotReloadSupervisor of packages/praxis/src/hot-reload.ts, as a step relation.
--
-- Regular expressions, JSON, base64url, Instant.parse and node:crypto are parameters; a theorem that needs
-- something of them names it among its hypotheses. Every other loop is structural recursion.
--
-- Not modelled: the analysis of TypeScript syntax trees in the compiler, the dispatch and telemetry of
-- the runtime, the sockets and the backplane of Keryx, and the adapters to databases, queues, HTTP and
-- mail services, which mostly call other packages.
pub mod Base
pub mod Cache
pub mod Codec
pub mod Compiler
pub mod Js
pub mod Keryx
pub mod Logging
pub mod Passwords
pub mod Queue
pub mod Realtime
pub mod Reload
pub mod Runtime
