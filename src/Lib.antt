-- ===== src/Lib.antt =====
-- A model of ts-queue, a queue library for browsers and servers, with the theorems that make its
-- core correct.
--
-- The program keeps jobs in drivers behind one interface, builds every job in one place, and runs
-- workers that pop jobs, race a processor against a timer, and remove, release or fail the job. A
-- manager resolves connections by name and caches queue handles, the module validates the options and
-- registers the connectors, and the loader turns processors into workers and listeners.
--
-- Files and the code they model:
--   Prelude      shared names, Boolean tests, lists over native numbers, maps, numerals
--   Payload      stableStringify of src/utils/compute-unique-id.util.ts
--   UniqueId     computeUniqueId and fnv1a of the same file
--   Backoff      computeBackoff of src/utils/compute-backoff.util.ts
--   Errors       src/errors
--   Job          createQueuedJob of src/utils/create-queued-job.util.ts, and the job's record
--   Jobs         a driver's collection of jobs, and the scans and assignments that drivers share
--   Base         BaseConnection of src/connections/base.connection.ts
--   Memory       MemoryConnection of src/connections/memory.connection.ts
--   LocalStorage LocalStorageConnection of src/connections/local-storage.connection.ts
--   IndexedDb    IndexedDBConnection of src/connections/indexeddb.connection.ts; IndexedDb/Opening
--                has openDb and close
--   QStash       QStashConnection of src/connections/qstash.connection.ts
--   Null         NullConnection of src/connections/null.connection.ts
--   Sync         SyncConnection of src/connections/sync.connection.ts
--   Broadcast    BroadcastChannelConnection of src/connections/broadcast-channel.connection.ts;
--                Broadcast/Tabs the tabs of one database, whose transactions interleave
--   Manager      QueueManager of src/services/queue-manager.service.ts
--   Connectors   src/connectors
--   Tokens       src/utils/get-queue-token.util.ts and get-queue-connection-token.util.ts
--   Module       QueueModule of src/queue.module.ts
--   Hooks        src/react/hooks
--   Handle       QueueHandle of src/services/queue-handle.service.ts
--   Driver       the part of the driver interface that a worker calls, filled by Memory
--   Worker       Worker of src/services/worker.service.ts; Worker/Loop has its timers, Worker/Pool
--                several workers of one connection, Worker/Drain a worker that keeps polling
--   EventBus     QueueEventBus of src/services/event-bus.service.ts
--   Loader       ProcessorSubscribersLoader of src/loaders/processor-subscribers.loader.ts
--   Decorators   src/decorators, src/accessors/processor-metadata.accessor.ts and the keys of
--                src/constants/tokens.constant.ts
--   Ids          generateJobId of src/utils/generate-job-id.util.ts
--   Tests        sample inputs, on which the theorems are applied
-- A method of the code is a function of the same name in snake case; it takes the state first and
-- returns the new state with the result. A driver's history is a list of calls, and a worker's loop
-- runs on a list of signals, so that every interleaving of whole steps is a list.
--
-- Conventions and bounds:
--   - Times, delays and counts are natural numbers; the clock's reading and the generated id are
--     arguments. A base delay times a power of two is exact in doubles; infinite and undefined
--     delays are left out.
--   - A number in a payload stands as the text that it is printed as. What JSON.stringify writes,
--     JSON.parse reads back. The hash rounds its products as doubles do, to 53 bits.
--   - A hexadecimal hash has at most 8 digits, since it is below 2 ^ 32; a decimal number n has at
--     most n + 1, and so has one in base 36. No other function is on fuel: loops recur on the list of
--     jobs, cells or signals.
--   - A job handed out by the memory driver is the stored object in the code and a copy here; the
--     worker reads only fields that no call between changes, except that another pop counts an
--     attempt. Events carry the copy.
--   - The browser's store has a list of cells, says whether it exists and which contents fit. The
--     database's transactions do not overlap, and each is one step; Opening says which stores it has.
--   - A tab of a database has one worker, which waits for its pop before it starts another one; with
--     several workers in the leading tab, two of its pops can choose the same job. The test for the
--     leader and the reads of a pop are one act, since the leader changes between pops in the states
--     that are reached. A closed connection ends the open pop of its tab, which never settles.
--   - A tick of a worker reads the clock when it pops and again when it settles the attempt, after the
--     time that the processor takes. The next tick comes when the delay that the code sets is over,
--     at once after a job and a poll interval after an idle tick, or later if the timer is late.
--   - A call of the manager runs to its end before the next one begins; in the program the calls that
--     await a connection can overlap.
--   - Str.startsWith of the support package is a parameter, with the hypothesis that it accepts a
--     text put behind the prefix.
--   - The workers of a pool share one memory connection, which runs each of its calls to the end: what
--     interleaves are the calls, between which a worker waits for its processor.
--   - The metadata package is a store with laws, filled in Tests by a function.
--   - The base class of the manager, the event manager, fetch and the SDK of QStash are other
--     packages: parameters, with laws where a theorem needs them. Names of connections are not those
--     of properties that every object has.
--
-- Not modelled: the container, which runs the factories of providers and reads Injectable; the
-- abstract class of src/hosts; stack traces; logging; the bundles of dist, which are generated.
pub mod Prelude
pub mod Payload
pub mod UniqueId
pub mod Backoff
pub mod Errors
pub mod Ids
pub mod Job
pub mod Jobs
pub mod Base
pub mod Memory
pub mod LocalStorage
pub mod IndexedDb
pub mod Null
pub mod Sync
pub mod Broadcast
pub mod QStash
pub mod Handle
pub mod Driver
pub mod Worker
pub mod Manager
pub mod EventBus
pub mod Loader
pub mod Decorators
pub mod Connectors
pub mod Tokens
pub mod Module
pub mod Hooks
pub mod Tests
