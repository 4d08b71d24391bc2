-- ===== src/Lib.antt =====
-- OpenNext adapters: the caches, queues and request handling that a Next.js server uses when it
-- runs on workers.
--
-- The program and the files that model it (paths from the repository's root):
--
--   DurableQueue      packages/cloudflare/src/api/durable-objects/queue.ts, class DOQueueHandler.
--                     The object's in-memory maps, its two SQL tables and its alarm are the record
--                     Handler; System.antt has the requests, alarms and evictions as a step relation.
--   ShardId           packages/core/src/core/routing/queue.ts, generateShardId: the shard of a tag.
--   TagTable          packages/cloudflare/src/api/durable-objects/sharded-tag-cache.ts, class
--                     DOShardedTagCache: one durable object, a table of tags.
--   ShardedTagCache   packages/cloudflare/src/api/overrides/tag-cache/do-sharded-tag-cache.ts, the
--                     client of these objects: groups of tags by shard and replica, writes that are
--                     tried again, the regional cache in front of the reads.
--   NextTagCache      packages/cloudflare/src/api/overrides/tag-cache/d1-next-tag-cache.ts and
--                     kv-next-tag-cache.ts: the tag caches over a database and over a KV namespace.
--   BucketPurge       packages/cloudflare/src/api/durable-objects/bucket-cache-purge.ts, and
--                     internalPurgeCacheByTags of packages/cloudflare/src/api/overrides/internal.ts.
--   QueueCache        packages/cloudflare/src/api/overrides/queue/queue-cache.ts: duplicates are
--                     dropped in front of another queue.
--   MemoryQueue       packages/cloudflare/src/api/overrides/queue/memory-queue.ts: the queue of one
--                     isolate.
--   CacheService      packages/core/src/adapters/cache-handler.ts and packages/core/src/utils/cache-get.ts:
--                     how a cache entry travels between the cache function and its client.
--   CacheFunction     packages/core/src/adapters/cache-handler.ts: the handler of the cache function, and the
--                     functions of packages/core/src/utils/cache.ts.  The caches are presumed to start.
--   Interceptor       packages/core/src/core/routing/cacheInterceptor.ts: Control.antt has
--                     computeCacheControl, Answer.antt the answers for each type of entry, Paths.antt
--                     and Route.antt the way from a path to an entry.
--   Locale            packages/core/src/core/routing/i18n/index.ts, and constructNextUrl and
--                     convertToQueryString of packages/core/src/core/routing/util.ts.
--   NodeResponse      packages/core/src/http/openNextResponse.ts, class OpenNextNodeResponse, and the
--                     headers of packages/core/src/http/util.ts: Flush.antt sends the headers and the
--                     body, Steps.antt has the calls of a response as a step relation.
--   Assets            packages/cloudflare/src/api/overrides/asset-resolver/index.ts: the rules that say
--                     for which paths the worker runs first, and the result for an asset.
--   Images            packages/cloudflare/src/cli/templates/images.ts: the handlers of /_next/image and of
--                     /cdn-cgi/image/, from the query parameters to the reply.
--   Message           QueueMessage of packages/core/src/types/overrides.ts.
--   Common            lists, options, Boolean tests, association lists and texts as lists of codes.
--
-- How they interact: Locale localizes the path of a request, Interceptor answers it from the
-- cache, and a stale page sends a QueueMessage to a queue, which QueueCache may guard and
-- DurableQueue or MemoryQueue works off; a revalidated tag is written to the replicas of its
-- shard by ShardedTagCache, each a TagTable, and its cache entries are purged in batches by
-- BucketPurge. NextTagCache may stand in for the sharded tag cache. The cache function answers
-- the requests of the servers for entries and tags: CacheFunction handles them and
-- CacheService is what both ends send. Images serves the images of a page
-- and Assets its assets; both depend on none of these.
--
-- Conventions. SQL tables and in-memory maps are association lists, and SQL statements of the
-- durable objects succeed. `Date.now()` is an argument. In the step relations of
-- DurableQueue/System.antt and MemoryQueue.antt the code between two awaits is one step, and the
-- steps of several calls interleave. Elsewhere a call runs on its own: what may come in while it
-- awaits is left out of BucketPurge.alarm, of QueueCache.send, of DurableQueue.alarm (System.antt
-- has the same retries interleaved) and of the operations of ShardedTagCache and NextTagCache.
-- A namespace of KV shows a write to its readers only after a while: NextTagCache reads the
-- namespace as it is seen at that time.
-- The runtime clears a stored alarm when it starts the alarm handler, and an evicted object
-- loses what it holds in memory. A failed state is stored as JSON and read back unchanged.
-- `parseInt` of a setting is a natural number. The answers of `fetch`, of the Cache API, of
-- the random generator and of other durable objects are arguments: lists of answers in the
-- order of the calls, or a record of functions. Calls that the code makes in parallel are made
-- in the order of the list. Strings are compared as the code compares them; 32-bit arithmetic
-- has its wrap-around written out. A call of the cache function that throws is none, and the
-- state of the backends is then the one before that call.
--
-- Fuel and termination. The loop of BucketPurge over the batches of its table is by fuel, and
-- the result says which fuel is enough; the attempts of a write are counted down from the
-- code's own maximum, and so are the redirects of a fetch; all other loops are over lists and texts.
--
-- The interceptor is given the path that Locale localizes. `toLowerCase`, md5, regular
-- expressions and the URL parser are functions of a record Env wherever the code calls them.
--
-- Images reads a text as a list of UTF-16 codes and takes from its platform, as functions, the
-- URL parser, regular expressions, decodeURIComponent, fetch, the reader of a stream and the
-- bindings.
--
-- Not modelled: acceptLanguage, which is copied from Next.js; logging; the build, the command
-- line and the patches of generated code; the bindings of the platform; the AWS overrides.
mod Common
pub mod Message
pub mod ShardId
pub mod TagTable
pub mod ShardedTagCache
pub mod BucketPurge
pub mod QueueCache
pub mod DurableQueue
pub mod Images
pub mod NextTagCache
pub mod MemoryQueue
pub mod CacheService
pub mod CacheFunction
pub mod NodeResponse
pub mod Interceptor
pub mod Locale
pub mod Assets
