-- ===== src/Lib.antt =====
-- Talksy: a verification library for the state of the assistant's server.
--
-- The server keeps, per client of its gateway, a session with the conversation, a window of the times of
-- its requests, and caches of what is expensive to compute. Each part is one file, with child modules
-- for its proofs.
--
--   Buffer: src/session/utils/circular-buffer.ts, `CircularBuffer`. `create`, `push`, `to_array`, `clear`,
--   `peek_first` and `peek_last` are its methods on a record of the array, the head and the size. The
--   array is a list of optional items, in which an empty slot is `undefined`.
--   Window: src/rate-limit/sliding-window.ts, `SlidingWindow`, with `record_at` for the method `record`.
--   RateLimit: src/rate-limit/rate-limit.service.ts and rate-limit.guard.ts; it has a Window for each
--   client. RateLimit/Limiter.antt states what the service promises, RateLimit/Refine.antt,
--   Cleanup.antt and Calls.antt that it keeps it.
--   LruCache: src/cache/lru-cache.ts, `LRUCache`, on a map in the order of insertion.
--   Session: src/session/session.service.ts; a session has a Buffer for its messages. Session.antt has
--   the methods up to the look-ups, Session/Methods.antt the rest, Session/Steps.antt the states that
--   can be reached by calls and timers, with Session/Coherent.antt and Session/Capacity.antt for what
--   each method keeps, and Session/History.antt the conversation.
--   StreamBatcher: src/gateway/utils/stream-batcher.ts, `batchStreamChunks` and `TimeBatcher`.
--   Tools: src/tools, with Registry for src/tools/services/tool-registry.service.ts and Executor for
--   src/tools/services/tool-executor.service.ts; `begin` and `finish` are the two steps of `execute`,
--   Executor/Flight.antt interleaves them. The executor asks the registry for the tool of a call.
--   MemoryStorage: src/storage/adapters/in-memory-storage.adapter.ts, with `fire` for a timer's callback.
--   CacheService: src/cache/cache.service.ts, three LruCaches and the reverse index from users to the
--   hashes of their tokens; CacheService/Coherent.antt has the invariant, Calls.antt the sequences of
--   calls, Tokens.antt and Users.antt what becomes of tokens and users.
--   RedisPool: src/redis/redis-pool.service.ts, the states of the connection, and the commands of Redis,
--   `Redis`, as functions that may throw.
--   Users: src/user/user.service.ts over CacheService and RedisPool. Users/Accounts.antt states what it
--   promises, Users/Refine.antt that it keeps it without Redis, Users/Fallback.antt what becomes of it
--   with Redis.
--   Auth: src/auth/auth.service.ts over Users; Auth/Expiry.antt has parseExpiryToMs, Auth/Gone.antt and
--   Refresh.antt what becomes of refresh tokens, Auth/Access.antt how long a validation is good for,
--   Auth/Race.antt two refreshes at a time.
--   RedisStorage: src/storage/adapters/redis-storage.adapter.ts over the commands of RedisPool.
--   Storage: src/storage/storage.service.ts, which asks RedisStorage or MemoryStorage; Storage/Served.antt
--   has the sequences of calls.
--   Ai: src/ai/ai.service.ts, over LruCache; Ai/Provider.antt has the sequences of calls and the active
--   provider, Ai/Names.antt what a provider's name does in a key, Ai/Responses.antt where the responses
--   come from.
--   Ai/Mock: src/ai/providers/mock-ai.provider.ts, the provider that is always there.
--   ApiKey: src/common/guards/api-key.guard.ts, which stands before the handlers of the gateway.
--   Auth/Guard: src/auth/auth.guard.ts, over `validateAccessToken`; Auth/Guard/Tokens.antt says which token
--   is sent, Admitted.antt who is let in.
--   Response: src/common/dto/api-response.dto.ts, the form of what is sent.
--   Gateway: src/gateway/assistant.gateway.ts, the handlers of the sockets, over Session, Ai, StreamBatcher
--   and Tools. Gateway/Messages.antt and ToolCalls.antt have the handlers that wait, in steps;
--   Gateway/Reachable.antt interleaves them with the timers of the sessions, Gateway/Conversation.antt and
--   Streaming.antt have what becomes of a message and of a stream, Gateway/Slots.antt of a tool's call.
--   Common: results, texts, lists, the insertion-ordered map, arrays with empty slots, Boolean tests.
--
-- A method that changes its object takes it and returns the new one, first where there is a result too.
-- A reading of the clock is an argument, so that a method that reads it twice takes two times. Times
-- and sizes are natural numbers; where the source subtracts, the text says what happens below zero. A
-- timer that is pending is an entry of the store with the time at which it is due, and a handler of
-- timers is a function that may run while there is one. The only fuel is that of `evict_while`, which is
-- the number of entries, and of `skip_expired`, which is the count: each round takes one, so that the
-- loops end by their own tests.
--
-- Not modelled: what is logged, and emitted on the server's own bus; the reading of the configuration, which is an argument of
-- the constructors; the interval timers, whose handlers are calls; floating-point rates; the parts
-- that only wrap a library (sockets, Redis, the providers' clients, hashing, tokens). Calls do not
-- interleave at an `await` but in Tools, in Gateway and in Auth/Race.antt.
pub mod Common
pub mod Buffer
pub mod Window
pub mod RateLimit
pub mod LruCache
pub mod Session
pub mod StreamBatcher
pub mod Tools
pub mod MemoryStorage
pub mod CacheService
pub mod RedisPool
pub mod Users
pub mod Auth
pub mod RedisStorage
pub mod Storage
pub mod Ai
pub mod Response
pub mod Gateway
pub mod ApiKey
