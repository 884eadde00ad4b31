-- ===== src/Lib.antt =====
-- Verification library of teldrive: the core of a server that stores files in Telegram channels, cut
-- into parts and encrypted if wanted, and serves byte ranges of them.
--
-- The parts and how they interact. A request for a range goes through internal/http_range to
-- internal/reader, which splits the range over the parts of the file (reader.go) and streams each
-- part in chunks that a goroutine fetches (tg_reader.go, buffer.go); if the file is encrypted,
-- internal/crypt opens the stream of a part at an offset and decrypts it. internal/tgc chooses the
-- bot that serves and sizes the chunks, and internal/retry repeats calls that fail.
-- pkg/repositories/filesquery lists files page by page, internal/events tells subscribers what
-- changed, and internal/hash makes the tree hash of a file. Callers log in by an attempt that talks
-- to Telegram (pkg/services/auth_attempts.go), and each request is checked against the sessions and
-- API keys (internal/auth). Jobs mirror remote directories, part by part, and clean up what uploads
-- and deleted files leave in the channels.
--
-- Files and code. Functions keep the names of the code, in snake case.
--   Crypt/Nonce, Crypt/Size, Crypt/Source, Crypt/Encrypter, Crypt/Decrypter: internal/crypt/cipher.go
--     (nonce; sizes and calculateUnderlying; readFill; encrypter; decrypter with RangeSeek and
--     newDecrypterSeek). Crypt/Box is the interface to nacl/secretbox: Seal adds 16 bytes and Open
--     undoes it. An io.Reader is its bytes, the error behind them, and the sizes that its reads come
--     in, so that theorems hold for every way a reader splits its bytes. Stream is the loop that
--     reads to the end.
--   Reader/Ranges, Reader/Parts, Reader/Chunks, Reader/Multi: calculatePartByteRanges and Reader of
--     internal/reader/reader.go, CalculateChunkSize of internal/tgc/helpers.go, and tgMultiReader of
--     internal/reader/tg_reader.go. A reader of a part is a parameter of
--     Reader/Parts, and Reader/Parts/Encrypted puts the decrypter in its place, over the streams that
--     the closure of getPartReader opens.
--     The two goroutines are a step function: a batch is fetched, a buffer is sent, or the caller
--     reads; a step that has to wait is none, and an interleaving is a list of steps.
--   Query: pkg/repositories/filesquery/builder.go (Query/Condition: the conditions and their value at
--     a row, in SQL's three values; Query/Cursor: CursorEncoder and CursorCondition; Query/Builder:
--     Builder).
--   Events: internal/events/broadcaster.go (Events/Broadcaster) and polling.go (Events/Polling), with
--     Go's maps in Events/Maps. Subscribe and Unsubscribe are two sections each, under one lock and
--     then another.
--   Login: pkg/services/auth_attempts.go (Login/Channels: the channels of watchers; Login/Attempt:
--     authAttempt; Login/Command: the commands and completeAuthAttempt; Login/Service: the manager,
--     the handlers and the goroutines, one atomic step each; Login/Attempt/Log: one attempt, where
--     the two sections of publish are two steps) and checkUserIsAllowed,
--     generateTgSession and prepareSession of auth.go (Login/Session). A panic is none.
--   Access: internal/auth/auth.go with the handlers of sessions and keys of pkg/services/auth.go and
--     user.go (Access/Service) over pkg/repositories/session_repo.go and api_key_repo.go
--     (Access/Tables). The read of a row and the write of its cache entry are two steps, with the
--     steps of other requests between them, and so are the revocation of a session and the clearing
--     of the caches; writes and deletions of cache entries may fail, and the caches may forget at
--     any time.
--   Sync: pkg/services/sync_chunk_size.go (Sync/ChunkSize), the resuming and uploading of a transfer
--     in imports_jobs.go with StagePart of upload_staging.go (Sync/Parts, Sync/Transfer), and the
--     plan and the end of a mirror (Sync/Plan).
--   Cleanup: DeleteMessages and GetMessages of internal/tgc/helpers.go (Cleanup/Messages), and the
--     jobs of pkg/services/queue_executor.go for stale uploads and pending files (Cleanup/Stale,
--     Cleanup/Pending).
--   Bots: internal/tgc/bot_selector.go. Hash: internal/hash/hash.go. HttpRange:
--     internal/http_range/range.go. Retry: internal/retry/retry.go.
--   Prelude and Text hold the shared lists, tests, integers and strings; each Examples module runs
--     the definitions on small inputs.
--
-- Bounds and fuel. Sizes, offsets and counters are numbers without a bound, far below those of
-- int64 in the code; bytes of a nonce wrap at 256, the 64-bit argument of its add at 2^64, and
-- parsed numbers end at 2^63. readFill runs on fuel for each entry of the reader's schedule and two
-- more calls; Write of the block hasher on a turn for each byte; CalculateChunkSize on ten halvings.
--
-- Not modelled: the Telegram client, the database and its generated tables, Redis beyond its
-- increment, configuration, the HTTP handlers for files and shares, the job queue, the remotes, and
-- contexts, timeouts and mutexes. Of the repositories only the statements for sessions, keys and
-- uploads are, as tables in memory. The walk over the destination of a mirror is an argument; the
-- insertion of the planned jobs is left out. A read of a cache does not fail. Key derivation,
-- secretbox, BLAKE3, the hash and the signature of tokens, base64, JSON, the printing of ids and
-- times and the text search of the database are parameters.
pub mod Prelude
pub mod Stream
pub mod Text
pub mod Crypt
pub mod Reader
pub mod Query
pub mod Events
pub mod Bots
pub mod Hash
pub mod Login
pub mod Access
pub mod Sync
pub mod Cleanup
pub mod HttpRange
pub mod Retry
pub mod Examples
