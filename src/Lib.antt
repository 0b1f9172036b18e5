-- ===== src/Lib.antt =====
-- The privchat TypeScript SDK: the local cache of an instant messenger, the outbox that delivers what
-- the user writes, and the rules by which what the server says is merged into what is held.
--
-- The parts, and the files that model them:
--
-- - Prelude: names of the libraries, texts (lists of code units), decimal numerals, results.
-- - Table: the object store behind src/cache: rows under a primary key, in key order. It stands for
--   the browser's IndexedDB, with the documented behaviour of get, put, delete and ordered reads.
-- - Cache: src/cache/types.ts, the records. Cache/Order: the display order (displaySortKey,
--   compareDisplayOrder). Cache/Merge: src/cache/merge.ts (mergeOnPushAbsorb). Cache/Inbound: the
--   send times of src/cache/canonical-inbound.ts; Cache/Canonical the canonical form of a message with
--   its adapters; Cache/Push: pushToMessageRecord of src/cache/types.ts. Cache/OutboxTable: src/cache/outbox-store.ts
--   (claimOutboxEntry, commitOutboxTransition, claimRepairRow and their companions).
--   Cache/Database: src/cache/indexeddb-store.ts, with Upsert for upsertMessages, Ack for
--   applyAck, createLocalMessageQueued and commitAck, and Users for upsertUsers.
-- - Maps and Sorting: a JavaScript Map in the order of insertion, and the stable sort of an array.
-- - Contents: the legacy envelope and the display text of src/message-content.ts; Contents/Entities:
--   scanMessageTextEntities; Contents/Links: sanitizeMessageLinks of src/codec/payload.ts;
--   Contents/Projection: projectMessageContent, with Contents/Safe on what it shows.
-- - Timeline: src/cache/message-store.ts, the MessageStore: its state, its operations and the patches.
--   Timeline/State is the state with the modes and the channels, Rows the helpers on rows. Sorted,
--   Merging, Noted and Displayed carry the display order, Reach the store as a state machine, Views
--   the maps from ids to messages, Patches what the observers are told.
-- - Members: src/cache/group-member-store.ts; Members/Roster the pages, Members/Watermark the watermark.
-- - Outbox: src/outbox-engine.ts. Outbox is the configuration and the state; Outbox/Resolve is
--   resolvePending and applyAck, with src/cache/rebuild.ts; Outbox/Attempt is processRow and its
--   failure paths; Outbox/Repair is repairIntegrityRows; Outbox/Flush is flushOutbox.
-- - Sync: runSync of src/sync-engine.ts, over the interface SyncStore. Sync/Merge is the loop of
--   mergeCommits over a page, with commitToMessageRecord; Sync/Page is mergeCommits as one transaction
--   with its publication, persistEmptyPage and handleResync, and fills the interface (sync_store);
--   Sync/Forward runs the loop over it.
-- - Client: retryOutboxEntry of src/client.ts; Client/Discard: discardOutboxEntry.
-- - Codes: src/send-error.ts, src/auth-error.ts, src/content-type.ts and chunkVerdict of
--   src/chunked-upload.ts.
-- - Profiles: src/cache/profile-store.ts, the store of profiles in memory, with its listeners.
--   Avatars: resolveAvatarModel of src/runtime/avatar-model.ts, userDisplayName of
--   src/runtime/user-display.ts.
-- - Auth: AuthRefreshCoordinator of src/auth-refresh.ts as a state machine; its callbacks do not call
--   refresh before they return. Auth/SingleFlight proves it.
-- - Uploads: src/chunked-upload.ts, with the calls on a session; Uploads/Sizer is ChunkSizer,
--   Uploads/Gaps the loop over the missing ranges, Uploads/Parts the S3 data plane, Uploads/Chunked
--   uploadSealedFileChunked, Uploads/Attachment uploadSealedAttachment. What a server does is the
--   interface Keeps (Uploads/Gaps/Keeping).
-- - Examples: concrete inputs.
--
-- State is passed explicitly, and one database transaction is one function: it gives the new tables,
-- or the error that rolled them back. The outbox engine's world holds the database, the memory, the
-- events and the requests sent. Whatever the engine does not decide is an argument: the clock, the
-- lease tokens, the outcome of a send, a failure of the storage, and what other tabs do to the world
-- during a send (`meanwhile`). What the outbox engine asks of the message store in memory, the UTF-8
-- decoder and the envelope decoder are fields of OutboxEngineDeps; the JSON parser and printer, the
-- regular expressions, the UTF-8 coders, fetch and the cryptography of uploads, the random
-- identifiers and the decoder of canonical events are parameters of the parts that use them. Names in snake case are the source's in camel case.
--
-- Numbers are natural: times, counters, sizes and code units never are negative in the modelled code;
-- the geometry of an S3 session fits its blob. Recursion is structural: the paging loop recurses on the
-- round trips that its own limit leaves, and the loop over an upload's gaps takes fuel, of which three
-- rounds for each byte that a status may list, and two, are enough (Uploads/Chunked/Whole).
-- 2 ^ failures is not rounded, as a double is beyond 2 ^ 53; the delay is cut to the longest one.
--
-- Not modelled: the transport, the codecs (they call the FlatBuffers package), the RPC surface, the
-- migrations of the schema, the cache of avatar pictures, the
-- registries of observers, and the promise chain that keeps one flush per channel. A flush works off its
-- channels one after the other. The storage may fail where the outbox engine commits an acknowledgement
-- and where it records that failure, where the sync engine stores an empty page, and in the client's
-- calls on an outbox row; the engines' other writes succeed. In a recovery of the sync engine the writes
-- whose errors the source ignores succeed.
pub mod Auth
pub mod Avatars
pub mod Cache
pub mod Client
pub mod Codes
pub mod Contents
pub mod Examples
pub mod Maps
pub mod Members
pub mod Outbox
pub mod Prelude
pub mod Profiles
pub mod Sorting
pub mod Sync
pub mod Table
pub mod Timeline
pub mod Uploads
