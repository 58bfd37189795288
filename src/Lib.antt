-- ===== src/Lib.antt =====
-- octo-doc: publishing of HTML documents in numbered versions, with comments that follow a document
-- from version to version.
--
-- A comment is a log of events. A reading as of a version replays the events of versions up to it
-- and gives a snapshot (internal/core/fold.go). Operations append events (ops.go); publishing
-- reconciles anchors (reconcile.go) and compacts logs (events.go). The services
-- (internal/service) run an operation under the lock of its slug: they read the comments from a
-- backend, compute, and store the result. The store in memory (internal/storage/memory) is one
-- backend.
--
-- Files:
--   Base            shared types, list and dictionary helpers, integers, texts.
--   Platform/Errors internal/platform/apperr/apperr.go. Platform/Exec: functions that return a
--                   value or an error and change a state; what was written stays after an error.
--   Core/Types      internal/core/types.go.
--   Core/Runtime    the clock, the counter of event ids (eidCounter, 64 bits) and the texts of
--                   numbers. A `Machine` counts readings of the clock and ids that were given out.
--   Core/Events     internal/core/events.go: EventEID, BackfillEIDs, AppendEvent, DedupEvents.
--   Core/Legacy     events.go: legacyToEvents, EnsureEventLog, EnsureMigrated, CompactComments.
--   Core/Apply      internal/core/fold.go: applyReaction and applyCommentEvent with its parts.
--   Core/Fold       fold.go: orderedEvents, replay, finalize, SnapshotAt, SnapshotList.
--   Core/Reconcile  internal/core/reconcile.go.
--   Core/Requests   internal/core/ops.go: CommentOp, OpResult, FindHost. Core/Ops: ApplyCommentOp
--                   and the operations that it calls.
--   Storage/Types, Storage/Backend  internal/storage/store.go: records and interfaces.
--   Storage/Memory, Storage/Decimal internal/storage/memory/memory.go: every operation of the
--                   store and its itoa and atoi; Storage/Memory/Instance makes it a backend, and
--                   Storage/Memory/Refinement has the abstract shelf for documents and assets.
--   Platform/Lock   internal/platform/sluglock/sluglock.go: the map of entries and With, step by step,
--                   for any number of goroutines (Platform/Lock/System).
--   Core/Cyrb53     internal/core/cyrb53.go. Core/Markup: internal/core/render.go.
--   Core/Stamp      internal/core/stamp.go: Patterns has its regular expressions, Identity aidFor,
--                   Headings collectHeadings, Harvest the elements and Stamping StampAids.
--   Storage/Metadata  internal/storage/docmeta.go. Storage/S3: internal/storage/s3/s3.go.
--   Settings        internal/config/config.go, less SafeSlug.
--   Service/World   the state of a backend with a machine, and Locker.With of
--                   internal/platform/sluglock/sluglock.go for one caller.
--   Service/Ids     internal/service/ids.go. Service/Comments: internal/service/comment.go.
--   Service/Docs    internal/service/doc.go; its records in Service/Records, its lists of versions
--                   in Service/Numbering.
--   Service/Assets  internal/service/asset.go. Service/Collection: internal/service/gc.go.
--   Service/Auth    internal/service/auth.go and capability.go.
--   Transport/Limiter    internal/transport/httpx/middleware.go: the limiter of requests.
--   Transport/Slugs      httpx/helpers.go: the checks of slugs, versions and hashes.
--   Transport/Access     httpx/capability.go and auth_mw.go: credentials, capabilities and gates.
--   Transport/Routes     httpx/server.go and middleware.go: what stands in front of each handler, which
--                        is CORS, the limiter, the gates and the security headers.
--   Transport/Responses  httpx/envelope.go and dto.go.
--   Transport/Comments   httpx/handlers_comments.go. Transport/Agent: httpx/handlers_agent.go.
--   Transport/Docs       httpx/handlers_docs.go. Transport/Assets: httpx/handlers_assets.go.
--   Transport/Export     httpx/forkexport.go: the marks, the Banner and the Page; Export/Download has
--                        handleForkExport.
--   Transport/Sessions   httpx/handlers_auth.go and the catalog of handlers_pages.go.
--   Examples        the code and the theorems at concrete inputs.
-- The files below one of these prove theorems about it.
--
-- A pointer is an Option, a Go map an association list with one entry for each key, an `int` an
-- integer, which is wrapped round to 64 bits where the next version and a configured duration are
-- computed, an absent text "" as in the source. A write through a pointer into a slice is
-- the slice with the element replaced. A panic of opReact on a nil snapshot is a result of its own.
-- Services and handlers take the backend as a record of operations; the handlers take a request that
-- is decoded, and return the answer that is encoded.
-- All loops are recursion on a list or a text, or run on fuel. The digits of a number have 64 rounds
-- for the 64-bit numbers that Core/Runtime prints and 20 for the buffer of 20 bytes of memory.go; the
-- windows of a run of hexadecimal characters have one round for each character of the run, as the
-- skipping of markup, the replacing of a text and the unescaping have one for each character: each
-- round takes at least one. The loops over the pages of an S3 listing have as many rounds as they are
-- given, and end with an error of their own after the last; a round for each page is enough.
-- The loops of the stamper over a document are recursion on its characters; each goes on from an
-- offset that never falls. An offset counts characters, and bytes where the source uses one of a
-- lower-cased text; its letters in either case are ASCII.
-- Parameters: case folding (strings.ToLower, strings.EqualFold), strings.TrimSpace, strconv.Atoi,
-- time.Parse, SHA-256, http.DetectContentType, the encoding of JSON, random digits, the clock, the
-- backend, the client of the S3 service, the environment, net.SplitHostPort. core.StampAids is a field
-- of the configuration of Service/Docs.
--
-- Not modelled: the postgres backend, which is SQL for a driver; opening the S3 client; of the
-- transport the router, the decoding of requests, the flags of cookies, the access log, health and
-- the text of the pages; commands and logging; the overlay, which is JavaScript.
pub mod Base
pub mod Platform
pub mod Core
pub mod Storage
pub mod Service
pub mod Settings
pub mod Transport
pub mod Examples
