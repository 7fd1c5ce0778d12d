-- ===== src/Lib.antt =====
-- Verification of the core of the notai API: the life of uploaded media and their contents, the
-- verdicts on them, the path of domain events, the quotas, the clients and their feeds,
-- and the billing of workspaces.
--
-- A client has campaigns, and uploads a media (an image or a video) for one of them. The media
-- yields contents, the units that detectors analyze: the image itself, or frames of the video.
-- The outcomes of the detectors make the verdict of a content, and the contents of a media make
-- the verdict of the media. Entities record domain events, which are stored in the outbox in the
-- transaction that changes them; the relay publishes the outbox to the broker, the consumer
-- dispatches each message to the handlers registered for it, and a wrapper keeps a handler from
-- doing its work twice for one event. Before an action the quota tests compare what a workspace
-- uses with what its plan allows. A user enters a client only as a member of it; what happens is
-- shown to the members in the client's activity feed. The webhooks of the payment provider keep the
-- subscription of the workspace and its invoices up to date.
--
-- Which file is about which code:
--   Content       internal/domain/content: Entity has the entity and its methods, Types the events
--   Media         internal/domain/media: Files has filenames, types and object keys, Entity the
--                 construction and the deletion, Transitions the methods that change the status
--   Campaign      internal/domain/campaign: Entity, and Stream: what its events tell;
--                 internal/application/command/campaign: Commands, and Uploads: the background
--   Database      the repositories of contents and media, internal/domain/port/outbox.go, and their
--                 transactions, as the interface that the command handlers use; Memory: a small
--                 database for the tests; Runs: lemmas on what a transaction leaves
--   Analysis      Outcome: internal/domain/analysisresult; Score, MediaVerdict and Detectors:
--                 internal/application/command/content/analyze_content.go (aggregate and
--                 computeLabel, AggregateMediaVerdict, selectDetectors); Handler: its transactions;
--                 Analyze: its Handle; Finalize, Admission and Completion: proofs
--   Processing    internal/application/command/media: Receive and Upload: process_upload.go;
--                 Extract: extract_frames.go; Presign: presign_media.go, and the dispatcher of
--                 internal/application/command/mediaupload; Recover: recover_stale_processing.go;
--                 Ports: the storage and the imaging tools
--   Billing       Types, Subscription, Invoice, Workspace: internal/domain/subscription,
--                 internal/domain/invoice and internal/domain/workspace; Ledger: their
--                 repositories; Webhooks, Upsert and Checkout: the handlers of
--                 internal/application/command/subscription
--   Account       internal/domain/client and internal/domain/user: Types, Client, User; Members and
--                 Users: internal/application/command/client and internal/application/command/user;
--                 Access: proofs
--   Activity      internal/domain/activity; Projector, Outcomes and Arrivals:
--                 internal/application/event/activity/project.go; Feed, Told and Settled: proofs
--   Paging        internal/domain/paginate and internal/infrastructure/persistence/read/paginate.go
--   Messaging     Failure: internal/application/messaging/errors.go; Registry:
--                 internal/application/registry; Dedup: internal/application/event/dedup over
--                 internal/infrastructure/persistence/processed; Consumer:
--                 internal/infrastructure/messaging/rabbitmq/consumer.go; Relay:
--                 internal/infrastructure/persistence/outbox; Realtime:
--                 internal/application/realtime
--   Calendar      internal/domain/subscription/quota_period.go and the calendar it counts in
--   Quota         Usage: internal/application/query/subscription/get_quota_usage.go; Assert:
--                 internal/application/command/quota/assert_create_allowed.go
--   Base, Errors  what these share: numbers, lists, texts, Go's int64 and float64, error values
-- A function keeps its Go name in snake case. A method takes its receiver last and answers it as it
-- leaves it, with its error as an Option or a Result.
--
-- How values are modelled. A UUID is a number, uuid.Nil is 0. A time is the number of nanoseconds
-- since Go's zero time. The present time and fresh UUIDs are arguments; that the database keeps
-- microseconds only is not modelled. A text is a list of code points; to_lower is exact where the
-- result is ASCII, which the comparisons it is used for need. An int or int64 is an integer, with
-- the wrap-around of 64 bits where the code computes with it. A float64 is its 64 bits with the
-- comparisons of IEEE 754; its sums and differences are a parameter. A nil pointer is none, and so
-- is an empty text that stands for no value, except in a campaign, which keeps its texts. A string
-- type with named values has a constructor for each, and one for any other text where the code can
-- meet one.
--
-- Loops follow the lists they run over. The loop of CurrentQuotaPeriod runs on fuel: a month has at
-- least 28 days, so (now - anchor) / 28 days + 1 rounds are enough, which the theorem on the period
-- shows. The rounds of the relay and the deliveries of the broker are lists that the theorems
-- quantify over. The results of database and broker calls are parameters or lists of faults.
--
-- Parameters stand for the packages the code only calls: the object storage, the thumbnails and
-- the inspection of an upload, the sampling of a video, the payment provider, the deterministic
-- UUIDs, AddDate on a date that the calendar does not count, and the quotient of math.Ceil.
--
-- Not modelled: SQL, HTTP, the payment, identity, storage and notification services, image and
-- video decoding, the detectors themselves, the interleaving of their goroutines but for the order
-- of what they save, logging; the event handlers but for the activity feed; the start and the
-- change of a plan by a user; the deletion of the objects of uploads.
-- UpdatedAt-style times are kept; the text of an error is kept only where nothing else names the
-- error. The fields of an event that its methods EventID, EventType, AggregateID and OccurredAt
-- only repeat have no definition of their own.
pub mod Base
pub mod Errors
pub mod Content
pub mod Campaign
pub mod Media
pub mod Database
pub mod Analysis
pub mod Processing
pub mod Billing
pub mod Paging
pub mod Messaging
pub mod Calendar
pub mod Quota
pub mod Account
pub mod Activity
pub mod Memory
