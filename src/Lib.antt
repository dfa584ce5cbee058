-- ===== src/Lib.antt =====
-- A model of the domain of owl-invites, its invitations and events, and the theorems that make
-- it correct.
--
-- An organizer invites households to an event. A household holds a capability: a text signed by
-- the server's key over a selector and a token version. Exchanged, it becomes a session, and the
-- session alone gives access to the household. A guest who has lost the link asks for a recovery
-- token at the stored contact. An open enrollment lets parties create their own household, within
-- a window, a party size and a capacity.
--
-- The program's parts and the files that model them:
--   internal/invitation/capability.go: CapabilitySigner, Private, Open, ParsePrivate, ParseOpen,
--     sign, parse: Invitation/Capability.
--   internal/invitation/service.go: validateContact, with normalizeEmail and normalizePhone of
--     store.go: Invitation/Contact. ExchangePrivate and Revoke: Invitation/Store/Sessions.
--     HouseholdForSession, SubmitForSession, ExchangeRecovery and validateRecipientGroup, with
--     fingerprint of capability.go: Invitation/Service.
--     Deliver, with LoadHousehold of store.go: Invitation/Delivery. BroadcastDetailed,
--     Broadcast and PreviewBroadcast, with ListDeliveryTargets and CreateMessage of store.go:
--     Invitation/Broadcast. RequestRecovery, with EventExists of event_store.go:
--     Invitation/RecoveryRequest. CreatePrivate: Invitation/Private. ConfigureOpen, RotateOpen,
--     InspectOpen, EnrollOpen and validOpen: Invitation/Open (offer_open, renew_open, inspect_open,
--     enroll, valid_open).
--   internal/invitation/response_store.go: validateResponseAnswers, validateAnswer and
--     validAttendance: Invitation/Answers. SubmitResponse, updateGuestAttendance,
--     loadActiveGuestsTx, loadQuestionsTx and replaceAnswers: Invitation/Store/Submit.
--   internal/invitation/store.go: FindByID, FindByAccessID, Rotate, Revoke, CreateSession and
--     InvitationForSession: Invitation/Store/Sessions. Create and Import:
--     Invitation/Store/Create.
--   internal/invitation/recovery_store.go: AllowRecovery, FindRecoveryMatches,
--     CreateRecoveryToken and ConsumeRecoveryAndCreateSession: Invitation/Store/Recovery.
--   internal/invitation/open_store.go: ConfigureOpen, RotateOpen and EnrollOpen:
--     Invitation/Store/Enrollment, over the insertions of Invitation/Store/Rows.
--   internal/invitation/csv.go: PreviewImportCSV, validateImportHeader, validateImportRow,
--     householdConflicts, validateImportCommit and CommitImport: Invitation/Import.
--   internal/event/service.go: NewService, CanManageEvent, IsEventOwner, Create, Update, Publish,
--     Cancel, Reopen, Duplicate, Delete, CreateFromSeries and parseFlexibleTime: Event/Service,
--     with the checks of requests in Event/Request, over Create, FindByID, FindMembershipRole and Update of
--     internal/event/store.go: Event/Store.
--   internal/security/ratelimit.go: RateLimiter: Security/RateLimit.
--   internal/calendar/ics.go: escapeICSText and writeFoldedLine: Calendar.
--   internal/database/rewrite.go: rewritePlaceholders: Database/Rewrite.
--   internal/invitation/model.go: Invitation/Model; the tables of the schema:
--     Invitation/Database.
--
-- State and errors. A method of the store is an `Action` (Invitation/Action): a function of the
-- tables, of a schedule that says which call of the database fails, and of the count of the
-- identifiers that were handed out, with the messages that the senders were given
-- (Invitation/Mail); what a sender answers is an arbitrary function. A failed call ends the
-- method with the error that the source
-- wraps; a transaction that ends in an error, or that fails to commit, puts back the tables it
-- began with. The statements are what the SQL texts say of the rows: an update counts the rows
-- that its test meets, and the code compares that count with 1.
--
-- Texts are lists of bytes (Text). The parts of Go's library that the code relies on are written
-- out: TrimSpace, Itoa and Atoi of 64-bit integers, Split and Join, unpadded base64 for URLs, hex
-- (Text/Trim, Text/Number, Text/Split, Text/Base64, Text/Hex). A Go map is an association list in
-- the order in which it is ranged over (Map). HMAC-SHA256, SHA-256, the address parser of
-- net/mail, the readers of JSON and CSV, time.Parse, utf8.Valid, Unicode's case tables, UUIDs
-- and random bytes are parameters, the
-- fields of Platform; the laws that a theorem needs of them are its hypotheses. A time is its
-- number of nanoseconds; SQL compares the texts that RFC3339Nano prints, and Stamp does so too.
-- A Go int that the code adds to or compares is a natural number: the values are counts of rows,
-- versions and limits far below 2^63. No recursion needs fuel but the printing of a number,
-- which is given the number itself, and the loop over the parts of a calendar line, which is given
-- the length of the line, of which each round takes at least a byte.
--
-- Interleavings of two transactions are not modelled: the databases serialize the ones that write
-- the same rows, and the theorems are about one after the other. So are the operations of
-- the event service, whose reads and writes are not in one transaction, and the calls of a rate
-- limiter, which holds a lock. The callbacks of the event service are arbitrary functions that
-- leave
-- the events alone. The HTTP handlers, the providers of messages and the other packages are not
-- modelled.
mod Base
pub mod Text
pub mod Map
pub mod Table
pub mod Stamp
pub mod Platform
pub mod Invitation
pub mod Database
pub mod Event
pub mod Calendar
pub mod Security
mod Fixtures
