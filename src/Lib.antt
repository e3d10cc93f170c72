-- ===== src/Lib.antt =====
-- HarborWorks booking hub: the services of repo/internal over their database tables.
--
-- The program is a web application. Handlers parse requests and call services; a service keeps no
-- state of its own, reads the clock, and calls repositories, each method of which is one SQL
-- statement or one transaction; jobs call services on timers. What the services promise depends on
-- the order in which those statements run, and on what their WHERE clauses test.
--
-- How the model is made. A table is a list of rows in the order of insertion, and a method of a
-- repository is a function of the tables: an INSERT appends, an UPDATE or a DELETE with a WHERE clause
-- is `update_where` or `delete_where` with that test, a query by a key is `find_first`. A method of a
-- service is a function of the tables, the clock, the new UUIDs or tokens, and the faults: which calls
-- of the database fail in the driver, with no effect. It answers with a result and the tables after
-- it. Lines that only log are left out. A UUID is a number, 0 is uuid.Nil; a time is a number of
-- nanoseconds since the epoch in UTC, a duration a number of nanoseconds, none of them near 2^63;
-- quantities that a request may make negative are integers.
--
-- The files:
-- Base: lists, lookups by keys, integers and tests that the parts share.
-- Domain: repo/internal/domain. Errors and Models are models.go, Status is state.go with the statuses
--   of models.go, GroupBuys is groupbuy.go, Password is password.go.
-- Booking: Table is repository/booking.go with the queries that bookings make of resource.go and
--   user.go; Service is service/booking.go (Create, GetForOwner, Transition); Slots is
--   service/resource.go (Availability, ComputeSlotCapacities, RemainingSeats). Admission, Insertion,
--   Seats, Capacity, Promotion, Limits, Overlaps and System are about sequences of calls, Race about
--   two calls at once, Notes, Report, Availability and Outcomes about single calls.
-- GroupBuy: Table is repository/groupbuy.go, Service is service/groupbuy.go (Create, Join,
--   SweepExpired, Progress). System is the interleaving of joins and the sweep job: a join reads and
--   writes in two steps, since JoinAtomic runs at READ COMMITTED, and its UPDATE locks the row until
--   the commit. Change, Fair, Sweeping and Interleaving are about it, Late about a join that the sweep
--   overtakes, Retry about the loop of Join.
-- Auth: Table is repository/user.go, session.go and captcha.go, Administration the flags of users in
--   user.go, Service is service/auth.go. Gate, Lockout, Captcha, Sessions and Credentials are about it.
-- Idempotency: Table is repository/idempotency.go, Middleware is api/middleware/idempotency.go, System
--   the interleaving of requests. Counts, AtMostOnce and Replay are about it.
-- Documents: Table is repository/document.go, Service is service/document.go, Pdf its writer of PDF
--   files. History is the abstract store of versions, Refinement, Reading, Publishing and Upsert are
--   about it, PdfLayout and Escaping about the file.
-- Webhooks: Target and Mapping are the checks of a target and the renaming of fields in
--   service/webhook.go, Service is the rest of that file, Table is repository/webhook.go. Lifecycle,
--   Events, Settled, Retrying and Rounds are about deliveries.
-- Analytics: Table is repository/analytics.go, Service is service/analytics.go, Grouping is GROUP BY.
--   Counting is about the hourly table.
-- Governance: Table is repository/governance.go, Registry and Deletion are service/governance.go, Csv
--   its validation and Import its import, with InsertManyTx of repository/resource.go. Erasure,
--   AllOrNothing and Importing are about them.
-- Groups: Masking is MaskName and MaskEmail of domain/models.go, Table is repository/group.go with
--   service/group.go, Handler is the projection of api/handlers/group.go.
-- Middleware: Cache is infrastructure/cache/cache.go and api/middleware/cache.go, Gates is
--   api/middleware/auth.go, Router the routes of api/router.go; gin runs the gates of a route in their
--   order until one stops the request. Access and Guarded are about the gates, Shared about the cache.
-- Inbox: Table is repository/notification.go, Service is service/notification.go. Reading is about the
--   count of unread notifications. The group buys have a smaller table of notifications of their own.
-- Backups: Table is repository/backup.go, Service is service/backup.go. Chain is about the plan of a
--   restore.
-- Api: Refusals is writeServiceError and writeGroupBuyError of api/handlers, Requests what the handlers
--   share, Bookings api/handlers/booking.go, Accounts api/handlers/auth.go, Documents
--   api/handlers/document.go, GroupBuys api/handlers/groupbuy.go. Spared and Blamed are about the errors
--   of a chain of calls, Booked and Joined about the answers, Entered and SignedIn about the cookie of a
--   login at the gates, Shelf about the content of documents.
-- Server: repo/cmd/server/main.go and what it starts. Keys is infrastructure/crypto/aes.go, Config is
--   infrastructure/config/config.go, Database is infrastructure/database/postgres.go (Connect, Seed),
--   Jobs is infrastructure/jobs/runner.go with the jobs of main, Seeding is seedAdminUser and
--   seedDemoUsers. Restart, Connecting, Present, Boot, FirstBoot and InitialPassword are about them.
-- Each Examples file, and each Runs file, holds concrete runs.
--
-- Loops and fuel. The loop of Join counts its attempts down from 3, which is the source's bound. The
-- loop of ComputeSlotCapacities takes as fuel the length of the window in nanoseconds; a slot is at
-- least one nanosecond long, so it is enough. All other loops walk a list.
--
-- Parameters. bcrypt, strings.TrimSpace, the LOWER of the database, the classes of the package unicode
-- and the printing of numbers are fields of a record that authentication takes, and the cipher of
-- secure notes is an argument of the booking service; AES-GCM is a parameter of Server/Keys. The
-- hypotheses made of them: a hash matches the password that it was made from (Matches); opening undoes
-- sealing (Opens), so that a text deciphers to what was enciphered (Deciphers); the bytes of a text give
-- it back (Faithful); what the package unicode says of three characters (Latin). The network, URLs,
-- JSON, CSV records, number and time formats, files and the case of letters are parameters where
-- webhooks, imports, lists, backups, handlers and the configuration use them, with no
-- hypothesis but that the JSON of a list of groups begins as an object.
--
-- Not modelled: the migrations, logging, the wiring in main, and the pages; views and generated code. Of
-- the modelled parts: the other handlers, lists with paging, the ratio of Progress, which is a float, the
-- PNG pass, the CSV export, two delivery cycles or two first generations of a document at once. Nothing
-- in the program calls DeleteExpired, so requests with idempotency keys do not race with it. The database
-- keeps times in microseconds; the model rounds them only in the check of a booking's window.
pub mod Base
pub mod Domain
pub mod Booking
pub mod GroupBuy
pub mod Auth
pub mod Idempotency
pub mod Documents
pub mod Webhooks
pub mod Governance
pub mod Analytics
pub mod Middleware
pub mod Groups
pub mod Inbox
pub mod Backups
pub mod Api
pub mod Server
