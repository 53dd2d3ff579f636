-- ===== src/Lib.antt =====
-- The Pastel marketplace backend: money, the pricing engine, checkout, the order state machine and
-- its timer worker, sign-in and tokens, the operators' decisions, listings, follows and stories,
-- notifications, and lists in pages, as definitions that run, with the properties that make them
-- correct.
--
-- The parts and how they interact. Checkout (src/modules/orders/services/checkout.service.ts)
-- builds a price input from the listing and the commission table, has the pricing engine
-- (src/modules/pricing) compute a breakdown with the amounts of src/common/money/money.ts, stores
-- an order in the state `initial` together with a snapshot of the input, and applies the transition
-- `request-payment`. The state machine (order-state-machine.service.ts) reads the process from the
-- table in src/modules/orders/process, checks the transition, recomputes the price from the
-- snapshot where the transition is privileged, calls the payment gateway, and writes the audit row,
-- the order, its timers and the outbox. The worker (workers/scheduled-transition.worker.ts) applies
-- the transitions of the timers that are due. The orders controller applies the transitions that a
-- buyer or a seller asks for. Lists are cut into pages by src/common/pagination. The identity
-- module (src/modules/identity) signs users up and in, rotates their refresh tokens and finds out
-- who a request is from; operators (src/modules/admin) restrict and ban accounts, which its log-in
-- and its rotation look at, and work through moderation queues; src/modules/social keeps follows,
-- stories and likes with counters; src/modules/catalog keeps the listings of sellers and searches
-- them; src/modules/notifications keeps what users are told.
--
-- Files. Base has the shared helpers: Base/Tests Boolean tests, Base/Lists, Base/Int (BigInt),
-- Base/Number (JavaScript numbers), Base/Text, Base/Result (exceptions as values). Money and
-- Money/Laws are the class `Money`. Pricing is `PricingService`; Pricing/Totals, Pricing/Parts and
-- Pricing/Breakdown are about it. Process is process.types.ts and instant-purchase.process.ts,
-- Process/Duration is `durationToMs`, Process/Table and Process/Timers are about the table.
-- Database has the tables of prisma/schema.prisma that the order flow uses. Gateway is
-- payment-gateway.interface.ts, Gateway/Fake is fake-payment-gateway.ts. Orders/Monad is the world
-- that service code runs in, Orders/Actions `recompute` and `runAction`, Orders/Machine
-- `executeWithin` and `apply`, Orders/Checkout `CheckoutService`, Orders/Worker `sweep`,
-- Orders/Controller `transition` of orders.controller.ts, Orders/Detail its `detail` and
-- order.mapper.ts. On these stand Orders/Steps, Effects, Commit, Execute (what a run did),
-- Invariant and Invariant/Timers (the consistency of orders), Outcome, Trail (audit rows and
-- events), Refusals, Isolation (other orders and timers), History (sequences of checkouts and
-- transitions), and Checkout/Consistency, Checkout/Snapshot and Checkout/Quote. Pagination is
-- cursor.util.ts and pagination.util.ts, with Pagination/Cursors and Pagination/Offsets about it;
-- Pagination/Keyset is the query that the services build from a cursor, Pagination/Sorting and Walk
-- are about it. Service is the monad of service code over a database. Accounts has the tables about
-- people. Identity/Platform is what the identity module calls, Identity/Tokens token.service.ts and
-- password.service.ts, Identity/Auth auth.service.ts, Identity/Guards the guards and
-- cookies.util.ts; Identity/Families, Interleaving, Rotation, Issued, SignIn and Access are about
-- them. Admin is audit.service.ts and the mapper, Admin/Users admin-users.service.ts,
-- Admin/Moderation the decisions of admin-moderation.service.ts, Admin/Lists the lists of both;
-- Admin/Bans (what a ban does) and Admin/Audit are about them. Social is follow.service.ts,
-- Social/Story the services of stories, favourites and highlights; Social/Lists their lists;
-- Social/Counts, Likes and History are about them. Catalog is listing.service.ts, with
-- Catalog/Stock about it; Catalog/Search is the query of search.service.ts, with Catalog/Injection
-- about it. Notifications is notification.service.ts, with Notifications/Inbox about it.
-- Idempotency is idempotency.service.ts. Tests has runs of whole orders and sessions, and the
-- theorems at concrete inputs.
--
-- How the code is modelled. A method that reads and writes the database is a function on a world,
-- the database and the state of the gateway; it returns a value or an exception, and the world also
-- after an exception. `$transaction` puts the database back after an exception, and not the
-- gateway. Calls run one after the other: the row lock of `apply` is their order. `rotate` of
-- token.service.ts has no lock, and as one function it is a rotation that no other request
-- interrupts; Identity/Interleaving takes the statements of sign-ins, rotations and log-outs apart
-- and runs them in any order. Times are in milliseconds, and the times to live of tokens in
-- seconds, as in the source. An id that is no UUID is an id that is not found, where the database
-- client throws; the rounding of decimal.js is total, where `BigInt` throws on NaN. The operations
-- of the gateway, the ids that the database generates, the time of a call, and decimal.js (Decimal)
-- are parameters; Decimal/Fixed and Gateway/Fake show that the parameters can be filled. So are
-- argon2, JSON web tokens and random bytes (Identity/Platform, filled in Tests/Identity), and
-- decodeURIComponent. Letters change their case, and blanks are trimmed, in ASCII. BigInt is an
-- integer without bounds, a JavaScript number is a whole number, a number between two whole ones,
-- or NaN, and `Number` rounds a BigInt to 53 bits.
--
-- Bounds. `executeWithin` calls itself for an immediate transition: two rounds of fuel are enough,
-- since the only immediate transition, from `received`, ends in `completed`, which has none.
-- `Number` has 64 doublings, enough for the 64-bit columns. A walk through the pages of a list has
-- fuel for its pages: more than there are rows is enough.
--
-- Not modelled: the Stripe gateway (calls of a third-party package), what the database returns for
-- a search, the lists of followers, the other endpoints and most mappers, the response envelopes,
-- and the framework's wiring. The platform's JSON and base64url of a cursor, its dates, and the
-- order of the database's ids are a parameter (Pagination/Keyset, filled in Tests/Lists).
pub mod Base
pub mod Decimal
pub mod Money
pub mod Pricing
pub mod Process
pub mod Database
pub mod Gateway
pub mod Orders
pub mod Accounts
pub mod Admin
pub mod Catalog
pub mod Idempotency
pub mod Identity
pub mod Notifications
pub mod Pagination
pub mod Service
pub mod Social
pub mod Tests
