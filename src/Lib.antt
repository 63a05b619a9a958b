-- ===== src/Lib.antt =====
-- A model of the core of the bus booking system, with the theorems that make it correct.
--
-- The program is a set of services. services/seat-inventory-service holds seats for a checkout in
-- Redis, and keeps the booked and the blocked seats of each trip in PostgreSQL. services/payment-service
-- decides payment attempts. services/booking-service owns the bookings: it calls the two others, and
-- moves each booking through its statuses. Each of them writes the events that it sends into its own
-- database or publishes them from the script that makes the change.
--
-- Parts and files:
--   Prelude/*: shared names, Boolean tests, lists, results; the formats of texts, numbers and keys
--     that the validations use; `Digest`, the interface of the SHA-256 of node:crypto.
--   Redis: the commands that the scripts run. A key with a deadline is as absent from then on.
--   SeatHold/*: services/seat-inventory-service/src/seat-hold.store.ts. Types and Store are the keys and
--     records; Scripts are the Lua scripts, each one step; Calls are the methods. Store/Laws,
--     Scripts/Keeps, Cover, Order and Answers, and Calls/Runs prove.
--   SeatState/*: services/seat-inventory-service/src/seat-state.repository.ts. Types, Tables and
--     Repository are the rows, the conditions of the statements and the transactions; the modules below
--     Repository prove.
--   SeatInventory/*: services/seat-inventory-service/src/seat-inventory.service.ts over the two parts
--     above. Types and Validation are its requests, errors and validators; SeatMap, Holds, Durable
--     (the confirmation) and Releases (the release and the blocking) are its calls. Accepts, Confirm,
--     ConfirmErrors, Flow, RoundTrip and MapView prove, with the lemmas of Seats and Entries.
--   Payment/*: services/payment-service/src: Types, Events, Repository and Service are the files of
--     those names, with the insert of payment-outbox.repository.ts in Repository.
--   Booking/*: services/booking-service/src/booking.repository.ts and the insert of
--     booking-outbox.repository.ts, the creation in Creation and the transitions in Repository; the
--     modules below these prove. TicketTypes, Tickets and CheckIn are the tickets and the check-in of
--     the same file, and Listing the pages of a customer's bookings; Boarding, CheckIn/Once,
--     Listing/Order, Cursors and Pages prove.
--   OutboxRelay: services/booking-service/src/booking-outbox.relay.ts, with claimBatch, markPublished
--     and markFailed of booking-outbox.repository.ts; the payments have the same two files.
--     OutboxRelay/Steps and Attempts prove.
--   RateLimit: apps/mcp-server/src/rate-limit.ts and apps/web/app/lib/ai-rate-limit.ts, which run the
--     same script; RateLimit/Counts and Waits prove.
--   ResourceCache: apps/mcp-server/src/resource-cache.ts; ResourceCache/Reads proves.
--   The modules named Tests evaluate the definitions on concrete inputs.
--
-- How the code is modelled. SQL statements and Lua scripts are translated statement by statement. A
-- table is the list of its rows, and an insert names the unique indexes of
-- infra/postgres/migrations that can refuse it. Of the CHECK constraints and column types, these
-- are modelled, since validated requests can break them or theorems say that a call succeeds: on a
-- confirmation the types, the key and the number of seats (migration 007) and the names of the
-- seats (005), and on a seat block the names of the seats; where they refuse, the call ends with a
-- plain error. The others are left out: a statement that one of them refuses ends its transaction
-- with an error and no change. A column of the type uuid holds the id in lower case: this is
-- modelled for the booking of a seat, which the code compares as text; a trip's id is one text, as
-- if every caller wrote it the same way.
--
-- A script of Redis is one step, and so is a method of the hold store, with the sweep before it; each
-- ends before the next begins. A transaction is one step on the tables at its writes, and a run is a
-- list of steps. The transactions are READ COMMITTED, and what a transaction read before is passed to
-- it where another one can have changed it: the seats without a row that setSeatBlocked found, which
-- its lock does not cover, and the check-ins that the join of checkInTicket saw, which its FOR UPDATE
-- does not read again; both are arguments. The other transactions lock the rows they decide on, by
-- FOR UPDATE, by an UPDATE or an insert that names its conflict, or by an advisory lock, before they
-- decide. Two releases of one booking that overlap are not modelled: the later one of them ends with an
-- error. The call of the seat inventory service passes setSeatBlocked the seats as they are.
--
-- A transaction that throws leaves the tables as they were. Instants are milliseconds, and a call reads
-- its clock once; a key of Redis is gone from its deadline on, where Redis may keep it for one
-- millisecond more. Random ids, the clock and the trace of a call are arguments. Texts that hold JSON
-- are the values that they hold. In the sorted set of Redis, members of one score stand in the order
-- of their arrival, where Redis sorts them by text. Ids of rows that are drawn at random and that
-- nothing reads are left out. The catalog service and the brokers of the relays are arguments. A call
-- of Redis that the seat inventory service makes after its commit may fail, by an argument. The drains
-- of one relay run to their end, one after the other. Every loop of the code is over a list. The one
-- fuel is that of a client that reads page after page; the number of bookings is enough.
--
-- Not modelled: the services' controllers and clients, connections, timers and logs; the services
-- catalog, identity and analytics, the workers, the gateway, and of the MCP server and the web
-- application all but the rate limits and the cache of resources; of the bookings the other listings,
-- the summaries and the service that calls the repositories; relays whose drains overlap.
pub mod Prelude
pub mod Payment
pub mod Redis
pub mod SeatHold
pub mod SeatState
pub mod SeatInventory
pub mod Booking
pub mod RateLimit
pub mod ResourceCache
pub mod OutboxRelay
