-- ===== src/Lib.antt =====
-- TicketRemaster: seats of events are held, bought, resold and checked by a set of services in
-- Python, each with its own database, and of orchestrators that call several of them in a row.
--
-- The parts and the files:
--   Seats      services/seat-inventory-service. `SeatState` (Seats/Model) is the committed rows of
--              `seat_inventory`, the two key spaces of Redis and the dead letters. Seats/Cache has the
--              Redis helpers of grpc_server.py, Seats/Hold has `HoldSeat` with its retry loop,
--              Seats/Calls `ReleaseSeat`, `SellSeat` and `GetSeatStatus`, Seats/Routes the routes of
--              routes.py that write or look for a hold. Seats/Change is the abstract life of a row,
--              Seats/Refine and Seats/Steps relate every call to it, Seats/Steps has runs of the
--              service, the other files are about single calls and pairs of them,
--              Seats/Race about a call inside another.
--   Services   the services that own one table each, as functions from the table to a result and a
--              table: services/ticket-service (Tickets), services/marketplace-service (Listings),
--              services/transfer-service (Transfers), services/credit-transaction-service (Ledger),
--              services/user-service (Users, and Resets for the tokens that reset a password),
--              services/event-service (Events), services/ticket-log-service (Logs). Pages has the
--              pages that list routes answer, ListRoutes those routes.
--   World      what an orchestrator acts on. `World` has the clock, the state of every service and
--              the fates of the calls to come; `Action` is a handler that ends with a value or with
--              an error code. World/Calls has the calls, World/Hoare rules for what holds after an
--              action, World/Frame statements on one table that calls keep,
--              World/Calm calls that are all delivered.
--   Purchase   orchestrators/ticket-purchase-orchestrator/routes.py: `confirm_purchase` with its
--              compensation (Confirm), the routes that hold and release a seat and the consumer of
--              dlx_consumer.py (Holds), the circuit breaker of `_get_redis_client` (Breaker), and
--              that of service_client.py (ServiceBreaker).
--   Transfer   orchestrators/transfer-orchestrator: `_execute_saga` of routes.py with its exception
--              handler (Saga), the routes that write (Routes) and those that read (the View files),
--              sequences of the former (Sequence), and timeout_consumer.py (Timeout). Credits follows
--              the balances through the saga, the Gate files follow the buyer's code through all
--              routes, TicketLost the ticket.
--   Verify     orchestrators/ticket-verification-orchestrator/routes.py: `scan` and `manual_verify`
--              (Scan), repeated checks (Once) and refused ones (Refusal).
--   Market     orchestrators/marketplace-orchestrator (Resale), orchestrators/qr-orchestrator (Code), and
--              orchestrators/credit-orchestrator with services/stripe-wrapper (TopUp).
--   Otp        services/otp-wrapper/routes.py (Wrapper), its limit for one request (Limit) and for
--              requests that overlap (Overlap).
--   Web, Base  error codes and results; tables, integers and Boolean tests.
--
-- How the code is read. Identifiers, tokens and texts that the code only compares are numbers, with 0
-- for the empty text. A time is a number of seconds in UTC, an amount of money a whole number of
-- cents; the code has floats there, and no rounding is modelled. A database transaction is one step:
-- `HoldSeat`, `ReleaseSeat` and `SellSeat` lock the row from the query to the commit, and an exception
-- leaves the rows as they were. `GetSeatStatus` takes no lock; it is one step too, but for Seats/Race,
-- which has its read and its write apart. Which
-- calls raise, what the clock reads and what `uuid4` gives are inputs (`HoldEnv`, `CallEnv`). A use
-- of Redis has as inputs whether there is a client and which attempts fail (`Redis`); entries that
-- run out or are evicted are the step `redis` of Seats/Steps. Time passes between calls only.
--
-- A call over HTTP or gRPC meets a fate: it is answered, it never arrives, or its answer is lost after
-- it was served; the list of fates is arbitrary, and after its end every call is answered. A read that
-- the client repeats counts as one call. `meanwhile` is what other requests do between the calls of a
-- handler: a function of the number of the call and of the world, about which a theorem states what it
-- needs. The credit service (OutSystems) is outside the repository: `CreditService` has its state and
-- its two calls as parameters. So is the OTP wrapper for the transfers (`OtpService`): what it answers to
-- the n-th call. For the password reset, `stored` is what a column of times answers for a time. Stripe
-- (`Stripe`) and the provider behind the OTP wrapper (`Verdict`) are parameters as well.
--
-- Bounds: MAX_DEADLOCK_RETRIES and CACHE_RETRY_ATTEMPTS are arbitrary numbers, and the loops are
-- recursions on the attempts that are left, so no fuel is needed. REDIS_CB_FAILURE_THRESHOLD and
-- REDIS_CB_RECOVERY_SECONDS and the three numbers of CIRCUIT_BREAKER_* are arbitrary as well. MAX_RETRIES
-- of `_publish_hold_ttl` is 3, as in the code; the three attempts of `_publish_transfer_timeout` are one
-- input. SCAN_LOCK_MAX_RETRIES, QR_TTL_SECONDS and CLOCK_SKEW_SECONDS are arbitrary, and the lock of a
-- scan is what Redis answers to each attempt.
--
-- Not modelled: orchestrators/event-orchestrator and orchestrators/auth-orchestrator, the venue
-- and seat catalogues, notifications, what is read only to decorate an answer, logging and
-- telemetry, generated stubs, migrations and scripts. A gRPC stub can always be made, and JSON
-- bodies that an orchestrator sends are well formed.
pub mod Base
pub mod Market
pub mod Otp
pub mod Purchase
pub mod Seats
pub mod Services
pub mod Transfer
pub mod Verify
pub mod Web
pub mod World
