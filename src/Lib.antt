-- ===== src/Lib.antt =====
-- MatchMate: the booking, payment, event, notification and moderation services and the matching
-- engine.
--
-- The program is a set of Go services, each with its own PostgreSQL tables. The event service keeps
-- the events and their lifecycle. The booking service reads an event from it, takes a seat and holds
-- a booking until it is paid, cancelled or expired. The payment service reads the held booking,
-- starts a checkout at PayHere, and settles the payment when PayHere's notification arrives; the
-- fact that it writes into its outbox comes to the booking service as a payment event. The
-- matchmaking service pairs the participants of an event. The notification service turns the facts
-- of the booking and account services into deliveries, which a worker sends with retries, and into
-- the items of a member feed. The moderation service keeps reports, the cases that they open, and
-- the actions and appeals on them.
--
-- Which file models which part:
--   Booking/Domain       services/booking-service/internal/domain/booking.go
--   Booking/Store        the tables of services/booking-service (migrations/000001_init.up.sql)
--                        and what the transactions of internal/store/postgres/repository.go share;
--                        in its Creations, Cancellations, Expirations and Payments the
--                        transactions Create with Get, Cancel, Expire, ApplyPaymentEvent
--   Booking/Lists        List and ListForEvent of the booking service
--   Booking/Service      services/booking-service/internal/application/service.go
--   Payment/Domain       services/payment-service/internal/domain/payment.go and
--                        internal/payhere/payhere.go
--   Payment/Store        the tables of services/payment-service (migrations/000001_init.up.sql)
--                        and what the transactions of internal/store/postgres/repository.go share;
--                        in its Checkouts, Callbacks and Reconciliation the operations Initiate
--                        with FindByBooking, ApplyCallback, OpenPendingReconciliation
--   Payment/Service      services/payment-service/internal/application/service.go
--   Event/Domain         services/event-service/internal/domain/event.go and validation.go
--   Event/Store          services/event-service/internal/store/postgres/repository.go
--   Event/Service        services/event-service/internal/application/service.go
--   Event/Listing        the paged lists of the event service
--   Matchmaking/Domain   services/matchmaking-service/internal/domain/types.go
--   Matchmaking/Engine   services/matchmaking-service/internal/engine/engine.go
--   Notification/Domain  services/notification-service/internal/domain/models.go
--   Notification/Router  services/notification-service/internal/application/router.go
--   Notification/Store   the tables of services/notification-service/migrations; its children
--                        Events (ApplyEvent), Attempts (ClaimDue, CompleteAttempt) and Reads (the
--                        feed) are internal/store/postgres/repository.go, Commands their sequences
--   Notification/Worker  services/notification-service/internal/delivery/worker.go
--   Notification/Service services/notification-service/internal/application: service.go, feed.go
--   Moderation/Domain    services/moderation-service/internal/domain/models.go and validation.go
--   Moderation/Store     the tables of services/moderation-service/migrations; its children Cases and
--                        Actions are internal/store/postgres/repository.go, Commands their sequences
--   Moderation/Service   services/moderation-service/internal/application/service.go
--   Base                 comparisons, lists, tables, results and texts that the models share
--   Tests                runs on concrete inputs
-- The other children of Store, Service, Worker and Engine modules hold lemmas and theorems only.
--
-- How state and operations correspond. A Db record is the contents of the tables, a list of rows for
-- each. A repository method is a function from a Db to an error or to a result with the new Db, since
-- each runs in one transaction that is rolled back on every error. Its argument `fault` says which
-- of its round trips to the database fail (begin, each statement, commit, by number), and `ids` are
-- the UUIDs that it draws. Row locks make the transactions that meet on a row run one after the
-- other; a list of Commands is such an order. Times and money in the tables are what the code
-- compares: an instant is a natural number, an amount is its text.
--
-- The hash functions, strings.ToUpper, strings.ToLower, the time zone data and the text that
-- PostgreSQL gives for a price, text/template, base64, UUID syntax and the decoding of JSON are
-- arguments. Loops over rows are structural. In the assignment of pairs the search for a free
-- column and the walk back along its path have n + 1 rounds of fuel for n rows: a round of the
-- search marks a new column, and the walk visits marked columns once. Quotients of integers that
-- the engine rounds as floats are exact here.
--
-- Not modelled: HTTP, tokens, JSON, configuration, the gateway and the front end (input and output
-- only); Evaluate under weights that are negative or leave the int64; the rows of the outbox after
-- they are written; the account service; the paged lists and the JSON bodies of facts in the
-- moderation service; the upload of images around SaveImage; the stored runs of the matchmaking
-- service.
pub mod Base
pub mod Booking
pub mod Payment
pub mod Matchmaking
pub mod Moderation
pub mod Notification
pub mod Event
pub mod Tests
