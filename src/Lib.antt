-- ===== src/Lib.antt =====
-- api-pizza, the backend of a multi-tenant platform for restaurants (app/, Python, SQLAlchemy): a
-- verification library beside the code.
--
-- The program is a set of services on the database of one tenant. A change of an order's status is
-- the centre: it moves the delivery of the order, its stock, its promotion code and its card
-- guarantee with it. Drivers and the counter act on deliveries and end them by a change of status;
-- refunds give back what payments brought in; loyalty points are a ledger of their own.
--
-- Files, and the code that they are about:
--   Base: helpers. Rows is a table (a query by a test, the assignment to a row that was found, an
--     aggregate), Outcome an AppError as a value and a service that commits or rolls back, Errors
--     the error codes, Texts the strings as code points, Int the integers, Waiting the requests that
--     wait between their check and their write.
--   Store: the tables of a tenant in one record, and Env, what one call reads from outside them.
--   Orders: app/modules/orders/service.py. Status is VALID_TRANSITIONS and the sets beside it, Update
--     the guards of update_status and its effect up to the commit, AfterCommit what follows the
--     commit, Service update_status and cancel_my_order whole. Parts takes a change that returned
--     apart; Preparation is update_station_preparation. Keeps, Sync, Transitions, Stays, Funded,
--     Routes, Lawful, Restock, Queue, Stations and Customer are proofs.
--   Delivery: Lifecycle is app/modules/delivery/lifecycle.py; Rules, Assign, Claim, Arrive and Courier
--     are dispatch_service.py and dispatch_settings.py there, Proof is proof.py, Report is
--     report_failure of failures.py and Resolve its resolve_failure. OneLive, Fleet, Takes, Ends,
--     Reachable, Capacity, Attempts, Stages, HandOver, Waited, Untouched, Resolved and Retained are
--     proofs.
--   Stock: Movements is deduct_for_order and restore_for_order of app/modules/stock/service.py;
--     RoundTrip and Sufficient are proofs.
--   Payments: Guarantee is release, capture and settlement in cash of app/modules/payments/guarantee.py,
--     Refunds is create_refund of app/modules/payments/service.py; Covered, Whole and
--     Capture are proofs.
--   Hr: Tables is the rows of app/modules/hr/models.py that the presence of a driver is read from,
--     Clock the time clock of app/modules/hr/service.py on its own tables; OneOpen, Overlap
--     and Lateness are proofs.
--   Loyalty: app/modules/loyalty/account/service.py. Ledger is its rows, Account its operations;
--     Sound, Requests and Reservations are proofs.
--   Kds: app/modules/kds/service.py. Tables is its rows, Pairing its screens, codes and the pairing
--     of a remote, Remotes the sessions, Requests a history of all; OneUsable, Draws, Paired and
--     Revoked are proofs.
--   Promotions: app/modules/promotions/service.py. Discounts is what codes take off, Service their
--     preview and use, Admin their administration, Requests a history of all; Totals, Counter and
--     Quota are proofs.
--   Auth: app/modules/auth/service.py. Mfa is the second factor, Sessions the login and the rotation
--     of sessions, Passwords the passwords and addresses, Requests a history of all; Kept,
--     Spent, Rotation and Login are proofs.
--   Tests: runs on small stores, and the theorems at these.
--
-- How the code is modelled. A table is a list of rows, the newest first; a service is a function
-- from the store to a result and the store that stays committed. An error of update_status leaves
-- the tables as they were because the session of its caller is closed without a commit; what a
-- service commits before it raises is kept. A service that commits in steps (a hand-over: the
-- attempt of a code, the settlement, the change of status) keeps the steps before the one that
-- failed. A history is a list of requests, each over before the next begins. For the changes of
-- status, assignments, claims, guarantees, sessions of remotes and uses of promotion codes, the
-- source takes a row lock or writes by one conditional update. It takes none in create_refund, in
-- verify_code, in the time clock, in add_points and create_checkout_reservation, in
-- create_pairing_code, nor for the first read of cancel_my_order, and resolve_failure gives its own back before it acts: what is proved of these
-- speaks of requests that do not overlap, but for the attempts of a code, the arrivals and the
-- exchange of a refresh token, where the read and the write are steps of their own and others may come between.
-- A read and its write are functions of their own (check_refund and settle_refund,
-- check_clock_in and open_entry, get_or_create_account and write_points, retire_codes and add_code,
-- check_cancellation and update_status), and runs in Tests show what two requests do that overlap.
-- Money is in cents, an instant in seconds; stock and loyalty points are integers that may be
-- negative; a column with a closed set of strings is a data type, with a constructor for the other
-- strings where the code can meet them. Loops run over lists, so no fuel is needed, but for the ten
-- draws of a pairing code or a token, which the source bounds as well. Env holds the clock, random
-- values, the answer of Stripe, the recipes' quantities of an order, the usable quantity of an
-- ingredient, the estimated minutes of a departure, the HMAC of a code and the digits of the
-- regular expressions. KdsEnv, PromoEnv and AuthEnv hold the clock, the draws, the hashes and
-- signatures and the rounding of a percentage for their services, which stand on tables of their
-- own. A constraint of the database that a service does not look for beforehand is an error of its
-- own (integrity_error). Notifications, mails and jobs are the list of effects that a change of
-- status tries.
--
-- Not modelled: the creation of orders and the preparation of one item; payment
-- intents, payment links and webhooks; batches, recipes and supply of the stock,
-- and the product availability that follows from it; campaigns of codes and statistics; points earned
-- by an order; prices and zones of delivery (floating point); positions of drivers; catalog, HACCP,
-- point of sale; the encrypted payload of a QR code; the registration of a restaurant and the
-- administration; routers, migrations, workers and scripts.
pub mod Base
pub mod Orders
pub mod Delivery
pub mod Payments
pub mod Stock
pub mod Hr
pub mod Kds
pub mod Promotions
pub mod Auth
pub mod Store
pub mod Loyalty
mod Tests
