-- ===== src/Lib.antt =====
-- Zero Auth Lite: a model of the authorization server's token flows and consent, of its workflow
-- tokens, user updates and deletion, and of its notification outbox and dispatcher.
--
-- Parts and how they interact. A request runs in one database session, which commits when the
-- handler returns and rolls back when it raises (`app/db/dependencies.py`); some steps commit in a
-- transaction of their own. The token endpoint calls one handler per grant: the refresh handler
-- (`app/oauth2/tokens/refresh.py`) rotates the refresh token of a family and revokes the family when
-- an old token returns; the device handler (`app/oauth2/devices/polling.py`) polls an authorization
-- that a signed-in user decides (`app/oauth2/devices/authorization.py`) and consumes it; the code
-- exchange (`app/oauth2/authorization/code_exchange.py`) consumes an authorization code, which a user
-- has granted in an interaction (`app/oauth2/authorization/interaction.py`). All check the client
-- (`app/oauth2/clients`), the scope (`app/oauth2/validation.py`) and the user
-- (`app/oauth2/user_identity.py`), and issue tokens (`app/oauth2/tokens/access.py`,
-- `app/oauth2/tokens/issuance.py`). Apart from them, worker processes claim, deliver and finalize
-- notification events under leases (`app/notifications/lease.py`).
--
-- Files.
--   Prelude              shared names, Boolean tests on native numbers, lists, texts
--   Table                SELECT, UPDATE and DELETE on a list of rows; Table/Keyed: unique keys
--   Database             sessions, transactions and errors; Database/Laws: rules for postconditions
--   Notifications        Outbox (rows and constraints), Retry (`_retry_delay_seconds`), Lease (each
--                        function of lease.py by its name without the underscore), Workers
--                        (interleavings of worker transactions), Dispatcher (one pass of
--                        `app/notifications/dispatcher.py`; Claims, Settling, Release, Flight and
--                        Progress are about it); Workers/Removal, Finality and Exclusion are about runs
--   Oauth2/Tables        the rows of `app/db/models` that the flows read, and the tables together
--   Oauth2/Settings, Errors, Scopes, Clients, Identity, Issuance
--                        the settings, errors and helpers, each under the source's name
--   Oauth2/Flows         rules for the steps of a request that has committed nothing
--   Oauth2/Refresh       refresh.py, function by function; Steps, Rotation and Handler follow the
--                        handler; Reuse, Spent and SingleUse are about a token's second use
--   Oauth2/Devices       Polling (`evaluate_device_poll`), Decisions
--                        (`decide_device_authorization`), Grant (`handle_device_code_grant`);
--                        Lifecycle, Histories and Finality are about interleavings, Exchange,
--                        Handler, SingleUse and Approver about the grant
--   Oauth2/CodeExchange  `app/oauth2/authorization/code_exchange.py`, function by function; Steps and
--                        SingleUse follow its handler
--   Oauth2/Interactions  `app/oauth2/authorization/interaction.py`; Transactions is its table
--                        (`app/oauth2/authorization/transaction.py`), Histories and SingleUse are about
--                        sequences of requests
--   Oauth2/Revocation    `revoke` of `app/oauth2/tokens/revocation.py`; Revocation/Effects
--   Oauth2/SessionStatus the two tests of `app/oauth2/sessions/status.py`, SQL's unknown included
--   WorkflowTokens       Rows (the table), Service (`app/workflow_tokens/service.py`, function by
--                        function); Slots, Effects, Searches, Writes and Issued are lemmas about the table,
--                        Requests serves sequences of calls, SingleUse and Refinement are about them
--   Identity             AccessInvariants (`app/identity/services/access_invariants.py`), Deletion
--                        (`delete` of `app/identity/services/lifecycle.py`), UserUpdates (`update` of
--                        it, for a command without a new address); Counts, Guarantees and
--                        Survivors are lemmas, LastAccess is about deletions, Updates about the
--                        protection of updates, UserUpdates/Rights and Access about what they write
--   Tests                concrete runs
--
-- State and operations. A table is a list of rows, and a statement is one of the functions of Table.
-- A handler is a function from a connection (what is committed, and the request's own writes) to an
-- outcome and a connection; `request` runs it and keeps the writes or not. A failed statement on a
-- unique column is an error value. Concurrency is stated over whole transactions: histories and runs
-- are sequences of transactions by any callers at any times. Between two statements of one request
-- no other request acts, which the writer lock of SQLite gives from a request's first write on.
--
-- Numbers, times and fuel. Integers are natural numbers without a bound, as in Python; the source
-- has no negative ones here, but for the seconds left before a deadline, which are 0 where the
-- source's are negative and are compared in the same way. Times are microseconds since the epoch,
-- and `seconds n` is n * 1000000 of them. All loops are structural recursions; `bit_length` runs on
-- fuel, and a number is enough fuel for its own bits.
--
-- Workflow tokens (`app/workflow_tokens`) are one-time links for invitations, verification and
-- resets. Each call of their service runs in a transaction of its caller; one that raises is rolled
-- back.
--
-- User administration (`app/identity`) refuses to withdraw or delete the last operator of the
-- server and the last administrator of an organization.
--
-- Parameters. The request service of `app/oauth2/authorization/request.py` is the record
-- Oauth2/Interactions.AuthorizationService, of which no law is assumed. The event registry, the
-- message builder and the mail service that the dispatcher calls are the fields of
-- Notifications/Dispatcher.Delivery, of which no law is assumed; the exception of
-- `build_mail_service` is a field of its Turn. SHA-256 and HMAC of the workflow tokens are the fields
-- of WorkflowTokens/Rows.TokenCrypto, of which no law is assumed. HMAC-SHA-256, the S256 challenge and
-- the signatures of tokens are fields of Oauth2/Settings.Platform, of which no law is assumed. Clock readings and random values are
-- arguments, in records named after the flow, in the order of their use. `one_or_none` on a unique
-- column is the first row. The key of a new row is one more than the greatest.
--
-- Not modelled. Reads of old snapshots before the first write, foreign keys and cascades (but for the
-- deletion of a user's addresses and membership), created_at and updated_at columns, failing
-- statements of the dispatcher, logging, the parsing and serialization of requests, password hashing, and
-- the parts of the server beside the flows above: the request service
-- that creates authorization codes, introspection, browser sessions, most of the administration and
-- the web pages.
pub mod Prelude
pub mod Table
pub mod Database
pub mod Notifications
pub mod Oauth2
pub mod WorkflowTokens
pub mod Identity
pub mod Tests
