-- ===== src/Lib.antt =====
-- War Thunder rent bot (app/): a bot that rents out game accounts for FunPay orders. An order
-- reserves a free account; durable operations (disable the lots, send the credentials, revoke the
-- sessions, rotate the password, enable the lots) carry the rental through its states, and workers,
-- a startup recovery, an expiry timer and an email watcher all move them through one SQLite
-- database. This library models that database layer, the domain it stands on, and the services above
-- them, over ports whose answers are arbitrary.
--
-- Files and code:
--   Prelude          names that the modules share, Boolean tests, equality as an instance
--   Domain/States    app/domain/states.py, and the security states of an operation's row
--   Domain/Transitions  app/domain/transitions.py: the two tables of legal transitions; Graph on the
--       histories that they allow
--   Domain/Models    app/domain/models.py: OrderInput, StartResult
--   Table            what the code uses of SQL, over the list of a table's rows
--   Persistence/Rows app/persistence/models.py: the columns of each table
--   Persistence/Session  a SQLAlchemy session in a `session.begin()` block: the database as a
--       record of tables, conditional updates with their rowcount, inserts with their constraints,
--       and the action type Tx, in which an error carries no database: it is rolled back
--   Persistence/Repository  app/persistence/repositories.py, one function per method, by topic:
--       Internal (_operation, _audit, _transition_rental, _transition_account as transition_row),
--       Queries, Reservation, Claims, Security, Completion, Expiry and Recovery
--   Persistence/Repository/Claims/Fencing  who owns an operation
--   Persistence/Booking  the invariant on rentals and accounts, its preservation by each method,
--       and in Booking/Steps the reachable databases
--   Persistence/Reserved, FailClosed, Deadlines  what a reservation, a failure and an expiry leave
--   Persistence/Emails  app/persistence/classified_email_events.py: Inbox (store_event), Codes (the
--       claims of a code and the marks that end them), Alerts (security events); Once and Buyer on
--       who may claim a code
--   Persistence/FunPayEvents  app/persistence/funpay_events.py: the inbox of FunPay events and the
--       receipts; Once on events that are processed
--   Persistence/Booking/Inbox, InboxSteps, Code  the transactions of the two inboxes among those steps
--   Persistence/Booking/Runs  any number of steps
--   Domain/PixelStorm, Domain/FunPay  app/domain/pixelstorm.py, funpay.py, notifications.py
--   Application/World  what a service runs in: the database, the outside, the owner's notifications,
--       the calls on record, and the attributes that services keep; an exception leaves behind what
--       was committed before it
--   Application/Ports  app/domain/ports.py as records of functions, and the services' settings
--   Application/Lease  app/application/lease_guard.py; Laws on its answer
--   Application/Codes  otp_service.py, password_rotator.py, pixelstorm_otp.py
--   Application/Security  pixelstorm_security.py: Authenticate, Revoke, Rotate
--   Application/Rentals  rental_manager.py; Operations has run_operations and the recovery of receipts
--   Application/Startup  startup_reconciliation.py
--   Application/Events  funpay_dispatcher.py
--   Application/Mail  gmail_watcher.py, security_monitor.py, email_event_dispatcher.py
--   Application/Runtime  scheduler.py, runtime.py
--   Application/Moves  each service moves the database by steps of the repositories; Refinement puts
--       them together
--   Application/Confirmed  what a completed security operation has verified, from the calls that the
--       world has on record: Held and Known on those calls, Rotation and Outcomes on the service
--   Application/Examples, Witnesses  an outside that answers, and the theorems applied to it
--   Adapters/Vault, Adapters/Secrets  app/adapters/production_stores.py: the vault, and the stores of
--       credentials, sessions and email secrets on it
--   Adapters/Session  app/adapters/session_backed_funpay.py, which fills the port of FunPay
--   Adapters/Html, Adapters/Classifier  app/adapters/email_classifier.py: the parser with the search
--       for a code (Html), and EmailClassifier
--   Adapters/Examples  a vault without protection and a transport, for those theorems
--   Persistence/Failures  two histories in which a repair of the restart raises
--   Persistence/Examples, Emails/Examples, FunPayEvents/Examples  small histories,
--       and the theorems applied to them
--
-- How the model reads the code:
--   * Ids, codes, tariffs and claim tokens are texts that the code only compares: they are natural
--     numbers, account codes in the order of the texts. A datetime is a natural number of
--     microseconds, timezone-aware.
--   * What uuid4() returns is an argument. Nothing assumes that it is fresh: an id that is taken
--     raises the IntegrityError of the table's constraint.
--   * Every method is one transaction; a transaction sees the database that the one before it left
--     (SQLite serialises writers). The retry loop of reserve_order takes what each attempt meets as
--     an argument: whether SQLite is busy, and what other processes commit during its sleep. Its
--     fuel is the loop's bound of five attempts, and so it is for recover_expired_leases.
--   * A query without ORDER BY returns rows in the order of insertion.
--   * extension_seconds is a natural number, so that a negative one, which the code refuses, is 0.
--   * `now - timedelta(seconds=n) > t` is `t + n < now`: a datetime before year 1 does not occur.
--   * Columns that nothing reads are left out: safe_metadata, an account's rotation_state, the
--     severity of a security event, an operation's correlation_id, and the generated keys of audit
--     and security events.
--   * A port is a function of a state that only the outside sees, and may raise. A guarded call
--     touches no database, so that its heartbeats stand after it, each after what other processes
--     committed before it; they also commit while the database is busy. Between two transactions of
--     a service that no such call parts, other processes do nothing here.
--   * SQLite stays locked, as the outside says, for the retried methods and for the renewals of the
--     lease guard: a renewal that raises ends the guard's thread, and the first one ends the call. The
--     other transactions raise only what their own code does. The renewals that a simulated clock
--     announces (`_on_clock_advance`) are left out.
--   * A call under the guard, which the model puts on record with the guard's answer, is recorded once
--     the guard has answered. What Pixel Storm is only asked for (its health, its capabilities) is not
--     on record.
--   * The events that FunPay's port returns have the form of the rows that ingest makes of them, with
--     the id that the row is given; the text of a message is compared by a field of the settings.
--   * A setting says whether an optional service was given; the repository always is.
--   * `_waiting_external`, `_notified_health` and `last_poll_at` are fields of the world. The error
--     categories and metadata that only go into notifications are left out.
--   * A key of the vault is its prefix with the id after it. The file is whole after each write
--     (`replace` is atomic).
--   * An HTML text is the list of its tokens, as html.parser gives them. Of an element's attributes only
--     `href` is kept. The regular expressions that look for a code or links in a plain text, and the
--     one of the reset path, are functions that the classifier is given.
--
-- Not modelled: parse_sanitized_eml, which reads fixtures, the generator of passwords (a port), the
-- protection of the vault (an interface), the adapters to Gmail and Pixel Storm, the sandbox, the
-- composition roots and the settings, which are I/O or wiring.
pub mod Adapters
pub mod Application
pub mod Prelude
pub mod Domain
pub mod Table
pub mod Persistence
