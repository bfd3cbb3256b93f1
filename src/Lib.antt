-- ===== src/Lib.antt =====
-- Relationship OS: a private chat service. Its API (apps/api/src) keeps conversations of an owner and
-- a recipient in a database, numbers their messages, and hands each one over, through an outbox table
-- that is written together with it, to a background worker that delivers it to Discord, webhooks and
-- Signal. Clients log in by password or by an enrollment token, read history by sequence number, and
-- listen on WebSockets: they synchronise after the last number they know, and see new messages live.
--
-- How the parts interact: a request runs in a database session of its own (`Db.Session.get_db`), is
-- authenticated by its token (`Auth.Token`), passes the check of its conversation (`Message.Access`)
-- and calls a service. `Message.Send.send_message` writes the message, two delivery rows and a pending
-- outbox event. `Outbox.Worker.process_batch` later picks the events that are due, calls
-- `Outbox.Router.route_event` for each, and moves the event to its next state. The handlers of a
-- socket (`WebSocket.Frames`) call the same services in sessions of their own and broadcast through
-- the rooms of `Hub`; `Sdk` is the other end of a socket.
--
-- Which file models what:
--   * Base: tests on numbers and texts, tables as lists of rows, insertion sort; no code of its own.
--   * Shared: packages/shared/src/constants.py and models.py, core/exceptions.py, core/config.py (the
--     settings, and Secret for their validators).
--   * Db: models/*.py (a record for each table) and core/database.py. A session is the committed
--     database and what the session sees; an `Action` may raise, and `get_db` commits or rolls back.
--   * Message: services/message_service.py. Access is the access check and the creation of a room,
--     Send is `send_message`, History is `get_history` and `search_messages`.
--   * Read, Presence: services/read_service.py and services/presence_service.py.
--   * Outbox: services/outbox_worker.py. Router is `IntegrationRouter`, Worker is `process_batch`
--     and the polls of `_run_loop`.
--   * Auth: services/auth_service.py (Account, Enrollment), core/security.py (Token), routers/auth.py
--     (Routes).
--   * Conversations: routers/conversations.py, the four routes of one conversation; Listing, their list.
--   * RateLimit: `InMemoryRateLimiter` of core/middleware.py.
--   * Hub: `ConnectionManager` of routers/websocket.py.
--   * WebSocket: the endpoint of routers/websocket.py: how a connection opens; Frames, its handlers;
--     Loop, the life of all connections. The other modules below it hold what is proved of them.
--   * Sdk: packages/sdk/python/relationship_os_sdk/ws_client.py, a client of that endpoint; Http,
--     client.py, the client of the routes.
--   * Cli: apps/cli/src/cli.py and storage.py, without the rendering.
--   * Inbound: routers/webhooks.py. Admin: routers/admin.py, with Webhooks for the registration of
--     endpoints and Integrity for the check of the numbers.
--   * Integrations: integrations/discord, integrations/webhook and integrations/signal, one file for
--     each adapter; Text is what they do to texts.
--   * Storage: services/storage_service.py and routers/attachments.py.
--   * Middleware: the two wrappers of core/middleware.py. Health: routers/health.py.
--   * App: main.py, the wrappers, handlers and routes around the routers.
--   * ImportBots: scripts/import_discord_bots.py. Seed: scripts/seed.py. Migration: apps/api/alembic/versions.
--   * Signature, Ssrf: packages/shared/src/crypto.py and ssrf.py.
--   * Tests: the theorems at concrete inputs, and runs of the model.
-- (services, core, models and routers are folders of apps/api/src.)
--
-- Choices of the model:
--   * Times are microseconds since the epoch, and one call reads the clock once; but the worker reads it
--     at the start of a batch, for the rows of deliveries, and when it settles or marks an event, each
--     time later by a delay that belongs to the attempt. Identifiers and
--     tokens that the code draws at random are arguments. Lifetimes in hours are not negative.
--   * A JSON column holds the value that it encodes; the outbox holds a text, since the code parses
--     it: the encoder is the parameter `dump`, the parser is the field `validate` of an attempt.
--   * Exceptions carry their code and status, not their text.
--   * Of the tables' constraints, those that the code runs into are written out: keys, unique pairs
--     and foreign keys of messages and participants, the keys of sessions, enrollment tokens and the
--     deliveries that the router adds, and the foreign key of these.
--   * `send_message` holds the lock of its conversation and is one step; rows are kept in the order
--     of their insertion.
--   * A WebSocket handler is one step, and what arrives at the sockets is one list in the order in
--     which it is handled: two handlers whose awaits interleave are not modelled. A send to another
--     socket succeeds or fails as the function `alive` of its moment says; a failing send to the own
--     socket is the event `failure`.
--   * Of a file system the content of each absolute path is kept.
--   * An adapter answers an attempt with success or failure, or raises. The writes of the worker may
--     fail: the flush of the lock, the commit of an attempt, and that of the mark of an error, each as a
--     field of the attempt says. After a rollback the rows that the session has loaded are expired,
--     so that the worker's loop ends in an exception when it reads the next event.
--   * bcrypt, hashlib, PyJWT, HMAC, urllib.parse, socket, the address properties of ipaddress and
--     os.path are interfaces (`Crypto`, `Jwt`, `hmac`, `Net`, `Paths`); json, the HTTP clients of
--     the adapters and of the SDK, the calls of the terminal client and `strip` of texts are
--     parameters. Of PyJWT one law is assumed: a token is read back from its issue until its expiry, which counts whole seconds. CORSMiddleware is
--     the parameter `Cors`: it answers a preflight itself, and appends headers to other responses.
--   * The sessions' autoflush is off: the lists of login sessions are in the order of the times that
--     the database has, not of those that the authentication has just set.
--   * The worker's loop until it is stopped is the list of its polls, each with its time and what its
--     attempts draw on.
--   * Starlette runs the wrapper that is added last first; the handler of `Exception` is outside all of
--     them, the other handlers are inside. A database refuses to create a table or an index whose name
--     is taken or whose tables are missing, and to drop a table that a foreign key names. PostgreSQL
--     creates the type of an enumeration with its table, and refuses one that exists.
--   * No recursion needs fuel: the loops run over lists.
--
-- Not modelled: the inside of CORSMiddleware, the static files and the lifespan of main.py; the tasks
-- that ping and sleep; two sends whose database sessions overlap; the rendering of the terminal client,
-- the launcher, the web application, the configuration of Alembic, and scripts/verify_integrity.py.
pub mod Base
pub mod Shared
pub mod Db
pub mod Message
pub mod Read
pub mod Conversations
pub mod Presence
pub mod Outbox
pub mod Auth
pub mod RateLimit
pub mod Hub
pub mod Signature
pub mod Ssrf
pub mod Inbound
pub mod Admin
pub mod Integrations
pub mod WebSocket
pub mod Sdk
pub mod Seed
pub mod ImportBots
pub mod Migration
pub mod Cli
pub mod Storage
pub mod Middleware
pub mod Health
pub mod App
pub mod Tests
