-- ===== src/Lib.antt =====
-- Electa Systems, a governance execution API: companies hold proposals, shareholders vote on them
-- with the weight of their shares or delegate that weight, and a decision engine tallies and closes
-- them. Requests arrive at the routers, which read and write one database session each, append to
-- the audit log and publish to an event bus; a scheduler closes what has run out.
--
--   Base        lists, tests on numbers and texts, selections by a Boolean test
--   Float       the doubles of Python and of the database: a type and operations that are parameters,
--               with what IEEE 754 promises of them as FloatLaws; Float/Fixed is an instance on ten-
--               thousandths for the examples, Float/Sum is Python's `sum`
--   Model       db_models.py and schemas.py: a record for each table and request, a data type for each
--               enumeration, the database as a list of rows for each table (Model/Db)
--   Text        the methods of `str` that the code calls
--   Query       ORDER BY, OFFSET and LIMIT: the orderings are parameters with what SQL promises of
--               them as OrderByLaws, of which Query/Sorting has an instance
--   Settings    config.py
--   Database    database.py: the arguments of the engine and of the sessions
--   Http        HTTPException and the database's IntegrityError as values
--   Handler     database.py's get_db and audit.py: a handler takes the database and the bus and
--               returns a result with both; `in_session` is the commit or the rollback around it
--   Bus         event_bus.py: EventBus.publish is Bus.publish, and so on; `none` in a queue is the
--               shutdown sentinel
--   Engine      decision_engine.py under its function names; tally_votes is tally_proposal after its
--               two queries
--   Votes       votes.py: cast_vote, of which delegate_vote and record_vote are the two branches and
--               Votes/Checks the guards; list_votes and get_proposal_audit in Votes/Listing
--   Proposals   proposals.py: create_proposal, update_status, force_close, get_result, and
--               list_proposals and get_proposal in Proposals/Listing
--   Scheduler   scheduler.py: tick is _tick, close_proposal is _close_proposal; Scheduler/Loop is _loop
--               with the exceptions that are caught
--   Users       users.py: create_user, read_user (get_user of the router), deactivate_user, list_users
--   Entities    entities.py: create_entity, read_entity, upsert_ownership, get_ownership_table,
--               list_entities
--   Limiter     rate_limiter.py: is_allowed and cleanup of SlidingWindowRateLimiter
--   Middleware  rate_limiter.py: dispatch of RateLimitMiddleware, of which `limit` is the call of the
--               limiter that is picked
--   Webhooks    webhook_service.py (Webhooks/Service) and webhooks.py (Webhooks/Reads, Webhooks/Routes)
--               under their function names; `attempts` is the inner loop of the dispatch
--   Events      events.py: sse_loop and socket_loop are the loops of the two streams, on what their
--               waits come to
--   Admin       admin.py: the reports; report_on is participation_report after its 404, Admin/Ballots
--               its dict of votes
--   Crypto      crypto.py over the libraries; crypto_of gives votes.py its two functions
--   Startup     startup_hooks.py, the lifespan of main.py, start and stop of the scheduler
--   Cli         cli.py: the commands on the database; Cli/Seed is the demo data, Cli/Arguments the
--               subcommands that main declares, Cli/Main what it runs, Cli/Printing what is printed
--   Main        main.py: the application around the routes; `serve` is a request through all of its
--               layers, `route` a handler in its session, Starlette and FastAPI a parameter
--   System      the application as a whole: `perform` is one operation of a route, of the scheduler,
--               of a delivery or of the command line, and `run` any sequence of them; System/Life is the
--               steps that a proposal can take
--   Tests       a small company, on which the theorems are applied
--
-- Conventions. Times are Unix seconds and natural numbers. What a call draws from its surroundings
-- (the times that it reads, the ids of uuid4, the client's address) is a context record, an argument.
-- The checks of a router that only read are in the Result monad, its writes in Handler. A Python
-- `if x` on an optional number or text is false on zero and on the empty text, and the model keeps
-- that. Queries without an order that decides anything return rows in the order of insertion; SQL's
-- SUM is a parameter, since the order of its additions is the database's. FastAPI has checked the
-- ranges of `skip` and `limit` before a route is called. Every loop is structural but one: the decimal
-- text of a number runs on one more than the number as fuel, which is more than it has digits.
--
-- Concurrency. An operation that holds a lock is one step. While a webhook sleeps between two
-- attempts, other tasks run: what they do to the database is an argument of the dispatch. The two
-- tasks of a WebSocket are one sequence of what they meet. Between the start and the stop of the
-- application the calls of the bus are a sequence.
--
-- Not modelled: the asyncio tasks and locks themselves, a database that fails but under the
-- scheduler, where a rollback that itself raises would end the turn,
-- the signature and hashing libraries, argparse and the framework (parameters), the length of the
-- pause between two attempts of a webhook, FastAPI's routing by prefix, the lines that seed prints,
-- the example client, which is a script of requests against a running server, and env.py, which only
-- hands the settings to Alembic; foreign keys, but for the creator of a proposal. A run of System has
-- no reset of the command line, which drops the tables, and no operation that only reads.
pub mod Base
pub mod Float
pub mod Text
pub mod Query
pub mod Model
pub mod Bus
pub mod Http
pub mod Settings
pub mod Database
pub mod Engine
pub mod Handler
pub mod Votes
pub mod Proposals
pub mod Scheduler
pub mod Limiter
pub mod Webhooks
pub mod Admin
pub mod Cli
pub mod Startup
pub mod System
pub mod Crypto
pub mod Middleware
pub mod Main
pub mod Events
pub mod Users
pub mod Entities
mod Tests
