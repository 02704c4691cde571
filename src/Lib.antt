-- ===== src/Lib.antt =====
-- ops-monitor: servers that agents report on, automation tasks that the agents carry out, and alerts
-- over the metrics they send. The development models the Python code of the server, backend/app, and
-- of the agent, agent.
--
-- Parts, and how they interact. The API and the scheduler call the services. A service works on one
-- database session through its repositories and commits at its end; an exception rolls the session
-- back. Tasks: a user creates, confirms and cancels them, an agent fetches executions and reports
-- results, and scheduled scans time executions out, dispatch retries and fire CRON tasks. Alerts: a
-- scheduled round evaluates every rule at every server, and users acknowledge and resolve events.
-- Agents: an agent registers with a token and its public key, signs its requests, and reports
-- heartbeats, metrics, assets and services; it fetches tasks, runs them and reports their results.
-- Users: a login grants a token, and the roles of its user decide which handlers it opens. Discovery
-- probes the hosts of a network.
--
-- Which file models what (paths from the repository's root):
--   Exceptions: backend/app/exceptions, the codes and the exceptions that the code meets.
--   Common: shared names. Common/Table: BaseRepository of backend/app/repositories/base.py over a
--     table, that is rows in the order of their keys and the next key. Common/Table/Laws: what its
--     operations keep; Common/Table/Pages: its pages. Common/Action: a method as a function from a
--     session to a result and a session, or an exception; Common/Action/Post,
--     Counts and Keeps: rules for postconditions.
--   Servers: backend/app/models/server.py; Servers/Examples: a row for the tests.
--   Tasks/Model, Tasks/Repository: backend/app/models/task.py and repositories/task_repository.py.
--   Tasks/Retry, Tasks/Aggregate, Tasks/Service: backend/app/core/retry.py and
--     services/task_service.py, one function per method, with the bodies of its loops and branches
--     named. Tasks/Requests: any sequence of these calls.
--   Tasks/History, Tasks/Aggregate/Latest, Tasks/Aggregate/Current, Tasks/HandOut,
--     Tasks/Idempotency, Tasks/Counts, Tasks/Outcome, Tasks/Retry/Policy, Tasks/Cancellation: the
--     theorems. Tasks/Tests: examples.
--   Alerts/Model, Alerts/Session: backend/app/models/alert.py, models/metric.py and
--     repositories/alert_repository.py. Alerts/Value, Alerts/Engine: services/alert_engine.py.
--     Alerts/Service: services/alert_service.py. Alerts/Requests: any sequence of these calls.
--   Alerts/Steps and the modules below it, Alerts/Counts, Alerts/Recovery: the state machine of
--     alerts as a relation, and the theorems. Alerts/Tests: examples.
--   Agents/Model, Agents/Session, Agents/Signing, Agents/Resolve: the authentication of agents,
--     that is backend/app/api/v1/deps.py, core/signing.py, core/replay.py and AgentTokenRepository
--     of repositories/server_repository.py. Agents/Platform: what it takes from Python's and
--     third-party libraries and from Redis, and what the theorems rely on.
--     Agents/Resolve/Verified, Tokens, Authentic and Replay: the theorems. Agents/Tests: a cache
--     that has what is relied on, and examples.
--   Protocol/Model, Requests, Session: the rows, request bodies and database session of the agent
--     service. Protocol/Statuses, Assets: repositories/server_repository.py. Protocol/Service,
--     Registration: services/agent_service.py. Protocol/Handlers: the six handlers of
--     api/v1/agent.py that call it, with their authentication.
--   Protocol/Assets/Upsert, Deletes, Inventory, Repeats, Keys: what a query finds after rows are
--     upserted and deleted, over any table. Protocol/Disks, Networks, Services, Reports, Metrics,
--     Liveness: the theorems. Protocol/Examples, Tests: examples.
--   Client/Signer: agent/signer.py. Client/Reporter: agent/reporter/client.py. Client/Errors:
--     agent/errors.py. Client/Executor: agent/executor/service.py. Client/Worker: agent/worker.py
--     and report_task_result of agent/reporter/report.py. Client/Platform: what the signer takes
--     from cryptography and base64. The modules below them hold the theorems; Client/Tests:
--     a base64, a network and a shell that have what is relied on.
--   Users/Model, Repository: backend/app/models/user.py and repositories/user_repository.py.
--     Users/Service, Login: services/user_service.py, services/auth_service.py, core/security.py and
--     the dependencies for users of api/v1/deps.py. Users/Session: their session, and what they
--     take from passlib and PyJWT. Users/Requests: any sequence of the calls that write
--     users. Users/Access, Guard, Keys, Kept, Roles, Names: the theorems. Users/Tests: a
--     coding of tokens that has what is relied on.
--   Discovery: backend/app/services/discovery_service.py, with a probe of a host as an answer.
--     Discovery/Allowed, Scan: the theorem. Discovery/Tests: a scan.
--   Lock: backend/app/core/scheduler_lock.py, with processes as a sequence of events, and what it
--     takes from Redis. Lock/Exclusion: the theorem. Lock/Tests: a store that has what is relied
--     on.
--
-- How the state is modelled. Times are microseconds since the epoch, as natural numbers; `clock n`
-- is the n-th reading of the clock still to come, and nothing is assumed of it. Numeric columns are
-- integers of millionths, where the code converts to floats. The unique keys and the foreign key
-- that the code can run into raise IntegrityError; that of the hashes of tokens, which are random,
-- and those of disks, networks and services, which are looked up right before they are created, are
-- left out. A method whose exception rolls back carries no
-- state in its error. Rows are read in the order of their keys where the code states no other
-- order. Requests follow one another: two transactions that overlap are not modelled. The events of
-- the scheduler's lock are in any order.
--
-- Loops are over lists, by structural recursion, but for the retries of the agent's client: they run
-- on fuel, and one more round than the retries that its settings allow is enough. The agent's world
-- (network, clock, shell) is any state with any functions on it. The library that reads CRON
-- expressions is a parameter: any function from an expression and a time to a time or nothing.
-- The reading of networks from text and the answers of hosts are parameters too. passlib and PyJWT
-- are parameters, the second with the laws IsJwt; Users/Tests has an instance. Redis is a
-- parameter with the laws IsRedis or IsLockStore; Agents/Tests and Lock/Tests have a store each.
--
-- Not modelled: HTTP routing and rendering, the pages of users and roles, the monitoring queries,
-- logging, the collectors and start-up of the agent, the agent in Go, the frontend. The lengths of
-- texts are not bounded, texts are compared exactly, and the rounding of numbers and times by their
-- columns is left out. The payloads of the agent are the records that the server's schemas read.
pub mod Exceptions
pub mod Common
pub mod Servers
pub mod Tasks
pub mod Alerts
pub mod Agents
pub mod Protocol
pub mod Client
pub mod Users
pub mod Lock
pub mod Discovery
