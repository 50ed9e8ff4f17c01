-- ===== src/Lib.antt =====
-- ctreader is a backend that lets Telegram users schedule trades around economic news and has them
-- executed by MT5 terminals, by cTrader cBots, or on the server. This library models its core: what
-- the handlers of the services read, refuse, write and answer. The paths below start at the root of
-- the repository.
--
-- The parts, and how they interact. A user buys access by a subscription (Subscriptions) and pairs a
-- terminal (Pairing) or a cBot (Cbot.Pairing) by a code made of random bytes (Crypto). Creating a job
-- (TradeJobs.Create) asks the kill switch and the halt (Safety), the subscription and the settings
-- (Users), and stores one row per idempotency key. Terminals and cBots poll for their jobs
-- (TradeJobs.Poll, Cbot.Poll) and report what became of them (TradeJobs.Report, Cbot); users cancel or
-- ask to close (TradeJobs.Cancel). Every change of a status is to follow one table of transitions
-- (TradeJobs.State). cBots speak over WebSocket frames (Gateway).
--
-- Which file models which code:
--   Prelude          names and lemmas that all files share; Prelude/Effects has the handlers' type
--   Schema           prisma/schema.prisma: the rows, and the database as a record of tables
--   Config           src/config/environment.ts: the settings that the services read
--   Safety           src/safety/safety.service.ts: status, halt, resume, assertTradingOpen
--   Subscriptions    src/subscriptions/subscriptions.service.ts: grantToUser, ensureTrial,
--                    suspendByTelegramId, currentForUser, assertCanCreateJob, assertCanPairAccount;
--                    Subscriptions/Presets: subscription-presets.ts beside it, and ensurePlans
--   TradeJobs/State  src/trade-jobs/trade-job-state.ts
--   TradeJobs/Dto    src/trade-jobs/dto/create-trade-job.dto.ts
--   TradeJobs/Create, /Cancel, /Report, /Poll
--                    src/trade-jobs/trade-jobs.service.ts: createForTelegramUser,
--                    cancelForTelegramUser with the requests to close, submitReport, pollForAgent;
--                    TradeJobs/Listings: the three listings of a user's jobs
--   TradeJobs/Lawful how the table of jobs may change from one database to the next
--   Cbot, Cbot/Poll, Cbot/Pairing
--                    src/cbot/cbot.service.ts: entitlement and report, poll, and createPairingCode,
--                    claim, authenticateToken, heartbeat
--   NewsReversal     src/ctrader/news-reversal-volume.ts, news-reversal-state.ts, ctrader-risk.ts
--   Ctrader          src/ctrader/ctrader-execution.service.ts: the worker, its memory and reports;
--                    /Lease: the jobs that tick takes, renewLeases, handleDisconnect; /Orders: the
--                    checks before an order, plannedPositions, place; /Start: start; /Start/Run:
--                    its end and the timer of a market order; /Messages: onMessage; /Legs and
--                    /Reversal: the legs and the reversal of NEWS_REVERSAL jobs, with the timer of
--                    its synchronisation; /Stop: tick, reject, handleStartFailure, expire,
--                    enforceKillSwitch, enforceUserRequests;
--                    /Mock: src/ctrader/ctrader-mock-execution.service.ts
--   Strategy         src/strategy-v2/probe-strategy.math.ts: indicators, /Signals, /Quality
--                    and /Breakouts; of src/strategy-v2/probe-strategy.service.ts
--                    /Candidates: validateCandle, settleCandidates, /Positions: what managePosition
--                    decides, /Closing: closePosition
--   Pairing          src/pairing/pairing.service.ts: create and claim
--   Crypto           src/common/crypto.ts: createPairingCode
--   Users            src/users/users.service.ts: the updates of the settings
--   Agents           src/agents/agents.service.ts: heartbeat
--   Gateway          src/cbot/cbot-websocket.gateway.ts: consume and sendFrame
--   Tests            sample data, runs, and each theorem at a concrete input
-- Names are the source's in snake_case. The other child modules hold proofs.
--
-- How state is modelled. A handler is an action `Exec Db A`: it takes the database and returns a
-- result, a value or an exception with its message, and the database after it. What was written
-- before a throw stays written; inside a transaction it is taken back. A table is the list of its
-- rows, the newest first. Ids, keys, hashes, account numbers and names of brokers are numbers that
-- are only compared. A date is its milliseconds since the epoch, a lot counts steps of 0.0001 and a
-- percentage steps of 0.01. The clock, fresh ids, random bytes and tokens are arguments of the
-- handlers, `now` being one reading of the clock. The HMAC of src/common/crypto.ts is a parameter of
-- the claims, of which nothing is assumed. A claim is split at its transaction, so that claims may
-- interleave between its checks and its writes.
--
-- The worker for cTrader has a state of its own, `World`: the database, its connections, what it sent
-- to the broker. A handler of it that cannot throw is a function of that state; handlers run one after
-- the other, each to its end. The broker's answers, and the floating-point arithmetic of prices and
-- volumes, are arguments. Distances are in points; an order is its payload: side, volume, price, stop
-- loss, take profit, end and label. A timer that is set is a column of the connection, and its end is a
-- step of its own.
--
-- Bounds. Only the loop of the gateway runs on fuel: the length of its buffer, of which each frame
-- takes at least its header. The other loops go down a list.
--
-- Left out. Sockets, HTTP routes, guards and validation by decorators, JSON, logging and messages to
-- Telegram are input and output or calls of libraries; unique keys that the database itself enforces
-- beyond those of idempotency keys and report keys are not modelled. The listings of plans and users, the
-- Telegram dialogues and the service of the strategy, but for what stands above, are not modelled.
mod Prelude
pub mod TradeJobs
pub mod Schema
pub mod Config
pub mod Safety
pub mod Subscriptions
pub mod Cbot
pub mod NewsReversal
pub mod Ctrader
pub mod Strategy
pub mod Crypto
pub mod Pairing
pub mod Gateway
pub mod Users
pub mod Agents
mod Tests
