-- ===== src/Lib.antt =====
-- The CALM trading system: orders and market data between Interactive Brokers and a strategy.
--
-- The program is a few objects on their own threads, which hand events to each other. The gateway
-- talks to the broker's client library and sends what it is told, as events, to the event engine,
-- whose thread calls the callbacks that the other parts registered. Market data, portfolio and risk
-- manager keep their state from these events; the algo engine listens to a strategy over Redis, and
-- asks the trading engine, which asks the risk manager and then the gateway, for orders. The data
-- recorder writes events to a database. A separate program downloads historical bars.
--
-- Base holds what all share: tests on numbers and texts, integers, hash maps as association lists, with
--   Keys about their keys and Once about maps with one entry for each key, and results of calls that may
--   throw. Double is the interface of the operations on `double`.
-- Objects: lib/objects (records, enumerations, tables) and `Event` of lib/core/event.h; Printing has
--   the texts of lib/objects/objects.cpp, and Sides the sign of an order's side. Yaml is what the code asks of a configuration file.
-- Utils: lib/utils/utils.cpp. Queue: lib/utils/lock_based_queue.h.
-- Gateway: lib/gateway/gateway.cpp. `Api` is the state of `IBApi`; Contracts has `generate_contract`
--   and `generate_ib_order` (Parsing is about the former), Ticks `subscribe` and the tick callbacks, Orders the order requests and
--   callbacks, History the historical ones, Session `start` and `stop`, and Machine all of them as
--   the steps of one machine. Routing and Subscriptions treat request ids, Delivery ticks, and Book,
--   Reports and Life orders; Bounds has the request ids that are given out, and OrderIds, Numbered and
--   Placing the order ids.
-- Events: lib/core/event.cpp, with Delivery for `run`, Registry for `register_cb` and Shutdown for `stop`.
-- Market: lib/core/market_data.cpp. Trading: lib/core/trading_engine.cpp. Risk: lib/core/risk.cpp,
--   with Limits for its constructor.
-- Portfolio: lib/core/portfolio.cpp, with Ledger, Booking and Postings for one report, and Machine,
--   Kept, Effects and Runs for whole runs, and Unpriced and Profit for the profit without and with all prices.
-- Trader: `send_timer` of lib/core/trader.h. System: the objects of `Trader` and their threads. Wiring
--   has the registrations of the constructors, Fanout one event through the callbacks, Machine the
--   actions of the threads as steps of one system. Pending says what reports are on their way from
--   the gateway to the portfolio; Reports, Agreement, Rounds, Posting and Flow follow them through each action, Start
--   through a run from the start, and Settling until they have arrived. Told, Accounts, Bookkeeping, Kept and
--   Books follow the portfolio's books through such runs. Soundness, Bystanders, Reliable and Failures are
--   about what can end the program.
-- Algo: lib/algo/algo_engine.cpp, whose children Config and Actions have the constructor and the handlers of the action thread; Known has what they keep, Failures what they can throw,
--   and Tracking and Target how the position follows orders.
-- Redis: lib/database/redis_client.cpp, with Client and Tidy for what is held and freed. Recorder: lib/data/data_recorder.cpp.
-- History: lib/data/historical_data.cpp, with Getter for `HistBarGetter` and Machine for its two
--   threads. Config has `generate_reqs` and `log_status`, with Paths and Statuses about them, and Files from the configuration to the files written. Order, Replies,
--   Sending, Opening and Requests follow the requests that are sent. Chunks is about the requests, Merging about the bars that are written, Counting,
--   Progress, Prepared and Finish about the end of `run`, and Stuck about a file that cannot be written.
-- Tests: concrete states at which the theorems are used.
--
-- A method becomes a function from the old state to the new; what it sends or asks of another part is
-- appended to a list in the state, or returned. A block under a lock is one step, so an interleaving
-- of threads is a sequence of steps. A method that may throw, or read beyond a vector, returns a
-- `Result`. A shared pointer that nobody writes through is the value that it points to. In System
-- an action of a thread, which may touch several objects, is one step: races inside an action are not modelled. A hash map is
-- an association list; its order stands for the unspecified order of iteration.
--
-- Bounds: ids, counters and times are integers without overflow, except that Gateway.Bounds treats
-- request ids as `int` and History.Getter lets `remaining` wrap; request ids and times that the
-- client library reports are not negative, and texts are ASCII. What is asked of `double` is the
-- interface `Double`; where a theorem needs sums without rounding, `IsExact` says so, and whole
-- numbers meet it. `split` runs on fuel, one more than the length of the text, and each piece takes at
-- least one byte. The loop of `generate_ib_reqs` runs on fuel, one more than the seconds in the
-- range, and each chunk takes at least one second.
--
-- Arguments of the model: the conversions of the client library's decimals, whether it connects, what
-- Redis replies and whether, whether the database accepts a document, how dates and numbers are read and written,
-- how bars are sorted, whether their file can be written, and what
-- the YAML library reads. Not modelled: logging, the printing of
-- the client library's records, the pacing of requests in time, the starting and joining
-- of threads except in Events.Shutdown, and the main programs.
pub mod Base
pub mod Double
pub mod Objects
pub mod Utils
pub mod Yaml
pub mod Gateway
pub mod Queue
pub mod Events
pub mod Market
pub mod Portfolio
pub mod Risk
pub mod Trading
pub mod Algo
pub mod Redis
pub mod Recorder
pub mod History
pub mod Trader
pub mod System
pub mod Tests
