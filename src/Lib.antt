-- ===== src/Lib.antt =====
-- NitiQuant (package kiwit): the paper-trading kernel.
--
-- The program researches strategies on Indian-market data and trades them on paper. Proposals pass
-- risk gates and human review, and are filled by simulators from quotes; no order reaches a live
-- broker. Modelled here are the parts that keep money and state.
--
-- Simulator (src/kiwit/paper_simulator.py): the transactional, quote-driven order lifecycle.
--   Simulator.Types has the orders and the stored state, Simulator.Price the nested function
--   `price` and the rounding, Simulator.Step the bodies of the loops of `on_quote` and
--   `end_session`, Simulator.Store the tables with their digests, `__init__` and `_event`,
--   Simulator.Methods `submit`, `cancel`, `end_session`, `on_quote` and `portfolio`. The database is
--   a value, and a call that raises leaves it as it was, since its transaction is rolled back. A stored
--   state has its orders sorted by key, as `_json` of src/kiwit/ml/datasets.py writes them, so the next event
--   meets them in that order.
--   JSON, SHA-256 and isoformat are a parameter, the record `Codec`.
-- Calendar (src/kiwit/marketdata/canonical.py): sessions, their bounds, and `TradingCalendar` with the
--   checks of its construction.
-- Orchestrator (src/kiwit/session_orchestrator.py): the durable session of a market day.
--   Orchestrator.Types has the stored session, the schedule and the answers of the backend,
--   Orchestrator.Advance the `try` block of `tick` on one session with `_close` and `_healthy`,
--   Orchestrator.Tick `_load`, `_save`, `control` and `tick` over the table of sessions. The table is
--   a list of rows in the order of their days. The backend is a parameter, the record `Answers`, and
--   a tick returns the calls that it made. The digests, isoformat and strip are parameters.
-- Risk (src/kiwit/risk.py, src/kiwit/risk_policy.py): the sizing engine and the mandatory policy.
--   Risk.Types has the configuration and the portfolio, Risk.Engine `RiskEngine.evaluate`, Risk.Policy
--   `DeterministicRiskPolicy.evaluate` around it. The reasons are listed in the order in which they
--   are found.
-- Execution (src/kiwit/execution.py): Execution.Fills has `FillAccumulator`, Execution.Broker has
--   `PaperBroker`.
-- Options (src/kiwit/options_policy.py, src/kiwit/options_risk.py, src/kiwit/options_events.py): the
--   entry rules of the options desk. Options.Reconsider has `reconsider_event`, Options.Gate
--   `entry_gate` with `entry_calendar_blocker`, Options.Costs the cost schedule, Options.Sizing
--   `quantity_for` and `sizing_diagnostics`, Options.Exits `exit_levels` with its loop of three rounds;
--   the rounded quotient of the target is a parameter.
-- Desk (src/kiwit/banknifty.py, with src/kiwit/options_calendar.py, and parts of src/kiwit/playbooks.py,
--   src/kiwit/chart_analysis.py, src/kiwit/paper_session.py and src/kiwit/options_ai.py): the Bank Nifty
--   paper session. Desk.Clock has the calendar and the windows, Desk.State the stored session,
--   Desk.Exit `_close`, Desk.Monitor the locked part of `_monitor`, Desk.Plan `validate_plan` with
--   `entry_evidence`, Desk.Entry `_apply`, Desk.Session `start`, `stop` and
--   `settle_expired_position`, Desk.Calls the calls of the model with their budget, Desk.Run the
--   tables and sequences of calls, Desk.Flattening repeated calls of the monitor, Desk.Phases the machine
--   of four phases that the session refines. What the market and the calendar of events answer are arguments
--   of the calls. It uses the rules of Options. Rounding is the parameter `DeskArithmetic`.
-- Market (src/kiwit/marketdata/canonical.py): Market.Candles has candles and `ordered_candles` on the
--   candles of one instrument, Market.Assessment `assess_market`, whose reasons are listed in the
--   order in which they are found, Market.Groww `groww_candles` on rows of which the times are read.
-- Planning (src/kiwit/sizing.py): Planning.Rules has the checked rules, Planning.Plan `calculate_plan`.
-- Ledger (src/kiwit/paper_trading.py): the tables of the paper ledger and the calls on them.
--   Ledger.Tables has the rows, Ledger.Review accounts, halts, promotions and the review states of a
--   proposal, Ledger.Pricing the cost model, Ledger.Trade `execute` and `fill_for`, Ledger.Run
--   sequences of calls. A transaction is a call that returns a database or raises; concurrent calls
--   are a sequence, as the locks of the source make them. The exact decimal arithmetic is on
--   integers, and the quotient of decimals and the rounding of a numeric column are the parameter
--   `Decimals`.
-- Journal (src/kiwit/decision_journal.py): Journal.Store has `record` and `read`, Journal.Events
--   `append_event` and sequences of calls. Redaction, JSON, digests, provenance and the order of texts
--   are the parameter `Codec`, with the redacted JSON of an event beside it.
-- Audit (src/kiwit/audit.py): Audit.Log has `HashChainAuditLog`. The file is the list of its lines,
--   parsed; the digest of a body is a parameter, the identity and time of an event are arguments.
--
-- Numbers: a decimal is a whole number of a unit small enough for the values at hand, so sums and
-- products are exact, as they are in the source within the 50 digits of its context. A price is a
-- number of grains, an amount of money a number of grains over the denominator of the cost
-- fractions. A point of time is a number of microseconds. Cash and profits are signed integers.
-- The quotients of Risk, Planning and Execution are exact too, where the source rounds to 28 or 50
-- digits; so are the sums of `portfolio`, which the source takes outside that context, in 28 digits.
-- Decimals that differ only in trailing zeros are one number here, and two texts in the source.
--
-- No loop of the modelled code needs fuel: each runs over a list.
--
-- Not modelled: web pages, database drivers, HTTP clients, model training and the statistics of
-- the research scripts; the market workers, which are loops over broker data, but for the session of Desk;
-- of Desk, the scans, the tracking of plans, the reports and the incidents; of the parts above, the
-- reading of JSON and of times, `label_outcomes` and `export` of the journal, and the queries of the
-- ledger for its pages.
pub mod Prelude
pub mod Calendar
pub mod Ledger
pub mod Journal
pub mod Market
pub mod Simulator
pub mod Orchestrator
pub mod Risk
pub mod Desk
pub mod Execution
pub mod Options
pub mod Planning
pub mod Audit
