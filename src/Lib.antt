-- ===== src/Lib.antt =====
-- The trading core of futures_mvp (src/futures_mvp): the order management system, the way of the
-- exchange's reports to it and to trades, the position manager, the risk engine, the calculators of margin
-- and of profit and loss, the daily settlement, and the gates of operational safety.
--
-- The parts and how they interact. A strategy's signal is checked by the risk engine; its verdict reaches
-- the OMS by `apply_risk_result`, and what the exchange answers by `apply_order_event`. The OMS keeps the
-- tables `orders` and `order_events`: each change of an order's status is one event. An adapter's raw
-- report is normalized and recorded once; its candidate becomes an order event, and the event, with the
-- report of a fill, proves a trade. The position manager keeps `positions` and `position_events` in the
-- same way, one event for each applied trade. At the end of a day the settlement takes the results of the
-- margin and PnL engines, records the account before and after, and rolls today's quantities to
-- yesterday's. Every method runs in a unit of work, which drops what it does not commit.
--
-- The files.
--   Domain/Enums, Domain/Orders, Domain/Positions: domain/enums.py and domain/models.py.
--   Database/UnitOfWork: db/unit_of_work.py and the exceptions of interfaces/repositories.py and
--     modules/oms/errors.py. A method is a function of a session; `with_uow` is the `with` block.
--   Oms/Status: modules/oms/state_machine.py. Oms/Store: the order tables and repositories of db/models.py
--     and db/repositories.py. Oms/Events, Oms/Writes, Oms/Service, Oms/Recovery: modules/oms/service.py, a
--     definition for each method of `OMSService`, under its name without the underscore. Oms/Journal is the
--     abstract view, and Oms/Trace runs any calls in turn.
--   Position/Apply, Position/Manager, Position/Replay: modules/position/manager.py, a definition for each
--     function and method. Position/Store: the position tables and repositories. Position/Books and
--     Position/Outcome say what a call writes, Position/Sums and Position/Ledger what the events add up to.
--   Position/Derived: the updates of `positions` by the margin, PnL and settlement engines.
--   Reports/Models: the reports, candidates and trades of domain/models.py. Reports/Normalizer:
--     modules/execution_reports/. Reports/Events, Reports/Application: modules/oms_event_application/, over
--     any OMS, and Reports/Application/Oms over this one. Reports/Proof, Reports/Trades, Reports/Bridge:
--     modules/oms_to_trade/ and the table `trades`. Reports/Replay: the replay.py of the three.
--     Reports/Application/Path and Reports/Flow put the parts together.
--   Safety/Config, Safety/Gates, Safety/Submit, Safety/Rollout, Safety/Health: modules/ops_safety/config.py,
--     kill_switch.py with incident.py and migration.py, submit_gate.py, rollout.py, observability.py.
--     Safety/Ladder follows the rollout mode through any requests.
--   Risk/Engine: modules/risk/engine.py. Margin/Calculator: modules/margin/calculator.py.
--   Pnl/Calculator: modules/pnl/calculator.py; Rounding says what its results are without rounding, and
--     when it gives them.
--   Settlement/Models: its records in domain/models.py. Settlement/Calculator:
--     modules/settlement/calculator.py; Found is what its loops find, and Cash describes a plan's money from
--     the stored results alone.
--     Settlement/Live, Settlement/Engine: modules/settlement/engine.py. Settlement/Store: the tables
--     `account_snapshots` and `settlement_snapshots`. Settlement/Rows, Settlement/Writes and
--     Settlement/Outcome say what a call writes, Settlement/Rolls, Settlement/Accounts and Settlement/Replay
--     what a replay finds. Database/Runs: triples on computations that commit nothing.
--   Decimal: Python's decimals. Prelude and its children: shared names, tests, integers and lists.
--   The Tests modules hold the examples.
--
-- The correspondence. Texts that hold database keys are numerals or malformed texts, as `int()` reads
-- them. Quantities and prices are integers in a unit for each kind of value. Python rounds to 28 digits:
-- the PnL calculator rounds every sum, difference and product by a `Context`, and average prices are its
-- quotients. Of the rounding, only that numbers of at most 28 digits are kept and that quotients are
-- rounded monotonically is used (Decimal/Floor is one). The other sums and products are exact, as Python's
-- are up to 28 digits. A clock is the argument `now`: all calls of it in one method give that instant. The
-- key that the database gives to a new row is the argument `next_id`; a key that is taken is an integrity
-- error. `Format` is how Python prints an int and an instant in event keys. Instants are natural numbers.
-- Errors carry the values that their messages print. SHA-256 digests, `str.lower` and `str.strip` are
-- functions that a module is given, as is the printing of a decimal. `sorted` is an insertion sort, which
-- is stable. No definition of the program needs fuel: each recursion is on a list or a number. (The
-- rounding of Decimal/Floor reads numbers of up to 127 digits.)
--
-- Not modelled. Sessions do not interleave, so an insert's integrity error after an empty lookup comes
-- only from a foreign key or a taken primary key; the table `trades` has both. The validators of
-- `SettlementContext` (a `calculation_key` that is not blank, an account of the context's own id) are left
-- out, so what is proved of a settlement holds for more contexts. Columns that no modelled method reads or
-- that only record times are left out, among them the execution details of order events. The checks of
-- Python types in constructors are what the types here say. The engines of margin and pnl, which store
-- snapshots, and the other modules (execution, market, strategy, runtime and the simulations) are not
-- modelled.
pub mod Prelude
pub mod Database
pub mod Domain
pub mod Decimal
pub mod Oms
pub mod Position
pub mod Risk
pub mod Margin
pub mod Pnl
pub mod Reports
pub mod Safety
pub mod Settlement
