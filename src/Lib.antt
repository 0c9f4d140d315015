-- ===== src/Lib.antt =====
-- The purchase advisor: given a user's financial state and a proposed purchase, decide whether to
-- buy now, to wait, to pay in another way, or not at all; and the parts of the service around it
-- that decide on their own state.
--
-- How the parts interact. `BuyOrWaitEngine.evaluate` (buyorwait_engine/engine.py) builds a state
-- from a profile and its events (state/builder.py): it drops superseded events, converts amounts and
-- projects the recurring items up to the horizon. `evaluate_purchase` (buyorwait_engine/engine.py)
-- enumerates the allowed changes of spending (decision/spending.py), generates for each combination
-- the candidate plans (decision/candidates.py) from the safe amount (decision/safe_amount.py) and
-- the earliest safe date (decision/earliest_date.py), both of which project the balance day by day
-- (forecast/ledger.py), ranks the plans (decision/ranker.py), classifies the risk by the same
-- projection on a stressed state (risk/) and lets a policy choose between the two decisions. Amounts
-- in other currencies are converted by the exchange rates (currency/fx.py); the web service first
-- assesses the quality of the data (backend/services) and limits its requests (backend/auth), and
-- imports bank statements into a ledger (backend/ingestion); its requests for a decision go through
-- a validator (backend/services).
--
-- Which file models which part:
--   Common, Common/*   integers, lists, dicts in insertion order, errors, stable sorting, ASCII texts,
--                      the Gregorian calendar of `datetime.date` and `calendar.monthrange`
--   Domain             buyorwait_engine/domain/{enums,models,state}.py: the records, field by field
--   Ledger/Daily       buyorwait_engine/forecast/ledger.py: the daily maps, the day loop, the queries;
--                      Ledger/{Projection,Maps,Minimum,Solvency}: an independent projection of the
--                      balance, with which the day loop is compared
--   Decision/SafeAmount, EarliestDate, Spending, Candidates, Ranker
--                      buyorwait_engine/decision/*.py, a module for each file and its laws below it
--   Risk/Stress, Classifier, Policy
--                      buyorwait_engine/risk/{config,stress_buffers,classifier,policy}.py
--   Engine             buyorwait_engine/engine.py: `evaluate_purchase` and `_derive_verdict`;
--                      Engine/{Verdicts,Safety,Policies}: what a verdict means, through all parts
--   Engine/Facade      buyorwait_engine/engine.py: `BuyOrWaitEngine`, from a profile and its events
--   State/Resolve, Projections, Builder
--                      buyorwait_engine/state/builder.py: the resolved events, the three projections, and
--                      `build_financial_state_from_inputs`; the children of Builder say what a built
--                      state holds, when one is built and when not
--   Recurrence         buyorwait_engine/recurrence/cadence.py: the inference of recurring streams;
--                      Recurrence/Occurrences: the loop over the next dates
--   Currency/Fx        buyorwait_engine/currency/fx.py: `FXEngine`; Currency/Dates: the agreement of
--                      its two tables; Currency/{Latest,Quotes,Rates}: what a lookup returns
--   Backend/RateLimiter  backend/auth/rate_limiter.py: `RateLimiter`; its children are the laws of the
--                      request windows and of the failed logins
--   Backend/DataQuality  backend/services/data_quality.py: `DataQualityEvaluator.evaluate`;
--                      Backend/DataQuality/Evidence: what a sufficient answer says
--   Backend/Ingestion  backend/ingestion/: Models, Security, Dialect, Parser (parsers/csv_parser.py),
--                      Normalizer, Categorizer (with transfers.py) and Deduplicator for the files of
--                      these names; Rows and Service for `IngestionService` of service.py, the loop
--                      over the rows apart; their children are the laws of files, signs, counts,
--                      hashes, batches and of a whole import
--   Backend/Purchases  backend/services/purchase_validator.py: `PurchaseValidator.validate_and_build`;
--                      Backend/Purchases/Answers and Validation: what it builds and what it raises
--   Tests              runs on concrete inputs
--
-- Conventions. Functions keep their names without the leading underscore. An amount is a `Decimal`
-- as an integer number of ticks of 10^-8: sums, differences and comparisons are exact, a product or
-- a quotient is rounded half to even to the precision that the code quantizes to, or else to a tick.
-- The code rounds products and quotients to 28 digits first, which agrees within that precision. A
-- date is its `toordinal()` without an upper end, a time of the rate limiter is in whole
-- microseconds. An exception is a value of `Error`; a method that changes an object returns the
-- changed object. The clock (`date.today()`, `time.time()`) is an argument. A text that only shows a
-- result is modelled by its parts, and `strip`, `upper` and `lower` know the letters and spaces of
-- ASCII.
--
-- In the importer an identifier is its text, the tables are lists in one session value, and the
-- calls of the standard library are a record, `Platform`; the validator has its own, `Parsers`.
-- `stage_and_preview_statement` takes the parser as an argument, which is `parse` in the code; the
-- identifier of a new batch and the name of a nameless file are arguments too; bytes are numbers.
-- What `Decimal` reads from a text is a number, an infinity or a NaN: the importer keeps a NaN as an amount
-- of its own, and the validator has records of its own for a purchase, whose amounts are `Decimal`s.
--
-- Bounds. The horizon is 90 days, so that the day loop and the scan for the earliest date run over
-- 91 days and are recursive on the days left. The loops of the projections and of the next
-- occurrences over months and over steps of days run on fuel, `fuel_for`, which is two rounds more than
-- the ordinal of the last day: a loop that goes forward by a day or more passes that day within it. `out_of_fuel` stands for a
-- loop that does not end. The sets of fixed and of variable categories are gone through in an order
-- that is an argument, since the code iterates over a frozenset. Every other loop is over a list.
--
-- Not modelled: the explanations and other free texts, `to_dict` and logging; the conversion of a
-- ranking cost to float; the older dataset container of a payment option; the field of a state
-- for its recurring streams, which no decision reads; the end of the calendar in the year 9999; and the web interface, the
-- database, the quarantine of raw files, and the older pipelines under code/ and v3/.
pub mod Common
pub mod Domain
pub mod Currency
pub mod Ledger
pub mod Decision
pub mod Risk
pub mod State
pub mod Recurrence
pub mod Engine
pub mod Backend
pub mod Tests
