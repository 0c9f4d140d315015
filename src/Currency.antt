-- ===== src/Currency.antt =====
-- The exchange rates: buyorwait_engine/currency/fx.py. A rate is a whole number of ticks of 10^-8, the
-- precision to which the code rounds the rates that it computes; `date.today()` is an argument. The
-- code rounds each product and quotient to 28 digits before it rounds to its result's precision.
pub mod Fx
pub mod Dates
pub mod Latest
pub mod Quotes
pub mod Rates
