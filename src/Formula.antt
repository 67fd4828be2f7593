-- ===== src/Formula.antt =====
-- The formula engine: kpi/application/formula_parser.py, formula_validator.py and
-- formula_executor.py.
pub mod Base
pub mod Parser
pub mod Scan
pub mod Grammar
pub mod RoundTrip
pub mod Sound
pub mod Validator
pub mod Values
pub mod Functions
pub mod Executor
pub mod Resolver
pub mod Clamp
pub mod Safety
pub mod Trace
pub mod Identifiers
mod Tests
mod ResolverTests
