-- ===== src/Resilience.antt =====
-- integrations/providers/shared/resilience.py.
pub mod Breaker
pub mod Limiter
pub mod Call
pub mod Valid
pub mod Outcome
pub mod Recovery
pub mod Tripping
pub mod Deque
pub mod Spacing
mod Tests
