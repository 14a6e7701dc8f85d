-- ===== src/Quality.antt =====
-- The quality layer over the router, apps/agents/shared/quality: the generator and its critic
-- (Words, Verifier), and what is known of their calls (Calls); and
-- the vote over several samples (Vote, Majority).
pub mod Words
pub mod Verifier
pub mod Calls
pub mod Vote
pub mod Majority
pub mod Extract
pub mod Grounding
pub mod Structured
pub mod Object
pub mod Retries
mod Tests
mod CallTests
