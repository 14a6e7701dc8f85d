-- ===== src/Llm.antt =====
-- Language-model calls: the router of apps/agents/shared/llm_router.py (Router: prices, models and
-- tiers; Calls: calls in flight) and what it guarantees (Spending,
-- Budget, Alerts).
pub mod Router
pub mod Calls
pub mod Spending
pub mod Budget
pub mod Alerts
mod Tests
