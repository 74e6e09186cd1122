-- ===== src/Agent.antt =====
-- The agent: flow collection (internal/agent/collect) and mark allocation
-- (internal/agent/enforce/nft).
pub mod Gaps
pub mod Buffer
pub mod Aggregator
