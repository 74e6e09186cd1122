-- ===== src/Enforce.antt =====
-- internal/agent/enforce/nft: what the agent keeps of the policy that it enforces.
pub mod Marks
pub mod Render
pub mod Store
