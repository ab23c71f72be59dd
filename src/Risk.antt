-- ===== src/Risk.antt =====
-- The risk-aware repair policy: api/slab_risk.go, stores/slab_risk.go, stores/repair_policy.go.
pub mod Policy
pub mod Loss
pub mod Estimate
pub mod Placement
pub mod Evaluate
pub mod Queue
pub mod Matching
