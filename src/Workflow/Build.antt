-- ===== src/Workflow/Build.antt =====
-- Kahn's algorithm in NewWorkflow (workflow.go): what its loops compute, and the loop invariant.
pub mod Loops
pub mod Invariant
pub mod Order
pub mod Index
pub mod Construct
