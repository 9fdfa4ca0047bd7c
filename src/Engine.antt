-- ===== src/Engine.antt =====
-- The execution engine of go-orchestrator/internal/core/execution_engine.go: the life of one run, the
-- loop over the steps of its workflow, and the attempts of one step.
pub mod Loop
pub mod Host
pub mod Execute
pub mod Attempts
pub mod Workers
pub mod Suites
