-- ===== src/Lib.antt =====
-- The DVF orchestrator (go-orchestrator/internal) runs driver validation tests in virtual machines.
--
-- The program's parts. A test run waits in the scheduler; the execution engine takes it, reserves
-- host resources, creates a virtual machine, talks to the guest agent through the coordinator, and
-- runs the suite's steps as a workflow, a DAG with retries and skips. The store keeps runs, results
-- and machines, and at a restart the recovery puts the unfinished runs back into the scheduler.
--
-- Which file models which code (paths are below go-orchestrator/internal):
-- - Types: core/types.go. Enums are data types, structs are records; an unset enum is none.
-- - Workflow (with Workflow/Steps): core/workflow.go. NewWorkflow is new_workflow, with its loops
--   as index_steps, check_steps, build_graph, roots and kahn; Ready, Advance, MarkRunning, IsDone,
--   IsBlocked and Summary have their names. A read of a missing step is a panic, which is none.
-- - Engine/Loop: the loop of runWorkflow in core/execution_engine.go. Which running step reports,
--   and how, is chosen by an environment that reads the loop's state.
-- - Engine/Execute: executeTestRun in core/execution_engine.go, with its early returns and its
--   deferred calls. What the collaborators answer is the record Engine of Engine/Host.
-- - Engine/Attempts: the goroutine of one step of runWorkflow, processResultsForStep and
--   mapAgentStatus.
-- - Engine/Workers: SubmitTestRun, the worker and the goroutines of runs in
--   core/execution_engine.go, as steps in any order. Step is what happens, Move the part of it that
--   the engine does by itself; Engine/Workers/Stop has the steps behind the Close of Stop.
-- - Engine/Suites: loadTestSuite, splitPath and vishwaCommandSequence in core/execution_engine.go.
--   Engine/Execute takes the suite that loadTestSuite returns, or its error, as an answer; its
--   panic is in Engine/Suites alone.
-- - Agents: core/agent_state.go. A call of SendCommand is open_waiter, push, collect and
--   close_waiter, one of DeliverResult is find_waiter and offer, and Agents/System interleaves
--   them. Agent states and channels are objects with addresses, since a call keeps the one that it
--   looked up.
-- - Agents/Guests: api/agent_server.go, whose handlers are register_agent, heartbeat, get_command
--   and report_result, and vm/virtio_serial.go: serve_vm is the loop of a connection, and
--   Agents/Guests/Pump steps commandPump between the other callers of the coordinator.
-- - Machines: vm/manager.go. CreateVM, StartVM, StopVM and DestroyVM are create_vm, start_vm,
--   stop_vm and destroy_vm over a store of machines; Machines/Args is BuildQEMUArgs.
-- - Qmp: vm/qmp_client.go with vm/qmp_types.go. Qmp has the handshake and what the reader does with
--   a message (route); Qmp/Calls interleaves the steps of Execute, the reader, QEMU and Close.
-- - Cluster: cluster/registry.go and cluster/node.go. Evict and Count are evict and count_nodes.
-- - Config: config/types.go and config/loader.go: both validations and FindDevice; Config/Load has
--   Load and LoadDeviceRegistry.
-- - Api: api/grpc_server.go. Api has the messages and their conversions, Api/Handlers the handlers
--   over the interface Storage (storage/store.go), which Store implements; Api/Devices has the devices.
-- - Scheduler: core/scheduler.go. Each method is one atomic step, as under its mutex; the channel
--   notify is a flag, since it has room for one signal. A send on the closed channel is a panic.
-- - Allocator: core/allocator.go, with int as 64-bit integers that wrap around.
-- - Store: storage/memory.go. A Go map is a dictionary with its keys, and the order of a range over
--   it is an argument that visits each key once.
-- - Postgres: storage/postgres.go. Postgres/Tables has the rows and what a statement reads from
--   one, and each method has its name. Postgres/Agreement sets it beside Store.
-- - Telemetry: api/telemetry_server.go. Its three handlers share one loop.
-- - Gateway: api/rest_gateway.go, a handler for each group of routes, and telemetry/event_bus.go.
-- - Machines/Adapter: vmManagerAdapter of go-orchestrator/cmd/orchestrator/main.go.
-- - Recovery: core/state_manager.go, over the interface RecoveryStore, which Store implements.
-- - Prelude: numbers, texts, lists, dictionaries and panics that the others share.
--
-- Fuel. kahn gets one more than the number of steps, and each round takes a step off the queue for
-- good. next gets two rounds, since a round consumes the one signal there can be. run_workflow gets
-- one result for each step, since a step that has reported is not launched again.
--
-- Not modelled. Logging, tracing and the audit are not modelled: they write to a log or to the
-- network. Of the command the wiring in main, and of Postgres the connection, are left out. Of
-- loadTestSuite the reading of files is left out, and of the configuration what no modelled code
-- reads. Removing socket and log files is left out of Machines, where processes that end are steps of
-- Machines/Held. Engine/Execute follows one run; runs that execute at the same time meet in
-- Engine/Workers, which leaves out what a run does while it holds its reservation.
pub mod Prelude
pub mod Types
pub mod Workflow
pub mod Scheduler
pub mod Allocator
pub mod Store
pub mod Recovery
pub mod Engine
pub mod Agents
pub mod Config
pub mod Api
pub mod Machines
pub mod Qmp
pub mod Cluster
pub mod Postgres
pub mod Gateway
pub mod Telemetry
