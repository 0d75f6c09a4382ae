-- ===== src/Tests.antt =====
-- Runs of the model at concrete inputs.
mod Queues
mod Devices
mod Tables
mod Samples
mod Growth
mod Calls
mod Paging
mod Dispatch
mod Simulation
mod Barrier
mod FlatPages
mod Files
mod Loading
