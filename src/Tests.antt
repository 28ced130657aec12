-- ===== src/Tests.antt =====
-- Runs on concrete input, and the theorems at concrete input.
mod Parsing
mod Processes
mod Requests
mod Pipes
mod Sessions
mod Starts
mod Pools
mod Services
mod Clients
mod Readers
mod Recoveries
mod PoolServices
mod Memories
mod Limits
mod Demos
