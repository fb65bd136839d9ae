-- ===== src/Tests.antt =====
-- A session's parameters made of concrete functions, the data of the tests, and for each theorem with
-- conditions an input at which they hold.
mod Data
mod Entities
mod Conditions
mod Rules
mod Tasks
mod Sessions
mod Rbc
mod Sharding
mod Graphs
mod Evidence
mod Replays
