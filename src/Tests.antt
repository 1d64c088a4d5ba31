-- ===== src/Tests.antt =====
-- The theorems at concrete inputs, and runs of the definitions.
mod Tables
mod Containers
mod Addressed
mod Skiplists
mod Multimaps
mod PriorityQueues
mod CharStructs
mod Uris
mod Processes
mod Segments
mod Dispatches
mod Clocks
