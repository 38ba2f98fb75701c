-- ===== src/Examples.antt =====
-- The theorems at concrete inputs, and runs of the definitions: one module for each part.
mod Registry
mod Protocol
mod Counting
mod Link
mod Sources
mod Client
mod Texts
mod Mains
mod Threads
mod Stops
mod Limits
