-- ===== src/Examples.antt =====
-- The theorems at concrete stores, messages and times, and tests of the definitions.
mod Data
mod Mail
mod Loop
mod Registry
mod Delivery
mod Commands
mod Queries
