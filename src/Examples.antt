-- ===== src/Examples.antt =====
-- The theorems at concrete inputs, with tests of the definitions.
mod Office
mod Executions
mod Sessions
mod Summaries
mod Requests
mod Photos
mod Tenants
mod Reports
mod Handler
mod Roster
mod Objects
mod Orders
mod Days
mod Creations
