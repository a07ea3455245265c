-- ===== src/Tests.antt =====
-- Runs of the model on concrete requests and databases.
mod Memory
mod Orders
mod Payments
mod Jobs
mod Users
mod Systems
mod Stores
mod Travels
mod Runs
mod SignIns
mod Server
mod Requests
mod Races
mod Tools
mod Rpcs
