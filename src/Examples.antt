-- ===== src/Examples.antt =====
-- The theorems at concrete inputs: a small directory, and requests on it.
mod World
mod Names
mod Filters
mod Searches
mod Messages
mod Tables
mod Secrets
mod Rows
mod Roster
mod Mutations
mod Tokens
