-- ===== src/Examples.antt =====
-- Runs of the model on concrete data, and each theorem applied to such data.
mod Ledger
mod Check
mod Plan
mod Stages
mod Whole
mod Growth
mod Refresh
mod Store
mod Graph
mod Run
mod Journal
