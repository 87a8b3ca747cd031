-- ===== src/Tests.antt =====
-- Runs of the model on concrete data, and the theorems at inputs that meet their hypotheses.
mod Node
mod Crdt
mod Dag
mod Authority
mod Ghost
mod Security
mod Governance
mod Sss
mod Compute
mod World
mod Storage
mod Health
mod Runtime
mod Control
