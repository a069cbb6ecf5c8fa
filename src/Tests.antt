-- ===== src/Tests.antt =====
-- Runs at fixed inputs: the theorems at concrete states.
mod Labels
mod Chains
mod Evaluation
mod Sample
mod Pins
mod Scopes
mod Memory
mod Tables
mod Texts
mod Work
mod Requests
mod Making
mod Methods
mod Queue
mod Digits
mod Contexts
mod Errors
