-- ===== src/Tests.antt =====
-- Runs of the program at concrete data, and its theorems applied there.
mod Samples
mod Trees
mod Hierarchy
mod Parts
mod Protocol
mod Sessions
