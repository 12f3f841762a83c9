-- ===== src/Tests.antt =====
-- Runs of the model on concrete inputs, and each theorem at an input that meets its hypotheses.
mod Bitmaps
mod Pages
mod Scheduler
mod Locks
mod Rings
mod Chains
mod Numbers
mod Tables
mod Texts
mod Sorting
mod Orders
mod Creation
