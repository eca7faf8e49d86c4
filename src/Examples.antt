-- ===== src/Examples.antt =====
-- The theorems at concrete inputs.
mod Commands
mod Queues
mod Clock
mod Serial
mod Stimulus
mod Generators
mod Jumps
mod Straight
