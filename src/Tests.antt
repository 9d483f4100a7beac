-- ===== src/Tests.antt =====
-- native/: the definitions and the laws at concrete inputs.
mod Blocks
mod Hash
mod Frames
mod Runs
mod Controls
mod Pipes
mod Reports
mod Drains
mod Outcomes
mod Trees
mod Paths
mod Supervision
mod Files
mod Readings
