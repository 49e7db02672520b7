-- ===== src/Tests.antt =====
-- Runs of the models on concrete inputs, with channels that behave as tokio documents them.
mod Channels
mod Queue
mod Waits
mod Tools
mod Calls
mod Observes
mod Spawns
mod Served
mod Advertised
mod Tasks
mod Ended
mod Logged
mod Overlaps
mod Pages
mod Answered
mod Dialled
mod Reordered
