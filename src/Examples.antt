-- ===== src/Examples.antt =====
-- Each theorem that has hypotheses, at concrete inputs, and tests of the definitions.
mod Fixtures
mod Au10
mod AccessPoint
mod Node
mod Broadcast
mod Uploading
mod Processes
mod Rosters
mod Stopping
mod Failing
mod Streams
mod Subscriptions
mod Cli
