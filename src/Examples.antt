-- ===== src/Examples.antt =====
-- Runs of the modelled code on a small cluster.
pub mod Capture
pub mod Cluster
pub mod Fixtures
pub mod Terminal
pub mod Ticks
pub mod Landings
pub mod Pausing
pub mod Calm
pub mod CopyRunTests
mod RunsTests
mod ActionTests
mod ScriptTests
mod CliTests
mod CommandTests
mod CopyTests
mod EndTests
mod RetryTests
mod PullTests
mod StartTests
