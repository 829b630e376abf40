-- ===== src/Cli.antt =====
-- internal/cli: the kubectl plugin.
pub mod Payload
pub mod Pull
pub mod Wait
pub mod Plugin
pub mod Args
pub mod Clients
pub mod Commands
pub mod Create
pub mod Format
pub mod Copy
pub mod Status
pub mod Logs
pub mod Main
