-- ===== src/Cli.antt =====
-- pkg/cli: the commands of sims.
pub mod Host
pub mod Select
pub mod Resolved
pub mod Values
pub mod Create
pub mod Command
pub mod Monitoring
pub mod Delete
pub mod Deleted
pub mod Refines
pub mod Ends
pub mod Reached
pub mod Dashboard
pub mod Forwarded
pub mod Kept
pub mod Toggles
pub mod Doctor
pub mod Diagnosed
pub mod Status
pub mod Leaves
pub mod Made
pub mod Tidy
pub mod Disk
pub mod Clean
pub mod Cleaned
