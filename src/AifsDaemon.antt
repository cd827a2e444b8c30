-- ===== src/AifsDaemon.antt =====
-- aifs/daemon: the Go service behind the command line `aifs`. Log lines, the socket's set-up and
-- the signals that end the process are left out.
pub mod Go
pub mod Paths
pub mod Calls
pub mod Volumes
pub mod Parts
pub mod Subvolumes
pub mod Folders
pub mod Restore
pub mod Swap
pub mod Disk
pub mod Handle
pub mod Returns
pub mod Wire
