-- ===== src/Bridge.antt =====
-- src/famepy/bridge: workspaces, and the frequencies of its time series.
pub mod Naming
pub mod Workspaces
pub mod Resolving
pub mod Flattening
pub mod Frequencies
pub mod Writes
