-- ===== src/Pipeline.antt =====
-- pipeline/: backup, restore and rotation.
pub mod Objects
pub mod Session
pub mod Pack
pub mod Upload
pub mod Keys
pub mod Restore
