-- ===== src/Storage.antt =====
-- pkg/storage/memory: the in-memory repositories
pub mod Base64
pub mod Cursor
pub mod WorkspaceRepo
pub mod PluginRepo
pub mod PluginStorage
pub mod Examples
