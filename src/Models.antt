-- ===== src/Models.antt =====
-- The saved document: src-tauri/src/models.rs. The records have the source's fields; a map is its
-- list of entries, and a value that the back end never looks into (a terminal theme) its JSON text.
pub mod Settings
pub mod Saved
pub mod History
