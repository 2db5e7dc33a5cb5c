-- ===== src/Notes.antt =====
-- angelus/modules/note_module: the notes of a Session and of its project.
pub mod Texts
pub mod Store
pub mod Rows
pub mod Updates
pub mod Listing
mod Tests
