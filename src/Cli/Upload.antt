-- ===== src/Cli/Upload.antt =====
-- cli/src/upload.ts: planning, sending and resuming an upload, and the manifest at its end.
pub mod Folder
pub mod Resume
pub mod Send
pub mod Assemble
pub mod Command
