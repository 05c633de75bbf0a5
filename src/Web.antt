-- ===== src/Web.antt =====
-- The upload page's logic (web/src/lib/evmfs.ts): one child per concern.
pub mod Units
pub mod Progress
pub mod Manifest
pub mod ConfirmedMap
pub mod Upload
pub mod KeyUpload
pub mod Files
pub mod Dropzone
pub mod History
pub mod Callbacks
pub mod UiState
pub mod App
