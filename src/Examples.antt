-- ===== src/Examples.antt =====
-- The theorems at concrete inputs that meet their hypotheses, and runs of the code.
mod Batches
mod Uploads
mod Reads
mod Pages
mod KeyUploads
mod Histories
mod Sessions
mod Folders
mod Registries
mod Pools
mod Verified
mod Names
mod World
mod Checks
mod TwoLogs
mod Deploys
mod LoneFile
mod CommandLines
mod WebPages
use evmfs.Prelude.{ℕ}
