-- ===== src/Reader.antt =====
-- The JavaScript library (lib/src): one child per source file that reads from the chain.
pub mod Abi
pub mod Rpc
pub mod Keccak
pub mod Evmfs
pub mod FetchAll
