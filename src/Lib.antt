-- ===== src/Lib.antt =====
-- EVMFS stores files in the event logs of an Ethereum contract. The command line tool (cli/src)
-- compresses the files of a folder, cuts them into chunks, packs the chunks into transactions to the
-- contract (contracts/src/EVMFS.sol), keeps its progress in a file, and at the end stores a manifest that
-- names the hash and block of every chunk. The upload page (web/src/lib/evmfs.ts) does the same from a
-- browser, with a wallet or with a key of its own, asks for a fee and keeps a history. A second contract
-- (contracts/src/EVMFSNames.sol) gives names to manifests, and a page (names-ui) registers them. The library (lib/src) finds a hash in the logs of a node, decodes it, joins the parts and
-- decompresses them.
--
-- The files and the code they are about:
--   Contract.antt            contracts/src/EVMFS.sol: the events and the storage of a call
--   Cli/Batch.antt           cli/src/batch.ts: expandFilesToUnits, packBatches, the gas estimates
--   Cli/Manifest.antt        cli/src/manifest.ts: buildManifest with its JSON text, saveLocalManifest,
--                            loadUploadState and saveUploadState
--   Cli/BlockIndex.antt      cli/src/blockIndex.ts: registerInBlockIndex
--   Cli/Upload/Resume.antt   cli/src/upload.ts: stale entries and what remains to be sent
--   Cli/Upload/Send.antt     cli/src/upload.ts: the loop over the batches and its catch
--   Cli/Upload/Assemble.antt cli/src/upload.ts: the entries of the manifest
--   Cli/Upload/Command.antt  cli/src/upload.ts: uploadCommand, deployCommand, the base URI
--   Cli/Main.antt            cli/src/index.ts: the options and the checks of the commands
--   Cli/Upload/Folder.antt   cli/src/upload.ts: the listing of the folder, walkDirectory
--   Reader/Abi.antt          lib/src/rpc.ts: abiDecodeBytes, hexToBytes, bytesToInt
--   Reader/Rpc.antt          lib/src/rpc.ts: fetchContent, fetchLogsInRange
--   Reader/Evmfs.antt        lib/src/index.ts, blockIndex.ts, decompress.ts, types.ts: the class EVMFS
--   Reader/FetchAll.antt     lib/src/index.ts: fetchAll
--   Cli/Names.antt           cli/src/names.ts: registerCommand, updateNameCommand
--   Cli/Verify.antt          cli/src/verify.ts: verifyCommand
--   Contract/Names.antt      contracts/src/EVMFSNames.sol: what register asks of a name
--   Contract/Registry.antt   contracts/src/EVMFSNames.sol: register, update, lookup, setFeeRecipient
--   Web/Units.antt           web/src/lib/evmfs.ts: expandFilesToUnits, readUnit, packBatches
--   Web/Progress.antt        web/src/lib/evmfs.ts: saveProgress, loadProgress, progressMatchesFiles
--   Web/Manifest.antt        web/src/lib/evmfs.ts: buildManifestEntries
--   Web/ConfirmedMap.antt    web/src/lib/evmfs.ts: the map of confirmed units in uploadFiles
--   Web/Upload.antt          web/src/lib/evmfs.ts: uploadFiles
--   Web/KeyUpload.antt       web/src/lib/evmfs.ts: uploadFilesWithPrivateKey
--   Web/Callbacks.antt       web/src/lib/evmfs.ts: UploadCallbacks and how uploadFiles calls them
--   Web/Files.antt           web/src/hooks/useFileProcessor.ts, lib/fee.ts, handleFiles of App.tsx
--   Web/UiState.antt         web/src/App.tsx: the state of an upload and its callbacks; UploadProgress.tsx
--   Web/App.antt             web/src/App.tsx: startUpload
--   Web/History.antt         web/src/lib/history.ts, hooks/useUploadHistory.ts, exportAsJson
--   NamesUi.antt             names-ui/src/App.tsx, wallet.ts, abi.ts
--   Web/Dropzone.antt        web/src/components/FileDropzone.tsx
--   Reader/Keccak.antt       lib/src/keccak256.ts
--   RoundTrip.antt           from the tool to the library
--   RoundTrip/Site.antt      a whole site, fetched from its manifest
--   RoundTrip/Deploy.antt    from an upload by the tool to the library
--   RoundTrip/WebPage.antt   from an upload by the page to the library
--   Examples/                tests and concrete instances of the theorems
-- The files below a component's folder hold the proofs about it. Prelude/ holds what they share: text as
-- lists of UTF-16 code units, decimal numbers, parseInt and sort of JavaScript.
--
-- State and effects. A command is a function of the folder's content, the progress file, the answer to
-- the prompt and an environment that gives keccak256, gzip and the reply to the transaction with a given
-- number; its Outcome says how it exits, which transactions it sent and what it wrote. uploadCommand and
-- deployCommand hold the same loops in two copies and share the definitions. The page's loop is a
-- function of its map of confirmed units, the gas, the storage and the transactions sent, each of which
-- is answered by its number. A record stands for the node: the block number and the logs of a range of
-- blocks. fetchAll's workers are a step relation: a step takes an item or lets the data of a running one
-- arrive. An exception or an early exit is a value. An upload with a key is the page's loop with the nonce
-- carried along. The page's view of an upload is a state that the upload's callbacks change in turn, and
-- startUpload takes the two uploads and the payment as arguments, of which uploadFiles fills one. The
-- registry of names is a state with a step relation over its transactions.
--
-- Numbers are natural. parseInt gives NaN, a number or a negative number, and each use says what that
-- does. Sizes of files, blocks and gas stay below 2^53 in practice, where a JavaScript number is exact.
--
-- Fuel. Only the scan of fetchContent runs on fuel: the latest block plus 1, of which every round uses
-- 1 and goes down 50,000 blocks, so that it is enough for any block. The attempts at a batch of the page
-- are counted down from 3, as in the code.
--
-- Parameters with documented behaviour: keccak256 (any function; where it matters, that the data at hand
-- have different hashes), gzip and gunzip (that they undo each other on the data at hand, and that gzip
-- data begin with 0x1f 0x8b), the contract behind the wallet (a receipt holds the events of the call), the
-- node (eth_getLogs returns the logs of the range, in some order), JSON.parse, commander (the names
-- that it gives the values of flags, and that no other name has a value).
--
-- The registry stands on an interface for OpenZeppelin's ERC721 (a token is minted once, other functions
-- mint none), the history on one for the browser's object store (get after put and delete, getAll), and a
-- chosen folder on the list that the browser makes of it.
--
-- Not modelled: console output and the texts of errors, the wallets, the transport of JSON-RPC, the price
-- of gas and of ETH, the views of web/ and names-ui/, the gateway, which is a
-- server in Go, the scripts, which only call libraries, and calls of the registry of names by the recipient of
-- its fee while the fee is paid: the payment succeeds or fails.
pub mod Prelude
pub mod Contract
pub mod Cli
pub mod Reader
pub mod Web
pub mod NamesUi
pub mod RoundTrip
pub mod Examples
