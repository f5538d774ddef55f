-- ===== src/Lib.antt =====
-- The Go SDK of Lighthouse Backup: chunking, deduplicated pack uploads, compression, client-side
-- encryption and verified restore.
--
-- A backup walks the given paths, cuts each file into content-defined chunks, skips the chunks that
-- the server has, compresses and encrypts the others, collects them in packs that are uploaded and
-- confirmed, does the same with the directory trees, and creates a snapshot. A restore resolves the
-- tree of a snapshot, downloads packs and standalone objects, decrypts, decompresses and verifies
-- each chunk, and writes the files.
--
-- The files, and what each models:
--   Base/         names of the libraries, Boolean tests, lists over native numbers, texts as lists
--                 of bytes, Go's int as ℤ, maps as association lists
--   Json          decoded JSON values (`any`), as error bodies hold them
--   Encoding/     encoding/hex, encoding/base64 and the decimal texts of strconv
--   Errors        errors/errors.go: ApiError, NewApiError and the Is* questions; Errors/Kinds lists
--                 the formats of the errors that the SDK makes, and Errors/Outcome is what a
--                 function with a value and an error returns (or a panic)
--   Types         types/types.go: the records that the other parts exchange
--   Chunk         chunk/chunker.go: Chunker, NewChunker, Push, Flush, ilog2; Chunk/Gear is the gear
--                 table, Chunk/File is SHA256Hex and ChunkFile, and Chunk/Spec a reference scan
--                 without a buffer; Chunk/Refine, Chunk/Stream, Chunk/Bounds, Chunk/Log and
--                 Chunk/File/Reading prove
--   Pool          pool/pool.go: Batch, and in Pool/Workers the goroutines of Parallel as a step
--                 relation; Pool/Batches, Pool/Workers/Invariant and Pool/Workers/Progress prove
--   Codec         codec/zstd.go; Codec/RoundTrip proves
--   Encrypt       encrypt/encryption.go: sealing, keys, wrapping and rotation; Encrypt/Keyfile is
--                 the keyfile; Encrypt/Objects, Encrypt/Dek and Encrypt/Keyfile/RoundTrip prove
--   Dedup         dedup/bloom.go; Dedup/Probes proves
--   SourceId      client/source.go; SourceId/Kept proves
--   Pipeline      pipeline/: Pipeline/Objects is the encoding of one object in backup.go and its
--                 decoding in restore.go, Pipeline/Session the state of a backup and the calls to
--                 the outside, Pipeline/Pack is flushPack; Pipeline/Upload is
--                 processFileChunks; Pipeline/Keys is initBackupEncryption, RotateSnapshotTMK and
--                 loadSnapshotAndDEK; Pipeline/Restore is restore.go, with Restore/Target for
--                 safeJoinTarget, Restore/Download for the downloads, Restore/Write for what is
--                 done to the disk, and Restore/Run for PerformRestore. Pipeline/Objects/Laws,
--                 Pipeline/Objects/Guess, Pipeline/Pack/Places, Pipeline/Pack/Flush,
--                 Pipeline/Upload/Accounts, Pipeline/Upload/Seen, Pipeline/Upload/Files,
--                 Pipeline/Keys/Lifecycle and of Pipeline/Restore Complete, Names, Inside,
--                 Contents, Verified, Confined, Depth, Seen and Run prove
--   Tree          tree/tree.go: the canonical JSON of a value; Tree/Nodes is EncodeTree and HashTree;
--                 Tree/Spec is the JSON that a value stands for, Tree/Strings, Tree/Numbers and
--                 Tree/Read a reader of it; Tree/Fields, Tree/NodeFields, Tree/Plain and
--                 Tree/Injective prove
--   Api           api/: HttpClient, request and workspaceRequest; Api/Endpoints has one function for
--                 each endpoint, Api/S3 is S3Put and S3Get, Api/Auth is auth.go; Api/Escape,
--                 Api/Requests and Api/Answers prove
--   Client        client/client.go: BackupClient and what changes it; Client/Make is
--                 NewBackupClient, Client/Operations are the guarded operations, Client/Transfer
--                 is Restore and RotateTMK; Client/Requests, Client/Guards, Client/Starts,
--                 Client/Reach, Client/SignIns and Client/Invariant prove
--   Tests/        the theorems at concrete inputs, with toy libraries
--
-- How the code is read. Stateful code passes its state explicitly. A function that returns a value
-- and an error gives an `Outcome`, which is `ok`, `err` or `panic`; the calls that reach the server
-- and the store are recorded in their order, and each answer is a parameter: in a backup it may
-- depend on the calls before it, in a restore and in one request of the HTTP client it depends on
-- the call alone. Machine integers keep their wrap-around (`% 2 ^ 32`, `% 2 ^ 64`) where the code
-- can reach it; offsets and sizes that come from outside are ℤ, as Go's int may be negative.
-- Progress events, which only report, are left out, but for the slice expression in the message
-- of flushPack, which can panic.
--
-- Libraries. zstd, AES-GCM, HKDF, Argon2, SHA-256, Keccak, secp256k1, the random source, the clock,
-- the reading of JSON, the file system and the network are parameters. `IsZstd`, `IsAead` and
-- `IsKeyfileLibrary` name what the code relies on: decoding undoes encoding, opening undoes sealing
-- with a tag of 16 bytes, a derived key has 32 bytes, and a keyfile is read as it was written.
--
-- Fuel. The loop of Push runs on as much fuel as there are bytes in the buffer, one for each round;
-- `ilog2` on 64, as it halves a uint of 64 bits; Batch on one more than the items, as each round
-- takes at least one where the size is not 0; a decimal text on one more than the number. The fuel
-- of resolveTree and restoreMeta bounds the depth of the tree, and running out of it is a panic, as
-- the code has no stack left then; a depth above that of the trees is enough for restoreMeta.
--
-- Not modelled: the JSON decoders of types/types.go, and of pipeline/ the walk over the
-- files, the making of the incremental index, the trees and the snapshot of a backup, and so Backup
-- of client/client.go. In a restore the packs of a batch are taken one after another, and what
-- restoreMeta does is a list of the calls that it makes, with the paths that they are given: where
-- such a path is, or passes, a symbolic link is up to the disk. utils/ only takes addresses.
pub mod Base
pub mod Json
pub mod Encoding
pub mod Errors
pub mod Types
pub mod Chunk
pub mod Pool
pub mod Codec
pub mod Encrypt
pub mod Dedup
pub mod Pipeline
pub mod SourceId
pub mod Tree
pub mod Api
pub mod Client
pub mod Tests
