-- ===== src/Lib.antt =====
-- DNA-DB: a database engine in Rust, in engine/src, that stores records as strands of base-4 codons
-- with complements, keeps versions for snapshot isolation, logs ahead of its writes, and masks records
-- by overlays.
--
-- The parts and their files:
--   Model           engine/src/model.rs: the strand, its codons and telomere, as data.
--   Encoding        engine/src/encoding.rs: bytes to codons and back. The AVX2 loop is modelled
--                   lane by lane, and `Cpu` says what the machine offers.
--   Complement      engine/src/complement.rs: the complement of a strand, and the reports of corrupt
--                   symbols. `none` is a panic.
--   Mvcc            engine/src/mvcc.rs: the chain of versions of one record.
--   Transaction     engine/src/transaction.rs: the manager that gives out snapshots, checks for
--                   conflicts and commits. It holds a chain of Mvcc for each record, and compacts them
--                   below the oldest snapshot. An operation takes the manager and returns the new one;
--                   `Transaction.Invariant.Call` is what clients do, one call after another.
--   Wal             engine/src/wal.rs: the log, as the bytes of its file and the sidecar with the next
--                   sequence. `Wal.Refinement.LogOp` is what the engine does with it, restarts included.
--   Codec           engine/src/codec.rs: the frame of a strand.
--   Storage         engine/src/storage.rs: the three files of a collection, with the maps that grow.
--                   A map is the list of the bytes of its file. What was written to it and the zeros
--                   behind it are `Storage.Append.Holds`, and `Storage.Reopen.IsCollection` for all three.
--   Integrity       engine/src/integrity.rs: checksums in the meta file, and the scrubber.
--   Processor       engine/src/processor.rs: from an entry of the log to its strand (Encoding and
--                   Complement), which Codec frames, Storage stores and Integrity records.
--   Recovery        engine/src/recovery.rs: a start processes the entries of the log (Wal) that are
--                   above the highest version in the strand file.
--   Replication     engine/src/replication.rs: a replica polls the log of a source and processes the
--                   entries above its checkpoint.
--   Durable         engine/src/transaction_durable.rs: a commit logs and processes its writes before the
--                   manager of Transaction makes them visible, and a restart replays the log.
--   Query           engine/src/query: queries and the clauses they are compiled to (ast.rs, guide.rs,
--                   compile.rs, fast_match.rs), the batched filter (vector.rs), and the hash and range
--                   indexes over introns (index.rs).
--   GroupCommit     engine/src/group_commit.rs: after which records the log is to be synced.
--   Audit           engine/src/audit.rs: the hash chain of audit entries.
--   Auth            engine/src/auth.rs: identities, credentials and session tokens.
--   Overlay         engine/src/overlay.rs and engine/src/privacy.rs: overlays with inheritance, which
--                   name what a session of Auth sees, and the masking of records by them.
--   Lifecycle       engine/src/lifecycle.rs: telomere counters, expiry, and the pool of deleted strands.
--   Histone         engine/src/histone.rs: temperatures of blocks, the rebalance tick, compaction plans.
--   Prelude         shared: lists, maps, equality tests, words, little-endian bytes, stable sorts.
--
-- Names are the source's, in this language's spelling. A `u16`, `u32`, `u64` or `usize` is a natural
-- number, and the arithmetic that saturates or wraps is written out. A hash map is an association list
-- that is asked with `get`. An operation that mutates returns the new state; one that fails returns
-- the error without a state, where the source leaves it as it was.
--
-- Fuel: the loops of the log read at least eight bytes in a round and have as many rounds as the file
-- has bytes and one more; so do the scans of the strand, complement and meta files, which read six,
-- four and twelve bytes at least. A map of a mebibyte doubles in 44 rounds to more than a `usize` counts,
-- and has 64. The recursion along `extends` has as many rounds as there are definitions and
-- one more. The vector loop has as many rounds as there are bytes. The theorems that this is enough are
-- among the results.
--
-- From other crates, as parameters: the hash of secrets (blake3), the text of uuids, the serialiser of
-- audit entries, strands, codons and query literals (bincode) and their hash, the checksum (crc32fast),
-- and the texts of checkpoints and of logged operations (serde_json). Readings of the clock and fresh
-- uuids are arguments.
--
-- Not modelled: failures of the operating system other than the end of a file; flush and fsync, which
-- the model's files do not need; of the durable store the indexes for sorting, strings and trigrams,
-- the query paths over them, and the operations of the wire protocol; of queries the LIKE patterns, the
-- files of the indexes, planning, scans and segments; bulk transfer, the wire protocol, configuration,
-- TLS, the servers and the clients; of Histone the co-location plans and the merge of segments.
pub mod Prelude
pub mod Model
pub mod Complement
pub mod Encoding
pub mod Mvcc
pub mod Transaction
pub mod Wal
pub mod Codec
pub mod Storage
pub mod Integrity
pub mod Processor
pub mod Durable
pub mod Query
pub mod Recovery
pub mod Replication
pub mod GroupCommit
pub mod Audit
pub mod Auth
pub mod Overlay
pub mod Lifecycle
pub mod Histone
