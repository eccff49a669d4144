-- ===== src/Lib.antt =====
-- Verification of vecvec, a vector database with versions (crates/vecvec-core).
--
-- A collection (collection.rs) takes vectors into one appendable segment, seals it into immutable
-- segments, keeps its deletions as one bitmap, and commits what it holds as a version of a commit
-- DAG (version/). Segments (segment/) map collection-wide ids to rows of a flat vector store
-- (vector.rs), which normalizes by the metric (distance/). What is to survive a crash goes through
-- a write-ahead log and through framed files that are replaced as a whole (persist/).
--
-- The modules, and the code each is about, under crates/vecvec-core/src:
--   Prelude: names of the libraries, lists, slices, maps and sets. Error: error.rs, with a panic as
--   an outcome of its own. Bytes: little-endian fields, the checksum of the crate crc32fast and
--   the serialization of rmp-serde as parameters.
--   Persist.Wal: persist/wal.rs. Its state is the file's bytes, how many are synced, and the count;
--   open_log is Wal::open. Records and Torn are about whole logs and cut ones, Reopen about
--   reading a file that was cut, Crash about what a crash leaves. Persist.Atomic:
--   persist/atomic.rs; Frames, Integrity and Accepted are about its parser, Replace about the
--   order of the calls in write_atomic.
--   Version.Deletion, Manifest, Policy and Store: version/deletion.rs, manifest.rs, policy.rs and
--   store.rs. The bitmap of the crate roaring is the interface Treemap. Store.Pointers is about
--   commits, tags and branches, Retained and Collect about garbage collection, Differ about diffs, Snapshots
--   about saving and loading.
--   Distance: distance/mod.rs and scalar.rs, over the interface Floats, which names the operations
--   on 32-bit floats and assumes no law of them; Distance.Bytes8: the kernels on quantized bytes.
--   Vector: vector.rs.
--   Segment.IdMap, Appendable and Sealed: segment/id_map.rs, appendable.rs, sealed.rs and set.rs.
--   Rows says what rows a segment holds; Listing and Filled are about reading them back.
--   Collection.State, Write, Loops and Read: collection.rs. The state is the record Collection, an
--   operation is a function from it to an outcome with the next state, and the clock is an argument.
--   Shapes says what a successful operation leaves, Registry and Sound what always holds, Steps
--   are the histories, Travel is about versions, Effects about single points, Compacting and
--   Collecting about the two kinds of cleaning up.
--   Index.Order, TopK and Scan: index/mod.rs, the exact top-k search: sorted lists of keys, the
--   collector that keeps k of them, and the two scans; Results: what they return. Index.Deleted: index/deleted.rs, the set of
--   soft deletes under the interleavings of its read-copy-update.
--   Hnsw.Visited, Layer and GraphLayers: index/hnsw/visited.rs, search.rs, graph.rs and the search of
--   mod.rs. A heap is the ascending list of its keys. Marks is about what is visited, Beams about
--   the search of a layer, Searching about the whole search.
--   Payload: payload.rs, the evaluation of filters; Payload.Spec says what a filter means.
--   Collection.Contents: what a collection holds, as rows in the order of their writes, deletions
--   and payloads, with Keeping about the operations; Collection.Tidy: what holds of its segments' ids.
--   Collection.Search: search and search_at, over the interface Searches, which is what a segment
--   finds; Found is about what they return.
--   Durable: durable.rs. Disk is the directory: its files, decoded, with every state that it has
--   passed, and what a crash leaves of one: everything but records of a log that are not synced.
--   The store of segment/store.rs is the map of its segment files. State is the record
--   DurableCollection and how it is opened, Write the operations, Read the reads, Trigger when a
--   collection compacts by itself. Replay is about the log, Saved about the files of a checkpoint,
--   Standing about directories that open and crashes, Opening about recovery. Files, Safe and
--   Versions are about writing segments and versions, Listed, Switch and Checkpoint about the
--   checkpoint, Logging, Records and Batch about batches, Recovery about whole operations, History
--   about sequences of them, Survival about
--   crashes, Cut about a crash in the middle of a batch, Reclaim about garbage collection, Fresh
--   about a new directory.
--   Examples: runs at concrete inputs.
--
-- Bounds. Numbers are natural numbers, and a field of w bits is taken modulo 2 ^ w where the code
-- casts or adds: local ids modulo 2 ^ 32, the id counters and the sums in the frame parser modulo
-- 2 ^ 64; version numbers are taken not to run out. read_records runs on fuel, one more than the
-- bytes of the file, which is enough as each record takes eight bytes at least; the search of a layer
-- of a graph runs on fuel, one more than the points, as a point is queued once at most; `decimal` prints
-- twenty digits, as many as a 64-bit number has.
--
-- Each operation of a collection is one step, as it holds its locks: interleavings within an
-- operation are not modelled. Of a durable collection's files, the ones that are replaced as a
-- whole are taken to be written at once, as Persist.Atomic says; failing calls of the system, the
-- archives of export and import, the cache of segment/store.rs and the codec are left out. A durable
-- log holds the operations themselves: that a record is read back as it was written is taken, which
-- for a payload of JSON null is not so. The name of a new log is taken to survive a crash, though
-- the code does not sync the directory. The scores and distances of a graph's search are functions
-- of a point's number: that vectors.get has the vectors of a graph's points is not shown. The
-- histories have no restore, compaction and garbage collection of a durable collection. Not
-- modelled either: the searches of segments (segment/search.rs), recommend, the flat index, the
-- construction of HNSW graphs, quantization, the SIMD kernels, and the crates of the server, the
-- client and the command line, which are transport.
pub mod Prelude
pub mod Payload
pub mod Error
pub mod Bytes
pub mod Persist
pub mod Version
pub mod Distance
pub mod Vector
pub mod Segment
pub mod Collection
pub mod Examples
pub mod Index
pub mod Hnsw
pub mod Durable
