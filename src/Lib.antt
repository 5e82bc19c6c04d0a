-- ===== src/Lib.antt =====
-- PlotJuggler core: the storage engine of pj_datastore and the wire format of pj_base.
--
-- The program keeps time series and media for display. A host or a plugin pushes samples and
-- payloads; the engine stores them and answers queries by time. Two stores stand side by side.
-- ObjectStore keeps, for every object topic, a series of opaque payloads ordered by time, under a
-- retention budget. The columnar path keeps, for every topic, sealed chunks: rows are collected in
-- typed column buffers, and sealing a chunk encodes each column; queries read the chunks. The
-- engine owns the datasets, the topics and their storages, and adds the sealed chunks to them; the
-- type registry keeps the schema of every topic; the derived engine keeps the graph of the nodes
-- that compute one topic from others. The builtin message types travel as protobuf, written and
-- read by a small codec of their own.
--
-- Which file models which part:
-- - Prelude: shared names; lists, comparisons and binary searches over the native numbers, and
--   signed 64-bit integers (Prelude/Int), whose wrap-around is written out. Bytes: little-endian
--   words and the bits of a byte, for a little-endian host.
-- - ObjectSeries: the per-topic series of pj_datastore/src/object_store.cpp (evictFront,
--   applyRetention, pushOwned, pushLazy, evictBefore, indexAt, latestAt, at, resolveEntry).
-- - ObjectStore: the store of the same file: the topic table (registerTopic, findTopic,
--   removeTopic, clear), the calls that address a series by its id, and in ObjectStore/Flush the
--   two phases of flushTo. ObjectStore/Runs has histories of calls on several stores.
-- - Buffer: pj_datastore/src/buffer.cpp, RawBuffer and BitVector, and the BitSpan of
--   pj_base/include/pj_base/span.hpp.
-- - Encoding: pj_datastore/src/encoding.cpp: constant, frame of reference, dictionary and packed
--   bools. Its reads as double (Encoding/Doubles) take floating point as a record of parameters.
-- - ColumnBuffer: pj_datastore/src/column_buffer.cpp: the typed buffer of one column with its
--   validity bits, string offsets and bulk appends.
-- - Chunk: pj_datastore/src/chunk.cpp: the reads of a sealed chunk, row by row and in bulk, and
--   the case of seal for integer columns.
-- - ChunkBuilder: TopicChunkBuilder of pj_datastore/src/chunk.cpp. ChunkBuilder has the statistics
--   and the encoding of a column in every case of seal, ChunkBuilder/Builder the rows, the bulk
--   columns and seal itself.
-- - Query: pj_datastore/src/query.cpp: RangeCursor and latestAt (Query), SeriesCursor and
--   SeriesReader (Query/Series, Query/Reader).
-- - TopicStorage: pj_datastore/src/topic_storage.cpp: appendSealedChunk, evictBefore, the times of a
--   topic, its metadata, its counters and its column descriptors.
-- - TypeTree: pj_base/src/type_tree.cpp: schema trees, their leaf paths and the count of leaves.
-- - TypeRegistry: pj_datastore/src/type_registry.cpp: registering, looking up and evolving schemas.
-- - Engine: pj_datastore/src/engine.cpp: time domains, datasets, topics, commitChunks and retention;
--   flushTo in Engine/Flush, the sorting of reported ids in Engine/Ids.
-- - DerivedEngine: the graph part of pj_datastore/src/derived_engine.cpp, with checkCycle.
-- - Wire: pj_base/src/builtin/protobuf_wire.hpp: Writer (Wire/Writer), Reader, parseFields and
--   the packed arrays (Wire/Reader).
--
-- How the code corresponds. A struct is a record with the source's fields, a call that changes
-- state returns the new state, an error is a value. A mutex leaves no trace: every call is atomic.
-- Payload callbacks, memory anchors and clocks are parameters. A hash map is an association list
-- or its contents. A byte vector is a list of numbers; that they are below 256 is a hypothesis
-- where it matters. An assertion is a precondition. Pointers into a deque are indices. Sizes and
-- ids keep their width where the code can reach it: the byte count of a series wraps at 2^64, an
-- id at 2^32, offsets and lengths at their own width.
--
-- Bounds and fuel. appendVarint and readVarint run on ten rounds, the source's own bound for the
-- reader and enough for any 64-bit value. parseFields runs on fuel: the bytes of the message are
-- enough for any handler that does not move back. The loops over rows run over the rows of the
-- chunk. The loop of readPackedFixed32 runs on the bytes of the payload. RangeCursor::forEach is
-- on fuel that the caller gives. The search of checkCycle runs on one round more than the inputs
-- and all edges of the graph. An id printed in decimal has at most ten digits.
--
-- Not modelled: the writer and the reader above the engine, the transforms of the derived engine
-- with the adding of nodes and their order, the plugin data host and the Arrow import, the message
-- codecs above the wire format, the plugin ABI and its loaders, the dialog protocol, number
-- parsing, the colour maps, and what is pure input and output, generated, vendored, an example, a
-- test or a benchmark.
pub mod Buffer
pub mod Bytes
pub mod Chunk
pub mod ChunkBuilder
pub mod ColumnBuffer
pub mod DerivedEngine
pub mod Encoding
pub mod Engine
pub mod ObjectSeries
pub mod ObjectStore
pub mod Prelude
pub mod Query
pub mod TopicStorage
pub mod TypeRegistry
pub mod TypeTree
pub mod Wire
