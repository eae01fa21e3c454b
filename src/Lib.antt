-- ===== src/Lib.antt =====
-- Orthos iDart TPX: a storage engine for tensors, modelled as total functions on lists of bytes
-- and on plain state, with the theorems that make its parts correct.
--
-- An archive is a file: a header of 48 bytes, chunks at aligned offsets, tables of contents and
-- footers of 24 bytes. A value is cut into chunks by content, each chunk is filtered and compressed
-- and stored once under its content hash; a key has a chain of versions that refer to chunks.
--
-- Base (with Base/Tests, Lists, Wrap, Bits): shared names and lemmas, on lists, machine words and
--   the binary digits of `bit_xor` and `bit_or`.
-- Core: crates/tpx-core. Error is `TpxError` with `Result` and `?`; Cursor is the reading of a
--   buffer (`std::io::Cursor` with the little-endian reads and writes); DType, FilterId, CodecId,
--   AttrType and Types are types.rs; Attrs is the map of attrs.rs with its binary form in
--   Attrs/Binary, and Utf8 says which bytes are a text; Header, Footer and Chunk are
--   header.rs, footer.rs and chunk.rs, with `serialize`, `deserialize`, `validate`, `read_at`,
--   `scan_for_footer` and `pad_to_align` under their own names.
-- Filter: crates/tpx-filter. DeltaZigzag is delta_zigzag.rs (`encode`, `decode`), ByteShuffle is
--   byte_shuffle.rs, BitShuffle is bit_shuffle.rs, Dispatch is `get_filter` of lib.rs with `apply`
--   and `revert`.
-- Codec.Chimp128: crates/tpx-codec/src/chimp128.rs. Chimp128 is the encoder, Chimp128.Decoder the
--   decoder, each method a function under its own name from the state before to the state after;
--   Stream, Zeros, XorPayload, Value and RoundTrip prove, bottom up, that they agree.
-- Codec.Wrappers: the codecs Raw and Chimp128 of crates/tpx-codec/src/lib.rs, bytes to bytes;
--   Codec.Dispatch is `get_codec` with the wrappers of zstd and LZ4 (zstd_codec.rs, lz4_codec.rs),
--   Codec.AutoSelect is auto_select.rs.
-- Version: crates/tpx-version/src/chain.rs, `append` with retention, the lookups and `diff`.
-- Dedup.Cdc and Dedup.ContentStore: crates/tpx-dedup/src/cdc.rs and content_store.rs, `cdc_chunk`
--   and the operations of the store.
-- Io: crates/tpx-io/src/mmap.rs, the file behind a buffer for appends. Io.Contents says what each
--   operation does to the bytes of the file and the buffer together; Io.Refine compares runs of
--   operations with those on a plain file.
-- Index: crates/tpx-index. Surf and RadixSpline are surf.rs and radix_spline.rs; Toc is toc.rs, with
--   `serialize` and `deserialize` in Toc/Binary, which takes the order in which a `HashMap` gives the
--   attributes of an entry as an argument, one for each entry (so does `compact`); Toc/Lookup,
--   Updates and Prefix say what is found.
-- Shard: crates/tpx-shard. Shard is shard.rs and router.rs; Checkpoint is checkpoint.rs; Chunks makes
--   and opens one chunk as engine.rs does; Engine is the state of `ShardedEngine` with `put`, `delete`
--   and `checkpoint`, Engine/Batch is `put_batch`, Engine/Read its reading operations, Engine/Admin
--   `create`, `open` (there `open_archive`), `flush`, `compact` and `close`. Every call is a function from the engine before
--   it to the engine after it and the result. The prefix tree of a shard, the hashes, the checksum
--   and the compressors are a record (`Platform`) that these functions take; Shard/Chunks/RoundTrip
--   states what is relied on of them (`IsPlatform`). Engine/Store and Engine/PutGet carry the
--   invariant (`IsEngine`): the buffer starts where the file ends, the content store is right about
--   the archive, the table is in order, and the data of each entry is in the archive. Contents whose
--   hashes would collide are kept apart by a predicate on the contents in play.
-- The modules named Examples apply the theorems to concrete inputs.
--
-- Conventions. A byte, a word, a float's bit pattern and a text's byte are natural numbers; the
-- wrap-around of a machine word is written out, as in a release build, and predicates (IsByte,
-- IsU32, ...) bound the inputs. A byte-slice operation that mutates is a function to the new state.
--
-- Fuel. The backward scan (`scan_loop`) gets one round more than the file has whole blocks, and each
-- round steps back by a block; without fuel it is an error that the code has nowhere; `chunk_loop` gets one round per byte, and each round advances by
-- a byte at least if the maximal size is not 0; `decode_values` needs one round more than there are
-- values, `decode_elements` as many as the stream says it has. `bit_length` and `low_zeros` go
-- through the 64 digits of a word. `Attrs::deserialize` gets a round for each byte, and each round
-- reads one at least.
--
-- Not modelled: the third parties' hashes, checksum and compressors, which are parameters, with the
-- texts of their errors; the entropy estimate, which rests on a floating-point logarithm and is a
-- parameter of the codec choice; the dictionary, which the zstd crate trains; the radix tree, which
-- the engine fills and never reads; the database layer above the engine, and what two
-- threads may do to one engine at the same time; failures of the file system other than a missing
-- file, a lock and a read past the end; hardware offload, bindings and the command line, which have
-- no logic of their own.
pub mod Base
pub mod Core
pub mod Filter
pub mod Codec
pub mod Version
pub mod Dedup
pub mod Io
pub mod Index
pub mod Shard
