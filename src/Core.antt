-- ===== src/Core.antt =====
-- crates/tpx-core: the types, the errors and the binary structures of an archive.
pub mod Examples
pub mod Error
pub mod Cursor
pub mod DType
pub mod FilterId
pub mod CodecId
pub mod AttrType
pub mod Utf8
pub mod Types
pub mod Attrs
pub mod Header
pub mod Footer
pub mod Chunk
