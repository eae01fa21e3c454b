-- ===== src/Index.antt =====
-- crates/tpx-index: the table of contents of an archive, with its range filter and its spline.
pub mod Surf
pub mod RadixSpline
pub mod Toc
