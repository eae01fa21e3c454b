-- ===== src/Shard/Engine/Compaction.antt =====
-- The content store over a compaction: `compact` cuts the archive down and keeps the store.
use orthos_i_dart_tpx.Base.{
  ℕ, ◌+◌, ◌-◌, ◌≤◌, ◌<◌, ◌≡◌, refl, arith, List, length, length-append, length-take,
  length-replicate, take, replicate, true, false, leb, ◌==◌, some, inl,
}
use orthos_i_dart_tpx.Core.Error.{ok, err, io, unexpected_eof}
use orthos_i_dart_tpx.Core.DType.{DTypeId}
use orthos_i_dart_tpx.Io.{can_write, read_span, set_len, write_at}
use orthos_i_dart_tpx.Io.Contents.{contents, IsBackend, write_at_lem, truncate_lem}
use orthos_i_dart_tpx.Dedup.Cdc.{CdcSegment}
use orthos_i_dart_tpx.Dedup.ContentStore as ContentStore
use orthos_i_dart_tpx.Dedup.ContentStore.{ContentEntry}
use orthos_i_dart_tpx.Shard.{Platform}
use orthos_i_dart_tpx.Shard.Engine.{Engine, put_segment}
use orthos_i_dart_tpx.Shard.Engine.Admin.{reset, header_block}
use orthos_i_dart_tpx.Shard.Engine.Store.{ref_of}

length-set_len : (file : List ℕ) (n : ℕ) → length (set_len file n) ≡ n
unfolding set_len
length-set_len file n = omega (
  arith,
  length-append (take n file) (replicate (n - length file) 0),
  length-take n file,
  length-replicate {A = ℕ} (n - length file) 0,
)

read_span_past :
    (bytes : List ℕ) (offset len : ℕ)
    → length bytes ≤ offset
    → 0 < len
    → read_span bytes offset len ≡ err (io unexpected_eof)
unfolding read_span
read_span_past bytes offset len past some_bytes =
    let outside : leb (offset + len) (length bytes) ≡ false = ground arith in
    let wanted : (len == 0) ≡ false = ground arith in rw (wanted, outside) refl

-- Once `compact` has cut the archive down to its header, a segment that the content store has, with a
-- chunk behind the header, is not written again: the reply to the next `put` of it is the reference
-- from before, and reading at that reference fails.
pub put_segment-reset :
    {Art : Type 0} (platform : Platform Art) (e : Engine Art) (s_id : ℕ) (dtype : DTypeId)
    (bytes : List ℕ) (seg : CdcSegment) (entry : ContentEntry)
    → can_write e.io.mode ≡ true
    → IsBackend e.io
    → ContentStore.lookup e.content_store seg.content_hash ≡ some entry
    → length (header_block e.header) ≤ entry.chunk_offset
    → 0 < entry.chunk_len
    → let e' = (reset platform e).0 in
      ((reset platform e).1 ≡ ok tt)
      × ((put_segment platform s_id dtype bytes seg e').1 ≡ ok (ref_of entry))
      × (read_span (contents e'.io) entry.chunk_offset entry.chunk_len ≡ err (io unexpected_eof))
unfolding reset put_segment
put_segment-reset platform e s_id dtype bytes seg entry m v found behind some_bytes =
    let block = header_block e.header in
    let done = write_at_lem 0 block e.io m (inl (omega arith)) v in
    let io' = (write_at 0 block e.io).0 in
    let (left, ok_io) = truncate_lem (length block) io' in
    rw (reset, done.replied)
      (
        refl,
        rw (put_segment, found) refl,
        read_span_past _ entry.chunk_offset entry.chunk_len
            (rw left (omega (arith, behind, length-set_len io'.file (length block)))) some_bytes,
      )
