-- ===== src/Shard/Checkpoint.antt =====
-- crates/tpx-shard/src/checkpoint.rs: when a checkpoint is due, and what it appends to the archive.
-- The clock, in milliseconds, is an argument.
pub mod Writes
use orthos_i_dart_tpx.Base.{
  ℕ, zero, suc, ◌+◌, ◌-◌, ◌*◌, ◌%◌, ◌^◌, List, [], ◌∷◌, ◌++◌, length, replicate, Bool, true, false,
  ltb, leb, ◌==◌, ◌&&◌, ◌||◌, not, if◌then◌else◌, map,
}
use orthos_i_dart_tpx.Core.Error.{Result, ok, err}
use orthos_i_dart_tpx.Core.Footer as Footer
use orthos_i_dart_tpx.Core.Footer.{Footer}
use orthos_i_dart_tpx.Io.{Backend, append_bytes, file_len, sync}
use orthos_i_dart_tpx.Index.Toc.{Toc}
use orthos_i_dart_tpx.Index.Toc.Binary as Binary
use orthos_i_dart_tpx.Shard.{Shard}

pub record CheckpointCoordinator : Type 0 where
  pub interval_bytes : ℕ
  pub interval_ms : ℕ
  pub bytes_written_since_last : ℕ
  pub last_checkpoint_time : ℕ

unfoldable pub new_coordinator : ℕ → ℕ → ℕ → CheckpointCoordinator
new_coordinator interval_bytes interval_ms now = record {
  interval_bytes = interval_bytes;
  interval_ms = interval_ms;
  bytes_written_since_last = 0;
  last_checkpoint_time = now;
}

unfoldable pub record_bytes_written : ℕ → CheckpointCoordinator → CheckpointCoordinator
record_bytes_written bytes c = record c {
  bytes_written_since_last = (c.bytes_written_since_last + bytes) % 2 ^ 64;
}

unfoldable pub should_checkpoint : ℕ → CheckpointCoordinator → Bool
should_checkpoint now c =
    let written = c.bytes_written_since_last in
    let elapsed = (now - c.last_checkpoint_time) % 2 ^ 64 in
    if leb c.interval_bytes written then true else leb c.interval_ms elapsed && ltb 0 written

-- The sum of the shards' chunk counts in `u32`.
unfoldable pub total_chunks : {Art : Type 0} → List (Shard Art) → ℕ
total_chunks [] = 0
total_chunks (s ∷ shards) = (s.chunk_count + total_chunks shards) % 2 ^ 32

unfoldable pub pad_len : ℕ → ℕ
pad_len raw_len = let rem = raw_len % 4096 in if rem == 0 then 0 else 4096 - rem

-- The table, zeros up to the alignment, and the footer.
unfoldable pub checkpoint_block : List ℕ → List ℕ → List ℕ
unfolding pad_len
checkpoint_block toc_bytes footer_bytes =
    toc_bytes ++ (replicate (pad_len (length toc_bytes + length footer_bytes)) 0 ++ footer_bytes)

unfoldable pub store_offsets : {Art : Type 0} → ℕ → List (Shard Art) → List (Shard Art)
store_offsets new_end [] = []
store_offsets new_end (s ∷ shards) =
    record s { append_offset = new_end } ∷ store_offsets new_end shards

-- What a checkpoint changes.
pub record Checkpointed (Art : Type 0) : Type 0 where
  pub coordinator : CheckpointCoordinator
  pub shards : List (Shard Art)
  pub io : Backend

-- The footer that `execute_checkpoint` writes; `xxh64` takes the seed last.
unfoldable pub checkpoint_footer :
    {Art : Type 0} → (List ℕ → ℕ → ℕ) → List (Shard Art) → ℕ → List ℕ → Bool → Footer
unfolding total_chunks
checkpoint_footer xxh64 shards toc_offset toc_bytes is_final =
    Footer.new toc_offset (total_chunks shards) (xxh64 toc_bytes toc_offset) (not is_final)

-- The error of a failed append ends the call before anything else changes.
unfoldable pub execute_checkpoint :
    {Art : Type 0}
    → (List ℕ → ℕ → ℕ)
    → ℕ
    → Checkpointed Art
    → Toc
    → Bool
    → Checkpointed Art × Result Footer
unfolding checkpoint_footer checkpoint_block store_offsets
execute_checkpoint xxh64 now s toc is_final =
    let toc_bytes = Binary.serialize toc in
    let toc_offset = file_len s.io in
    let footer = checkpoint_footer xxh64 s.shards toc_offset toc_bytes is_final in
    let block = checkpoint_block toc_bytes (Footer.serialize footer) in
    let appended = append_bytes block s.io in
    elim (appended.1) [
      | err e ↦ (record s { io = appended.0 }, err e)
      | ok offset ↦ (
        record {
          coordinator = record s.coordinator {
            bytes_written_since_last = 0;
            last_checkpoint_time = now;
          };
          shards = store_offsets (toc_offset + length block) s.shards;
          io = sync (appended.0);
        },
        ok footer,
      )
    ]
