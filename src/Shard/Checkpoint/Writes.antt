-- ===== src/Shard/Checkpoint/Writes.antt =====
-- What `execute_checkpoint` puts into the archive.
use orthos_i_dart_tpx.Base.{ℕ, ◌≡◌, ◌∙◌, refl, List, ◌++◌, Bool, true}
use orthos_i_dart_tpx.Core.Error.{Result, ok}
use orthos_i_dart_tpx.Core.Footer as Footer
use orthos_i_dart_tpx.Core.Footer.{Footer}
use orthos_i_dart_tpx.Io.{can_write, append_bytes, file_len}
use orthos_i_dart_tpx.Io.Contents.{contents, IsBackend, append_bytes_lem, sync_lem}
use orthos_i_dart_tpx.Index.Toc.{Toc}
use orthos_i_dart_tpx.Index.Toc.Binary as Binary
use orthos_i_dart_tpx.Shard.Checkpoint.{
  Checkpointed, execute_checkpoint, checkpoint_footer, checkpoint_block,
}

module _ {Art : Type 0} (xxh64 : List ℕ → ℕ → ℕ) where
  -- The footer of a checkpoint and the bytes it appends.
  abbrev pub footer_of : Checkpointed Art → Toc → Bool → Footer
  footer_of s toc is_final =
      checkpoint_footer xxh64 s.shards (file_len s.io) (Binary.serialize toc) is_final

  abbrev pub block_of : Checkpointed Art → Toc → Bool → List ℕ
  block_of s toc is_final =
      checkpoint_block (Binary.serialize toc) (Footer.serialize (footer_of s toc is_final))

  pub record Checkpoints (s : Checkpointed Art) (toc : Toc) (is_final : Bool)
      (r : Checkpointed Art × Result Footer) : Type 0 where
    pub replied : r.1 ≡ ok (footer_of s toc is_final)
    pub bytes : contents r.0.io ≡ contents s.io ++ block_of s toc is_final
    pub on_disk : r.0.io.file ≡ contents s.io ++ block_of s toc is_final
    pub same_mode : r.0.io.mode ≡ s.io.mode
    pub valid : IsBackend r.0.io

  pub execute_checkpoint_lem :
      (now : ℕ) (s : Checkpointed Art) (toc : Toc) (is_final : Bool)
      → can_write s.io.mode ≡ true
      → IsBackend s.io
      → Checkpoints s toc is_final (execute_checkpoint xxh64 now s toc is_final)
  unfolding execute_checkpoint
  execute_checkpoint_lem now s toc is_final m v =
      let block = block_of s toc is_final in
      let done = append_bytes_lem block s.io m v in
      let can : can_write (append_bytes block s.io).0.mode ≡ true = rw done.same_mode m in
      let (synced, file) = sync_lem (append_bytes block s.io).0 can done.valid in
      rw (execute_checkpoint, done.replied)
        record {
          replied = refl;
          bytes = synced.bytes ∙ done.bytes;
          on_disk = file ∙ done.bytes;
          same_mode = synced.same_mode ∙ done.same_mode;
          valid = synced.valid;
        }
