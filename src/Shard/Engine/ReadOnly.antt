-- ===== src/Shard/Engine/ReadOnly.antt =====
-- An archive that was opened to be read is not changed.
use orthos_i_dart_tpx.Base.{ℕ, ◌≡◌, refl, List, [], ◌∷◌, Bool, false, Bool-cases, inl, inr}
use orthos_i_dart_tpx.Core.Error.{Result, err, read_only_mode}
use orthos_i_dart_tpx.Core.DType.{DTypeId}
use orthos_i_dart_tpx.Core.Attrs.{Attrs}
use orthos_i_dart_tpx.Io.{Backend, can_write, append_bytes, close}
use orthos_i_dart_tpx.Index.Toc.{lookup_prefix}
use orthos_i_dart_tpx.Shard.{Platform}
use orthos_i_dart_tpx.Shard.Checkpoint.{execute_checkpoint}
use orthos_i_dart_tpx.Shard.Engine as Engine
use orthos_i_dart_tpx.Shard.Engine.{Engine, put_with_retention, checkpoint_as}
use orthos_i_dart_tpx.Shard.Engine.Batch as Batch
use orthos_i_dart_tpx.Shard.Engine.Batch.{BatchTensor}
use orthos_i_dart_tpx.Shard.Engine.Read as Read
use orthos_i_dart_tpx.Shard.Engine.Read.{
  read_chunks, read_tensor_from_entry, find_entry, version_entry, get_each, insert_tensor,
}
use orthos_i_dart_tpx.Shard.Engine.Admin as Admin
use orthos_i_dart_tpx.Shard.Engine.Quiet.{
  IsQuiet, Untouched, untouched, Untouched-trans, get_quiet, get_each_quiet, get_batch_quiet,
  get_version_quiet,
}

-- The calls of a client that may change the engine. `put` is the case of `put_with_retention` with
-- the default policy; `get_attrs`, `keys`, `list_versions` and `diff` return no engine.
pub data EngineOp : Type 0 where
  put : ℕ → List ℕ → List ℕ → DTypeId → List ℕ → Attrs → List ℕ → EngineOp
  delete : List ℕ → EngineOp
  get : List ℕ → EngineOp
  get_version : List ℕ → ℕ → EngineOp
  checkpoint : ℕ → EngineOp
  flush : ℕ → EngineOp
  compact : (ℕ → Attrs → Attrs) → ℕ → EngineOp
  close_archive : ℕ → EngineOp
  put_batch : ℕ → List BatchTensor → EngineOp
  get_prefix : List ℕ → EngineOp
  get_batch : List (List ℕ) → EngineOp

append_refused :
    (bytes : List ℕ) (io : Backend)
    → can_write io.mode ≡ false
    → ((append_bytes bytes io).0 ≡ io) × ((append_bytes bytes io).1 ≡ err read_only_mode)
unfolding append_bytes
append_refused bytes io h = rw h (refl, refl)

module _ {Art : Type 0} (platform : Platform Art) where
  -- The engine after a call.
  unfoldable pub after : EngineOp → Engine Art → Engine Art
  after (put now key bytes dtype shape attrs retain) e =
      (put_with_retention platform now key bytes dtype shape attrs retain e).0
  after (delete key) e = (Engine.delete platform key e).0
  after (get key) e = (Read.get platform key e).0
  after (get_version key version) e = (Read.get_version platform key version e).0
  after (checkpoint now) e = (Engine.checkpoint platform now e).0
  after (flush now) e = (Admin.flush platform now e).0
  after (compact iterate now) e = (Admin.compact platform iterate now e).0
  after (close_archive now) e = (Admin.close platform now e).0
  after (put_batch now tensors) e = (Batch.put_batch platform now tensors e).0
  after (get_prefix prefix) e = (Read.get_prefix platform prefix e).0
  after (get_batch keys) e = (Read.get_batch platform keys e).0

  unfoldable pub after_all : List EngineOp → Engine Art → Engine Art
  unfolding after
  after_all [] e = e
  after_all (op ∷ ops) e = after_all ops (after op e)

  -- An engine that was opened to be read.
  pub record IsReadOnly (e : Engine Art) : Type 0 where
    pub engine_refuses : can_write e.mode ≡ false
    pub quiet : IsQuiet e.io

  -- A checkpoint fails at its append.
  record Refused {A : Type 0} (e : Engine Art) (r : Engine Art × Result A) : Type 0 where
    failed : r.1 ≡ err read_only_mode
    left : Untouched e r.0

  checkpoint_quiet :
      (is_final : Bool) (now : ℕ) (e : Engine Art)
      → IsQuiet e.io
      → Refused e (checkpoint_as platform is_final now e)
  unfolding checkpoint_as execute_checkpoint
  checkpoint_quiet is_final now e q =
      rw (checkpoint_as, execute_checkpoint, (append_refused _ e.io q.refused).1)
        record {
          failed = refl;
          left = record {
            same_io = (append_refused _ e.io q.refused).0;
            same_toc = refl;
            same_shards = refl;
            same_store = refl;
            same_mode = refl;
          };
        }

  close_quiet :
      (now : ℕ) (e : Engine Art) → IsReadOnly e → Untouched e (Admin.close platform now e).0
  unfolding Admin.close close
  close_quiet now e v = elim (Bool-cases e.is_closed) [
    | inl closed ↦
        rw (Admin.close, closed)
          record {
            same_io = refl;
            same_toc = refl;
            same_shards = refl;
            same_store = refl;
            same_mode = refl;
          }
    | inr open_yet ↦
        rw (Admin.close, open_yet, v.engine_refuses)
          record {
            same_io = rw v.quiet.refused refl;
            same_toc = refl;
            same_shards = refl;
            same_store = refl;
            same_mode = refl;
          }
  ]

  flush_quiet :
      (now : ℕ) (e : Engine Art) → IsReadOnly e → Untouched e (Admin.flush platform now e).0
  unfolding Admin.flush Engine.checkpoint
  flush_quiet now e v =
      let refused = checkpoint_quiet false now e v.quiet in
      rw (Admin.flush, Engine.checkpoint, refused.failed) refused.left

  after_quiet : (op : EngineOp) (e : Engine Art) → IsReadOnly e → Untouched e (after op e)
  unfolding after put_with_retention Batch.put_batch Read.get_prefix Engine.delete Admin.compact
      Engine.checkpoint
  after_quiet (put now key bytes dtype shape attrs retain) e v =
      rw (after, put_with_retention, v.engine_refuses) (untouched e)
  after_quiet (delete key) e v = rw (after, Engine.delete, v.engine_refuses) (untouched e)
  after_quiet (get key) e v = get_quiet platform key e v.quiet
  after_quiet (get_version key version) e v = get_version_quiet platform key version e v.quiet
  after_quiet (checkpoint now) e v = (checkpoint_quiet false now e v.quiet).left
  after_quiet (flush now) e v = flush_quiet now e v
  after_quiet (compact iterate now) e v = rw (after, Admin.compact, v.engine_refuses) (untouched e)
  after_quiet (close_archive now) e v = close_quiet now e v
  after_quiet (put_batch now tensors) e v =
      rw (after, Batch.put_batch, v.engine_refuses) (untouched e)
  after_quiet (get_prefix prefix) e v =
      get_each_quiet platform [] (lookup_prefix e.master_toc prefix) e v.quiet
  after_quiet (get_batch keys) e v = get_batch_quiet platform keys e v.quiet

  Untouched-IsReadOnly : (e e' : Engine Art) → Untouched e e' → IsReadOnly e → IsReadOnly e'
  Untouched-IsReadOnly e e' u v = record {
    engine_refuses = rw u.same_mode v.engine_refuses;
    quiet = rw u.same_io v.quiet;
  }

  -- Whatever puts, batches, deletes, reads, checkpoints, flushes, compactions and closes a client
  -- asks of an engine that may not write and has nothing in its buffer, in any order, the archive,
  -- with its file, the table of contents, the shards with their version chains and the content store
  -- stay as they are, and the engine stays read-only.
  pub after_all-Untouched :
      (ops : List EngineOp) (e : Engine Art)
      → IsReadOnly e
      → Untouched e (after_all ops e) × IsReadOnly (after_all ops e)
  unfolding after_all
  after_all-Untouched [] e v = (untouched e, v)
  after_all-Untouched (op ∷ ops) e v =
      let one = after_quiet op e v in
      let (more, v') =
        after_all-Untouched ops (after op e) (Untouched-IsReadOnly e (after op e) one v) in
      (Untouched-trans e (after op e) (after_all ops (after op e)) one more, v')
