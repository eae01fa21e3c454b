-- ===== src/Io/Refine.antt =====
-- The buffered file against one without a buffer.
use orthos_i_dart_tpx.Base.{
  ℕ, ◌<◌, ◌≡◌, ◌∙◌, refl, ap, ap₂, sym, List, [], ◌∷◌, ◌++◌, length, All, true, inr,
}
use orthos_i_dart_tpx.Core.Error.{Result, ok}
use orthos_i_dart_tpx.Io.{
  Backend, write_span, read_span, can_write, write_at, read_at, append_bytes, file_len, sync,
}
use orthos_i_dart_tpx.Io.Contents.{
  contents, IsBackend, Does, append_bytes_lem, read_at_lem, write_at_lem, sync_lem,
}

pub data IoOp : Type 0 where
  put_at : ℕ → List ℕ → IoOp
  get_at : ℕ → ℕ → IoOp
  add : List ℕ → IoOp
  save size : IoOp

pub data IoReply : Type 0 where
  done : Result (Unit {0}) → IoReply
  got : Result (List ℕ) → IoReply
  added : Result ℕ → IoReply
  saved : IoReply
  sized : ℕ → IoReply

unfoldable pub do_op : IoOp → Backend → Backend × IoReply
do_op (put_at offset bytes) s = let (s', r) = write_at offset bytes s in (s', done r)
do_op (get_at offset len) s = let (s', r) = read_at offset len s in (s', got r)
do_op (add bytes) s = let (s', r) = append_bytes bytes s in (s', added r)
do_op save s = (sync s, saved)
do_op size s = (s, sized (file_len s))

-- The same on the bytes of a plain file.
unfoldable pub plain_op : IoOp → List ℕ → List ℕ × IoReply
plain_op (put_at offset bytes) file = (write_span file offset bytes, done (ok tt))
plain_op (get_at offset len) file = (file, got (read_span file offset len))
plain_op (add bytes) file = (file ++ bytes, added (ok (length file)))
plain_op save file = (file, saved)
plain_op size file = (file, sized (length file))

unfoldable pub run_ops : List IoOp → Backend → Backend × List IoReply
run_ops [] s = (s, [])
run_ops (o ∷ ops) s = let (s', r) = do_op o s in let (s'', rs) = run_ops ops s' in (s'', r ∷ rs)

unfoldable pub plain_ops : List IoOp → List ℕ → List ℕ × List IoReply
plain_ops [] file = (file, [])
plain_ops (o ∷ ops) file =
    let (file', r) = plain_op o file in let (file'', rs) = plain_ops ops file' in (file'', r ∷ rs)

-- A write of some bytes.
abbrev pub IsOp : IoOp → Type 0
IsOp (put_at offset bytes) = 0 < length bytes
IsOp (get_at offset len) = Unit
IsOp (add bytes) = Unit
IsOp save = Unit
IsOp size = Unit

relabel :
    {A B : Type 0} (f : A → B) (s : Backend) (reply : A) (after : List ℕ) (r : Backend × A)
    → Does s reply after r
    → Does s (f reply) after (r.0, f r.1)
relabel f s reply after r d = record {
  replied = ap f d.replied;
  bytes = d.bytes;
  same_mode = d.same_mode;
  valid = d.valid;
}

do_op_lem :
    (o : IoOp) (s : Backend)
    → can_write s.mode ≡ true
    → IsBackend s
    → IsOp o
    → Does s (plain_op o (contents s)).1 (plain_op o (contents s)).0 (do_op o s)
unfolding do_op plain_op file_len
do_op_lem (put_at offset bytes) s m v h =
    relabel done s _ _ (write_at offset bytes s) (write_at_lem offset bytes s m (inr h) v)
do_op_lem (get_at offset len) s m v h =
    relabel got s _ _ (read_at offset len s) (read_at_lem offset len s v)
do_op_lem (add bytes) s m v h =
    relabel added s _ _ (append_bytes bytes s) (append_bytes_lem bytes s m v)
do_op_lem save s m v h = relabel (λ _. saved) s tt _ (sync s, tt) (sync_lem s m v).0
do_op_lem size s m v h = record {
  replied = ap sized v.total;
  bytes = refl;
  same_mode = refl;
  valid = v;
}

-- A file that is open for writing answers every sequence of writes of some bytes, reads, appends,
-- syncs and length queries as a file without a buffer does, and holds the same bytes afterwards. A
-- `sync` then puts all of them into the file.
pub run_ops-refines :
    (ops : List IoOp) (s : Backend)
    → can_write s.mode ≡ true
    → IsBackend s
    → All IsOp ops
    → ((run_ops ops s).1 ≡ (plain_ops ops (contents s)).1)
      × (contents (run_ops ops s).0 ≡ (plain_ops ops (contents s)).0)
      × ((sync (run_ops ops s).0).file ≡ (plain_ops ops (contents s)).0)
unfolding run_ops plain_ops
run_ops-refines [] s m v h = (refl, refl, (sync_lem s m v).1)
run_ops-refines (o ∷ ops) s m v (ho, h) =
    let d = do_op_lem o s m v ho in
    let (e1, e2, e3) = run_ops-refines ops (do_op o s).0 (ap can_write d.same_mode ∙ m) d.valid h in
    rw (sym d.bytes) (ap₂ ◌∷◌ d.replied e1, e2, e3)
