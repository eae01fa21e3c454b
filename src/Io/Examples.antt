-- ===== src/Io/Examples.antt =====
-- The refinement of the write buffer on a concrete run.
use orthos_i_dart_tpx.Base.{◌≡◌, refl, arith, List, [], ◌∷◌, All}
use orthos_i_dart_tpx.Core.Types.{read_write}
use orthos_i_dart_tpx.Io.{Backend, opened, sync}
use orthos_i_dart_tpx.Io.Contents.{contents, opened-IsBackend}
use orthos_i_dart_tpx.Io.Refine.{
  IoOp, put_at, get_at, add, save, size, run_ops, plain_ops, IsOp, run_ops-refines,
}

abbrev sample_backend : Backend
sample_backend = opened (1 ∷ 2 ∷ 3 ∷ []) read_write

-- An append, a read across its start, a write over it, and a read of what is not there.
abbrev sample_ops : List IoOp
sample_ops = add (4 ∷ 5 ∷ []) ∷ get_at 2 2 ∷ put_at 3 (9 ∷ []) ∷ size ∷ save ∷ get_at 4 3 ∷ []

sample_ops-All : All IsOp sample_ops
sample_ops-All = (tt, (tt, (omega arith, (tt, (tt, (tt, tt))))))

run_ops-refines_example :
    ((run_ops sample_ops sample_backend).1 ≡ (plain_ops sample_ops (contents sample_backend)).1)
    × (contents (run_ops sample_ops sample_backend).0
        ≡ (plain_ops sample_ops (contents sample_backend)).0)
    × ((sync (run_ops sample_ops sample_backend).0).file
        ≡ (plain_ops sample_ops (contents sample_backend)).0)
run_ops-refines_example =
    run_ops-refines sample_ops sample_backend refl (opened-IsBackend (1 ∷ 2 ∷ 3 ∷ []) read_write)
      sample_ops-All
