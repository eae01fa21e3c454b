-- ===== src/Version/Examples.antt =====
-- The theorems on version chains at concrete inputs.
use orthos_i_dart_tpx.Base.{ℕ, ◌≡◌, arith, List, [], ◌∷◌, none, some, ◌&&◌, not}
use orthos_i_dart_tpx.Core.Error.{ok, err, version_not_found}
use orthos_i_dart_tpx.Core.DType.{float32}
use orthos_i_dart_tpx.Version.{
  VersionEntry, VersionChain, VersionDiff, keep_last_n, new, append, get_version, list_versions,
  contains, diff,
}
use orthos_i_dart_tpx.Version.Retention.{
  quota, IsSplit, grown, append-IsSplit, Put, append_all, range, list_versions-append_all,
}
use orthos_i_dart_tpx.Version.Diff.{diff_lem}

abbrev entry : ℕ → List ℕ → VersionEntry
entry id refs = record {
  version_id = id;
  timestamp = 100;
  dtype_id = float32;
  shape = 2 ∷ [];
  attrs = [];
  chunk_refs = refs;
}

-- A chain of the versions 4 and 5 that keeps two.
abbrev chain : VersionChain
chain = record {
  key = 107 ∷ [];
  versions = entry 4 (11 ∷ 12 ∷ []) ∷ entry 5 (12 ∷ 13 ∷ []) ∷ [];
  retention = keep_last_n 2;
}

append-IsSplit_example :
    let r = append 101 float32 (2 ∷ []) [] (14 ∷ []) chain in
    IsSplit (grown 101 float32 (2 ∷ []) [] (14 ∷ []) chain) r.0 r.2 (quota (keep_last_n 2) 3)
    × (r.1 ≡ 6)
append-IsSplit_example = append-IsSplit 101 float32 (2 ∷ []) [] (14 ∷ []) chain

abbrev put : Put
put = record { now = 7; dtype_id = float32; shape = []; attrs = []; chunk_refs = 3 ∷ [] }

list_versions-append_all_example :
    list_versions (append_all (put ∷ put ∷ put ∷ []) (new [] (keep_last_n 2))) ≡ range 1 2
list_versions-append_all_example =
    list_versions-append_all [] (keep_last_n 2) (put ∷ put ∷ put ∷ []) (omega arith)

diff_lem_example :
    ((e1 e2 : VersionEntry)
      → get_version chain 4 ≡ some e1
      → get_version chain 5 ≡ some e2
      → (d : VersionDiff) × (diff chain 4 5 ≡ ok d)
        × ((x : ℕ)
            → contains x d.added ≡ (contains x e2.chunk_refs && not (contains x e1.chunk_refs)))
        × ((x : ℕ)
            → contains x d.removed ≡ (contains x e1.chunk_refs && not (contains x e2.chunk_refs))))
    × (get_version chain 4 ≡ none → diff chain 4 5 ≡ err (version_not_found chain.key 4))
    × ((e1 : VersionEntry)
        → get_version chain 4 ≡ some e1
        → get_version chain 5 ≡ none
        → diff chain 4 5 ≡ err (version_not_found chain.key 5))
diff_lem_example = diff_lem chain 4 5
