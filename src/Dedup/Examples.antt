-- ===== src/Dedup/Examples.antt =====
-- The theorems on deduplication at concrete inputs; a sum of the bytes stands for the content hash.
use orthos_i_dart_tpx.Base.{
  ℕ, ◌+◌, ◌-◌, ◌^◌, ◌≡◌, refl, arith, List, [], ◌∷◌, none, some, ◌==◌, if◌then◌else◌,
}
use orthos_i_dart_tpx.Core.Error.{ok}
use orthos_i_dart_tpx.Dedup.Cdc.{CdcConfig, cdc_chunk}
use orthos_i_dart_tpx.Dedup.Cdc.Tiling.{Tiles, cdc_chunk-Tiles, contents, cdc_chunk-contents}
use orthos_i_dart_tpx.Dedup.ContentStore.{
  ContentEntry, ContentStore, lookup, insert, add_ref, release, gc_candidates,
}
use orthos_i_dart_tpx.Dedup.ContentStore.Counts.{
  IsDistinct, count_events, recount, taken, given_back, run_events, run_events-some,
  release-add_ref, lookup-gc_candidates, release_underflow, lookup-insert,
}

abbrev byte_sum : List ℕ → ℕ
byte_sum [] = 0
byte_sum (b ∷ bs) = b + byte_sum bs

-- Segments of two to four bytes.
abbrev small_config : CdcConfig
small_config = record { min_size = 2; max_size = 4; target_avg = 3; boundary_mask = 1 }

abbrev data_bytes : List ℕ
data_bytes = 1 ∷ 2 ∷ 3 ∷ 4 ∷ 5 ∷ 6 ∷ 7 ∷ []

cdc_chunk-Tiles_example :
    Tiles byte_sum data_bytes small_config 0 (cdc_chunk byte_sum data_bytes small_config)
cdc_chunk-Tiles_example =
    cdc_chunk-Tiles byte_sum data_bytes small_config (omega arith) (omega arith)

cdc_chunk-contents_example :
    contents data_bytes (cdc_chunk byte_sum data_bytes small_config) ≡ data_bytes
cdc_chunk-contents_example =
    cdc_chunk-contents byte_sum data_bytes small_config (omega arith) (omega arith)

abbrev counted : ℕ → ContentEntry
counted n = record { shard_id = 0; chunk_offset = 4096; chunk_len = 100; refcount = n }

-- Two chunks; nobody refers to the second.
abbrev store : ContentStore
store = (70, counted 1) ∷ (71, counted 0) ∷ []

lookup-insert_example : lookup (insert store 72 (counted 1)).0 72 ≡ elim (lookup store 72) [
  | some old ↦ some old
  | none ↦ if 72 == 72 then some (counted 1) else none
]
lookup-insert_example = lookup-insert store 72 72 (counted 1)

found_70 : lookup store 70 ≡ some (counted 1)
unfolding lookup
found_70 = refl

found_71 : lookup store 71 ≡ some (counted 0)
unfolding lookup
found_71 = refl

release-add_ref_example : lookup (release (add_ref store 70).0 70).0 71 ≡ lookup store 71
release-add_ref_example = release-add_ref store 70 71 (counted 1) found_70 (omega arith)

run_events-some_example :
    lookup (run_events store 70 (taken ∷ given_back ∷ given_back ∷ [])) 70
    ≡ some (recount 0 (counted 1))
unfolding count_events
run_events-some_example =
    run_events-some (taken ∷ given_back ∷ given_back ∷ []) store 70 0 (counted 1) (omega arith)
      found_70 refl

store-IsDistinct : IsDistinct store
unfolding lookup
store-IsDistinct = (refl, (refl, tt))

lookup-gc_candidates_example :
    lookup (gc_candidates store) 71
    ≡ elim (lookup store 71) [ none ↦ none | some e ↦ if e.refcount == 0 then some e else none ]
lookup-gc_candidates_example = lookup-gc_candidates store 71 store-IsDistinct

release_underflow_example :
    ((release store 71).1 ≡ ok 0)
    × (lookup (release store 71).0 71 ≡ some (recount (2 ^ 32 - 1) (counted 0)))
    × (lookup (gc_candidates store) 71 ≡ some (counted 0))
    × (lookup (gc_candidates (release store 71).0) 71 ≡ none)
release_underflow_example = release_underflow store 71 (counted 0) store-IsDistinct found_71 refl
